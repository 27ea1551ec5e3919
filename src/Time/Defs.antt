-- ===== src/Time/Defs.antt =====
-- The constants and structures of src/include/knhv_time.h. A signed 64-bit field is an integer.
use knhv.Prelude.{ℕ}

abbrev pub time_contract_version : ℕ
time_contract_version = 1

abbrev pub time_max_struct_size : ℕ
time_max_struct_size = 4096

abbrev pub time_flag_monotonic_clamp : ℕ
time_flag_monotonic_clamp = 0x2

abbrev pub time_flag_paused : ℕ
time_flag_paused = 0x4

abbrev pub time_known_flag_mask : ℕ
time_known_flag_mask = 0x7

abbrev pub i64_maximum : ℕ
i64_maximum = 9223372036854775807

-- The integers over the native numbers: `negsuc n` is the number below zero by n + 1.
pub data ℤ : Type 0 where
  pos negsuc : ℕ → ℤ

pub data TimeResultCode : Type 0 where
  success invalid overflow non_monotonic drift_exceeded : TimeResultCode
  generation_mismatch paused : TimeResultCode

pub record TscTransform : Type 0 where
  pub size : ℕ
  pub version : ℕ
  pub base_tsc : ℕ
  pub base_virtual_tsc : ℕ
  pub scale_q32_32 : ℕ
  pub offset_ticks : ℤ
  pub generation : ℕ
  pub last_virtual_tsc : ℕ
  pub max_drift_ticks : ℕ
  pub flags : ℕ
  pub reserved : ℕ

pub record TscQpcSample : Type 0 where
  pub source_tsc : ℕ
  pub reference_ticks : ℕ

-- `status` is stored as the code of its enumeration.
pub record TimeObservation : Type 0 where
  pub size : ℕ
  pub version : ℕ
  pub virtual_tsc : ℕ
  pub reference_ticks : ℕ
  pub drift_ticks : ℤ
  pub generation : ℕ
  pub status : TimeResultCode
  pub reserved : ℕ
