-- ===== src/Boot/Defs.antt =====
-- The structures of src/include/knhv_boot_contract.h.
use knhv.Prelude.{ℕ}
use knhv.Abi.{HvStatus}

pub data BootL0State : Type 0 where
  pre_l0 root_active windows_handoff ready : BootL0State
  recovery : BootL0State

pub record BootContext : Type 0 where
  pub version : ℕ
  pub size : ℕ
  pub logical_processors : ℕ
  pub manifest_valid : ℕ
  pub physical_vmx_ready : ℕ
  pub external_owner : ℕ
  pub windows_handoff_ready : ℕ
  pub reserved : ℕ

pub record BootOwnerToken : Type 0 where
  pub nonce : ℕ
  pub generation : ℕ
  pub owner_count : ℕ
  pub active_processors : ℕ
  pub reserved : ℕ

pub record BootEvidence : Type 0 where
  pub version : ℕ
  pub size : ℕ
  pub state : BootL0State
  pub boot_generation : ℕ
  pub owner_generation : ℕ
  pub owner_count : ℕ
  pub active_processors : ℕ
  pub last_status : HvStatus

pub record BootL0Contract : Type 0 where
  pub version : ℕ
  pub size : ℕ
  pub state : BootL0State
  pub generation : ℕ
  pub owner : BootOwnerToken
  pub evidence : BootEvidence
