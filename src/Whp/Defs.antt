-- ===== src/Whp/Defs.antt =====
-- The constants and structures of src/include/knhv_whp.h.
use knhv.Prelude.{ℕ}

abbrev pub whp_contract_version : ℕ
whp_contract_version = 1

abbrev pub whp_max_struct_size : ℕ
whp_max_struct_size = 4096

abbrev pub whp_page_size : ℕ
whp_page_size = 4096

abbrev pub whp_max_physical_address_bits : ℕ
whp_max_physical_address_bits = 52

abbrev pub whp_max_vcpus : ℕ
whp_max_vcpus = 256

abbrev pub whp_max_mappings : ℕ
whp_max_mappings = 1024

abbrev pub whp_cap_partition : ℕ
whp_cap_partition = 0x1

abbrev pub whp_cap_local_apic : ℕ
whp_cap_local_apic = 0x2

abbrev pub whp_cap_iommu : ℕ
whp_cap_iommu = 0x20

abbrev pub whp_cap_nested_vmx : ℕ
whp_cap_nested_vmx = 0x40

abbrev pub whp_cap_reference_time : ℕ
whp_cap_reference_time = 0x80

abbrev pub whp_known_capability_mask : ℕ
whp_known_capability_mask = 0x1ff

abbrev pub whp_known_extended_exit_mask : ℕ
whp_known_extended_exit_mask = 0x7fff

abbrev pub whp_partition_enable_nested_vmx : ℕ
whp_partition_enable_nested_vmx = 0x1

abbrev pub whp_partition_enable_local_apic : ℕ
whp_partition_enable_local_apic = 0x2

abbrev pub whp_partition_enable_reference_time : ℕ
whp_partition_enable_reference_time = 0x4

abbrev pub whp_partition_require_isolation : ℕ
whp_partition_require_isolation = 0x8

abbrev pub whp_known_partition_flag_mask : ℕ
whp_known_partition_flag_mask = 0xf

abbrev pub whp_known_mapping_permission_mask : ℕ
whp_known_mapping_permission_mask = 0x7

abbrev pub whp_known_mapping_flag_mask : ℕ
whp_known_mapping_flag_mask = 0x3

-- The codes of `WhpPartitionState`, `WhpVcpuState` and `WhpExitReason`; the fields are raw numbers.
abbrev pub partition_empty : ℕ
partition_empty = 0

abbrev pub partition_created : ℕ
partition_created = 1

abbrev pub partition_configured : ℕ
partition_configured = 2

abbrev pub partition_running : ℕ
partition_running = 3

abbrev pub partition_draining : ℕ
partition_draining = 4

abbrev pub partition_closed : ℕ
partition_closed = 5

abbrev pub partition_quarantined : ℕ
partition_quarantined = 6

abbrev pub vcpu_empty : ℕ
vcpu_empty = 0

abbrev pub vcpu_created : ℕ
vcpu_created = 1

abbrev pub vcpu_running : ℕ
vcpu_running = 2

abbrev pub vcpu_stopped : ℕ
vcpu_stopped = 3

abbrev pub vcpu_failed : ℕ
vcpu_failed = 4

abbrev pub exit_memory_access : ℕ
exit_memory_access = 1

abbrev pub exit_io_port_access : ℕ
exit_io_port_access = 2

abbrev pub exit_unrecoverable_exception : ℕ
exit_unrecoverable_exception = 4

abbrev pub exit_invalid_vp_register_value : ℕ
exit_invalid_vp_register_value = 5

abbrev pub exit_unsupported_feature : ℕ
exit_unsupported_feature = 6

abbrev pub exit_interrupt_window : ℕ
exit_interrupt_window = 7

abbrev pub exit_halt : ℕ
exit_halt = 8

abbrev pub exit_apic_eoi : ℕ
exit_apic_eoi = 9

abbrev pub exit_msr_access : ℕ
exit_msr_access = 0x1000

abbrev pub exit_cpuid : ℕ
exit_cpuid = 0x1001

abbrev pub exit_exception : ℕ
exit_exception = 0x1002

abbrev pub exit_rdtsc : ℕ
exit_rdtsc = 0x1003

abbrev pub exit_hypercall : ℕ
exit_hypercall = 0x1005

abbrev pub exit_canceled : ℕ
exit_canceled = 0x2001

pub data WhpStatus : Type 0 where
  success invalid_parameter capability_mismatch state_conflict generation_mismatch : WhpStatus
  address_invalid limit_exceeded exit_unsupported quarantined : WhpStatus

abbrev pub status_code : WhpStatus → ℕ
status_code success = 0
status_code invalid_parameter = 1
status_code capability_mismatch = 2
status_code state_conflict = 3
status_code generation_mismatch = 4
status_code address_invalid = 5
status_code limit_exceeded = 6
status_code exit_unsupported = 7
status_code quarantined = 8

pub data WhpExitAction : Type 0 where
  resume handle_memory handle_io handle_cpu inject_exception : WhpExitAction
  stop to_quarantine : WhpExitAction

abbrev pub action_code : WhpExitAction → ℕ
action_code resume = 0
action_code handle_memory = 1
action_code handle_io = 2
action_code handle_cpu = 3
action_code inject_exception = 4
action_code stop = 5
action_code to_quarantine = 6

pub record WhpCapabilities : Type 0 where
  pub size : ℕ
  pub version : ℕ
  pub feature_flags : ℕ
  pub extended_exit_flags : ℕ
  pub api_version : ℕ
  pub physical_address_bits : ℕ
  pub max_vcpus : ℕ
  pub reserved : ℕ
  pub processor_clock_hz : ℕ
  pub generation : ℕ

pub record WhpPartitionConfig : Type 0 where
  pub size : ℕ
  pub version : ℕ
  pub owner_id : ℕ
  pub generation : ℕ
  pub max_vcpus : ℕ
  pub physical_address_bits : ℕ
  pub flags : ℕ
  pub reserved : ℕ

pub record WhpPartition : Type 0 where
  pub size : ℕ
  pub version : ℕ
  pub partition_id : ℕ
  pub owner_id : ℕ
  pub generation : ℕ
  pub state : ℕ
  pub flags : ℕ
  pub max_vcpus : ℕ
  pub configured_vcpus : ℕ
  pub mapping_count : ℕ
  pub reserved : ℕ
  pub mapped_pages : ℕ

pub record WhpMemoryMapping : Type 0 where
  pub size : ℕ
  pub version : ℕ
  pub guest_physical : ℕ
  pub host_address : ℕ
  pub page_count : ℕ
  pub permissions : ℕ
  pub flags : ℕ
  pub generation : ℕ

pub record WhpVcpu : Type 0 where
  pub size : ℕ
  pub version : ℕ
  pub index : ℕ
  pub state : ℕ
  pub generation : ℕ
  pub run_count : ℕ
  pub exit_count : ℕ

pub record WhpExitRecord : Type 0 where
  pub size : ℕ
  pub version : ℕ
  pub reason : ℕ
  pub vcpu_index : ℕ
  pub instruction_length : ℕ
  pub reserved : ℕ
  pub qualification : ℕ
  pub guest_physical : ℕ
  pub guest_linear : ℕ
  pub generation : ℕ

pub record WhpExitDecision : Type 0 where
  pub size : ℕ
  pub version : ℕ
  pub status : ℕ
  pub action : ℕ
  pub reason : ℕ
  pub reserved : ℕ
  pub generation : ℕ
