-- ===== src/Nested.antt =====
-- src/nested/nested_instructions.cpp, nested_vmcs.cpp and nested_memory.cpp with src/include/knhv_nested.h:
-- the VMX instructions of a guest that is itself a hypervisor, on its VMCS12 store.
pub mod Defs
pub mod Rules
pub mod Errors
pub mod Store
pub mod Entry
pub mod Memory
pub mod Vcpu
pub mod Region
pub mod Instructions
pub mod Dispatch
pub mod Slots
pub mod Sound
pub mod Allocation
pub mod Keeps
pub mod Leaves
pub mod Run
pub mod Fields
pub mod ReadOnly
pub mod Linear
pub mod Reflect
mod Tests
