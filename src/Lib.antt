-- ===== src/Lib.antt =====
-- KNHV, a small Intel VT-x hypervisor: its hardware-independent models.
--
-- The repository keeps the decisions that need no privileged instruction in contract models: pure
-- functions over versioned structures. A caller fills in the structures and calls an operation, and the
-- answer says what may be done. At present the tests call all of these models and the broker includes
-- that of the Windows Hypervisor Platform; the models do not call one another. The modules here follow
-- them file by file.
--
-- - Boot: src/boot/boot_contract.cpp with src/include/knhv_boot_contract.h. The contract by which a root
--   takes the processors at boot, hands them to Windows and gives them back; Abi has the status
--   codes, the versions, the capability bits and the requests and snapshots of src/include/knhv_abi.h.
-- - Provider: src/provider/provider_selection.cpp and owner_observation.cpp. Selection is which provider a
--   request is given on a snapshot of the machine: the tests of both, `SelectProvider` on every mode, with
--   the mode as a number and the output as a value, and the fallback snapshot. Owner is the gate from an
--   observation of the machine to what may own it (`EvaluateOwnerGate`, one function for each owner) and the
--   check of its result; the names that it prints are left out.
-- - Ept: src/ept/ept_model.cpp with src/include/knhv_ept.h. The mappings of extended page tables and the
--   lookup through two of them, the encoding of the EPT pointer, the transactions that install a page
--   hook once every processor has acknowledged it, and the generations of the tables.
-- - Exit: src/exit/exit_model.cpp with src/include/knhv_exit.h. An exit of the guest is classified by
--   its reason, and EvaluateExit picks an action and a status from the class, the owner and the policy.
-- - Interrupt: src/interrupt/interrupt_model.cpp with src/include/knhv_interrupt.h. A queue of 32
--   pending events, the selection of the next one, its commit, and the posted-interrupt descriptor
--   whose marked vectors are drained into the queue.
-- - Iommu: src/iommu/iommu_model.cpp with src/include/knhv_iommu.h. Which device may be assigned to a
--   guest, the life of the assignment, the two translations of a device's access, and the quarantine
--   after a fault.
-- - Nested: src/nested/nested_instructions.cpp, nested_vmcs.cpp and nested_memory.cpp with
--   src/include/knhv_nested.h. The VMX instructions of a guest that is itself a hypervisor, on a store
--   of 16 VMCS12, and the reflection of its own guest's exits. The callbacks to the guest's memory are
--   code of the caller: parameters, on a state that stands for their context.
-- - Vpid: src/vmx/vpid_model.cpp with src/include/knhv_vpid.h. The leases of virtual-processor
--   identifiers, and the shootdown that must finish before an identifier is used again.
-- - Whp: src/whp/whp_model.cpp with src/include/knhv_whp.h. The life of a partition of the Windows
--   Hypervisor Platform, its mappings and processors, and the routing of its exits.
-- - Time: src/time/time_contract.cpp with src/include/knhv_time.h. The virtual time of a guest as a
--   fixed-point transform of the processor's counter, its calibration, rebasing and drift. The
--   intrinsics _umul128 and _udiv128 are the two words of a product and the quotient of two words.
-- - Prelude: Boolean tests, lists, flag words and single bits, for all of them.
--
-- In each, Defs (or the root of the module) has the structures and constants under the source's names in
-- this library's spelling, and the files beside it the operations: IsVpidLeaseValid is
-- is_vpid_lease_valid, and so on. The other files are named for what they prove; Tests has runs.
--
-- Conventions. A structure is a record of its fields, a fixed array a list, an enumeration that the code
-- keeps as a raw number its code, one that the code only returns a data type. A pointer that the code
-- compares with nullptr is an Option; a test that its file calls only with the address of a field takes
-- the structure itself. An operation that writes through a pointer is given the old structure and
-- returns the new one with the answer; no operation keeps a pointer, and the calls modelled together
-- are made on separate structures. A field is a natural number; where the source can wrap around, the
-- reduction by the width is written out (u32, u64), and where it tests for an overflow first, that test
-- is. A theorem that needs a field to fit its width says so. sizeof is the number that the header
-- asserts. Tests that the source writes as one disjunction of failures are one conjunction, and a chain
-- of early returns is a chain of conditionals in the same order. Every loop has a fixed bound or runs
-- over an array, and is recursion on that bound or list, but for two: the linear reads and writes of
-- Nested take a page at a time, on the length as fuel, and the scan of a VMX region takes 64 bytes at
-- a time, on 64 turns, which cover a page from its fourth byte. Every function is total.
--
-- Not modelled. The driver proper (src/core, src/vmx/vmx_*.cpp, src/asm) runs privileged instructions
-- and kernel calls, which nothing under src gives a meaning; src/control, src/broker and src/test_driver
-- carry requests to it. The leases of src/provider/provider_v2.cpp,
-- src/nested/vmcs02_model.cpp and vmcs_shadow_model.cpp, src/validation and the capability and teardown
-- models of src/vmx are not covered yet. How the fields lie in memory is not modelled, beyond the sizes
-- that the operations compare.
pub mod Abi
pub mod Boot
pub mod Ept
pub mod Exit
pub mod Interrupt
pub mod Iommu
pub mod Nested
pub mod Prelude
pub mod Provider
pub mod Time
pub mod Vpid
pub mod Whp
