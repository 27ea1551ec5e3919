-- ===== src/Whp.antt =====
-- src/whp/whp_model.cpp with src/include/knhv_whp.h: the life of a partition of the host's hypervisor
-- platform, of its processors and of its mappings, and the routing of an exit. A null pointer is
-- `none`; an output parameter is passed in and returned.
pub mod Defs
pub mod Validity
pub mod Partition
pub mod Exits
pub mod Lifecycle
pub mod Moves
pub mod Vcpus
pub mod Routing
mod Tests
