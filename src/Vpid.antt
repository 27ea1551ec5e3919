-- ===== src/Vpid.antt =====
-- src/vmx/vpid_model.cpp with src/include/knhv_vpid.h: the leases of virtual-processor identifiers and
-- the shootdown that must finish before an identifier is used again. A null pointer is `none`; an
-- output parameter is passed in and returned.
pub mod Defs
pub mod Lease
pub mod Shootdown
pub mod Reclaim
pub mod Protocol
pub mod Pool
pub mod Pigeonhole
mod Tests
