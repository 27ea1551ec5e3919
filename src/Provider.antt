-- ===== src/Provider.antt =====
-- src/provider/provider_selection.cpp and owner_observation.cpp with src/include/knhv_abi.h and
-- knhv_owner_observation.h: which provider a request is given, and what may own the machine.
pub mod Selection
pub mod Safety
pub mod Observation
pub mod Owner
pub mod Gate
mod Tests
