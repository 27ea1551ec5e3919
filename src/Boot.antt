-- ===== src/Boot.antt =====
-- src/boot/boot_contract.cpp with src/include/knhv_boot_contract.h: the contract by which a root takes the
-- processors at boot, hands them to Windows and gives them back.
pub mod Defs
pub mod Ops
pub mod Moves
pub mod Sound
mod Tests
