-- ===== src/Ept.antt =====
-- src/ept/ept_model.cpp with src/include/knhv_ept.h: the mappings and pointers of extended page tables, the
-- lookup through two of them, the transactions of page hooks and the generations of the tables.
pub mod Defs
pub mod Validity
pub mod Lookup
pub mod Pointer
pub mod Hook
pub mod Transaction
pub mod Generation
pub mod Resolve
pub mod Codec
pub mod Update
pub mod Life
mod Tests
