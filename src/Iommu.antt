-- ===== src/Iommu.antt =====
-- src/iommu/iommu_model.cpp with src/include/knhv_iommu.h: devices that are assigned to a guest, the
-- two translations of a device's access, and the quarantine after a fault. A null pointer is `none`;
-- an output parameter is passed in and returned.
pub mod Defs
pub mod Validity
pub mod Dma
pub mod Resolve
pub mod Assignment
pub mod Lifecycle
pub mod Prepare
mod Tests
