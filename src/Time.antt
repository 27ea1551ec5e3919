-- ===== src/Time.antt =====
-- src/time/time_contract.cpp with src/include/knhv_time.h: the virtual time of a guest, a fixed-point
-- transform of the processor's counter, and its rebasing. A null pointer is `none`; an output
-- parameter is passed in and returned.
pub mod Defs
pub mod Transform
pub mod Rebase
pub mod Monotone
pub mod Observe
pub mod Calibrate
pub mod Drift
mod Tests
