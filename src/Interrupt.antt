-- ===== src/Interrupt.antt =====
-- src/interrupt/interrupt_model.cpp with src/include/knhv_interrupt.h: the bounded queue of pending
-- events, what is injected next, and the posted-interrupt descriptor. `pending` is the array of 32
-- entries as a list; a null pointer is `none`, and a call returns what it leaves behind a pointer.
pub mod Defs
pub mod Ops
pub mod Enqueue
pub mod Select
pub mod Removal
pub mod Posted
pub mod Drain
mod Tests
pub mod Commit
