-- ===== src/IrqController.antt =====
-- The interrupt controller of src/mmio_devices/irq_controller.c: its state, its commands, the device
-- around them, and what they keep.
pub mod State
pub mod Commands
pub mod Device
pub mod Arbitrate
pub mod Invariant
pub mod Preserve
pub mod Total
