-- ===== src/Tests.antt =====
-- The theorems of the other modules at concrete inputs.
mod Data
mod Processor
mod Arithmetic
mod Memory
mod Interrupts
mod Devices
mod Console
mod Machine
mod Programs
mod Bios
mod Delivery
