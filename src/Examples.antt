-- ===== src/Examples.antt =====
-- Concrete inputs: a small runtime, two logins, and runs of the program on them.
pub mod Tree
pub mod Machine
pub mod Switches
pub mod Lookups
pub mod Direct
pub mod Chmod
pub mod Perform
pub mod Prefetch
pub mod Choices
pub mod Numerals
pub mod Windows
pub mod Texts
pub mod Table
pub mod Ticks
pub mod Slots
