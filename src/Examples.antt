-- ===== src/Examples.antt =====
-- The theorems of the library, applied at concrete tables, frames and clocks.
mod Machines
mod Table
mod Clock
mod Frames
mod Wifi
mod Daemon
mod Ports
mod Plain
