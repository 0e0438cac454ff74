-- ===== src/Examples.antt =====
-- The theorems at concrete inputs, and runs of the code.
mod Can
mod Frames
mod Registers
mod Requests
mod Servers
mod Locks
mod Texts
mod Transports
mod Clients
mod Actors
