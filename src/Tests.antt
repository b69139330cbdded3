-- ===== src/Tests.antt =====
-- Runs of the model at concrete inputs, and each result applied at one.
mod Heap
mod Words
mod Protocol
mod Roots
mod Allocation
mod Restart
mod File
mod Running
mod Starting
mod Registering
mod Interfacing
mod Marking
mod Opening
