-- ===== src/Tests.antt =====
-- Runs of the theorems at concrete inputs, by part of the program.
mod Buffers
mod Requests
mod Network
mod Pages
mod Alarms
mod Loops
mod Lives
mod Addresses
mod Queues
mod Servers
