-- ===== src/Tests.antt =====
-- Runs of the definitions on small inputs, and the theorems at concrete inputs.
mod Streams
mod Reassembly
mod Sending
mod Connecting
mod Wire
mod Packets
mod Networks
mod Devices
mod Loops
mod Sockets
mod Copies
mod Threads
