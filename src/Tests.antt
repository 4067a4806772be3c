-- ===== src/Tests.antt =====
-- Runs of the model at concrete inputs.
mod World
mod Sockets
mod Layers
mod Basics
mod Streams
mod WebSockets
mod Services
