-- ===== src/NgSocket.antt =====
-- core/husarnet/ngsocket.h, ngsocket.cpp and ngsocket_messages.h: the lowest layer, which finds the
-- peers and carries the packets, directly or through the base server.
pub mod Messages
pub mod Parse
pub mod Addresses
pub mod State
pub mod Sources
pub mod Peers
pub mod Base
pub mod Answers
pub mod Worker
pub mod Frame
pub mod Entries
