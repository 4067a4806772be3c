-- ===== src/WebSocket.antt =====
-- core/husarnet/websocket.h, websocket.cpp and websocket_message.cpp.
pub mod Message
pub mod Handshake
pub mod Session
