-- ===== src/Websocket.antt =====
-- net/websocket.hpp: the WebSocket wire format, messages and the server's handshake.
pub mod Socket
pub mod Frame
pub mod Message
pub mod Header
pub mod Handshake
