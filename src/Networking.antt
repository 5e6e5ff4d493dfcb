-- ===== src/Networking.antt =====
-- src/networking: contacts, messages, pending requests and the TCP listener.
pub mod NodeInfo
pub mod Messages
pub mod RequestMap
pub mod TcpListener
