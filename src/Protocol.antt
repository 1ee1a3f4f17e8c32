-- ===== src/Protocol.antt =====
-- The protocols (src/BaseProtocol.h and its subclasses).
pub mod Frame
pub mod Line
pub mod Strings
