-- ===== src/Connection.antt =====
-- src/modules/connection.cpp: the endpoint and the stages of a connection, the lines that it receives, and
-- the bytes that it sends.
pub mod Text
pub mod Impl
pub mod Stages
pub mod Endpoint
pub mod System
pub mod Api
pub mod Life
pub mod Lines
pub mod Buffers
mod Tests
