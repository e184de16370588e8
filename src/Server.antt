-- ===== src/Server.antt =====
-- The server side, c-http-sniffer/src/server.c.
pub mod Varint
pub mod Connection
