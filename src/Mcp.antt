-- ===== src/Mcp.antt =====
-- control-plane/src/sdlc/mcp/ and the loop of cli.py that serves it: one JSON-RPC message in, one out.
pub mod Protocol
pub mod Server
pub mod Bootstrap
pub mod Stdio
pub mod Client
