-- ===== src/Evidence.antt =====
-- control-plane/src/sdlc/evidence/: the content-addressed store, the bounded view of tool output, the
-- evidence record, and `process_tool_output`, which joins them.
pub mod Compression
pub mod Store
pub mod Record
pub mod Output
pub mod Recovery
pub mod Excerpt
