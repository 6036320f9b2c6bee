-- ===== src/TraceDecoder.antt =====
-- The crate trace_decoder: the stack machine that builds a witness tree from instructions.
pub mod Wire
pub mod Type1
mod Tests
