-- ===== src/GreenCtx.antt =====
-- morphling/runtime/greenctx and morphling/runtime/green_context.py: trace-driven partitions of
-- the streaming multiprocessors (SMs) of a GPU.
pub mod Trace
pub mod Base
pub mod Torch
pub mod Off
pub mod Cpp
pub mod Factory
pub mod Backends
pub mod Controller
