-- ===== src/Memory.antt =====
-- Physical memory (src/phys_mem.rs, src/allocator.rs) and the memory graph (src/memory_graph.rs).
pub mod Frames
pub mod Graph
