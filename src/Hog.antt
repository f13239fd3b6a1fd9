-- ===== src/Hog.antt =====
-- hrt_cbs.c and cpu_hog_cbs.c: programs that keep a processor busy inside a reservation.
pub mod Options
pub mod Accepted
pub mod Cycles
pub mod Chunks
mod Examples
mod ChunkExamples
