-- ===== src/Lab4.antt =====
-- lab4: a process that keeps the lines that start with a capital letter, over shared memory.
pub mod Chunks
pub mod Child
