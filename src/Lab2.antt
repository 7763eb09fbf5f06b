-- ===== src/Lab2.antt =====
-- lab2: a process that keeps the lines that start with a capital letter.
pub mod Child
