-- ===== src/Lab5.antt =====
-- lab5: two libraries with the same functions, and the programs that call them.
pub mod Result
pub mod Gcd
pub mod Series
pub mod Programs
