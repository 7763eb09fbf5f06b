-- ===== src/Lab3.antt =====
-- lab3: the average of 128-bit numbers that a file holds as hexadecimal texts.
pub mod StringUtils
pub mod Workers
pub mod ArgsParsing
