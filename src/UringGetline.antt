-- ===== src/UringGetline.antt =====
-- src/lib/uring_getline.c: lines from blocks of a file.
pub mod Line
pub mod File
mod Split
mod Equivalence
mod Examples
