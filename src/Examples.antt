-- ===== src/Examples.antt =====
-- The theorems on the static hash tables, applied at concrete inputs.
mod Sort
mod Sets
mod Maps
mod Tables
mod Caches
mod Ranges
