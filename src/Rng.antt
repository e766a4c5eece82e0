-- ===== src/Rng.antt =====
-- Random numbers: src/drivers/rng/drng.c (Drng and its children, Threads) and
-- src/drivers/rng/randombytes.c (Randombytes).
pub mod Drng
pub mod Randombytes
pub mod Source
