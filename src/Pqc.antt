-- ===== src/Pqc.antt =====
-- The post-quantum wrappers of src/drivers/crypto/pqc.c: the table of parameters, the stub that is
-- built by default (Stub, Hybrid) and the key generation over liboqs (Oqs).
pub mod Params
pub mod Table
pub mod Generator
pub mod Stub
pub mod Hybrid
pub mod Oqs
