-- ===== src/Tests.antt =====
-- Runs of the functions of src/tweetnacl/tweetnacl.c and src/core on concrete buffers.
pub mod Data
mod Box
mod Authenticator
mod Cipher
mod Words
mod Hash
mod Core
mod Random
mod Quantum
mod Curve
mod Keys
mod Signatures
