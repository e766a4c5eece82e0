-- ===== src/Lib.antt =====
-- Models of the functions of a modular build of TweetNaCl in C, with the theorems that make them
-- correct. The models follow src/tweetnacl/tweetnacl.c, src/core/utils.c and the other files that
-- each module names.
--
-- The parts of the program, and how they interact. The secret box (crypto_secretbox and
-- crypto_secretbox_open) encrypts with the stream cipher and authenticates with the one-time
-- authenticator; the stream cipher turns a nonce and a key into blocks with the Salsa20 core, under a
-- key that the HSalsa20 core derives; the authenticator computes with numbers of 17 bytes and is
-- checked by a comparison without early exit. All of them load and store words byte by byte.
-- crypto_box is the secret box under a key that the scalar multiplication of Curve25519 gives;
-- crypto_sign and crypto_sign_open hash with SHA-512 and compute on the same field. Random bytes come
-- from randombytes_safe, which asks the hardware generator of drng.c where the build has one and else
-- the operating system; the post-quantum stub fills its keys with them.
--
-- Which module models which part:
--   Word, Bytes        u32 and u64 with their wrap, L32; ld32, st32, dl64, ts64
--   Memory             pointers, aliasing; Memory.Secure: secure_memset, secure_memcmp, safe_memcpy
--   Verify             vn, crypto_verify_16, crypto_verify_32
--   Salsa              core, crypto_core_salsa20, crypto_core_hsalsa20; Salsa.Reference is the
--                      specification of Salsa20 with quarterround, rowround and columnround
--   Stream             crypto_stream_salsa20_xor, crypto_stream_salsa20, crypto_stream and
--                      crypto_stream_xor; Stream.Keystream is the keystream as one list
--   Poly               add1305, crypto_onetimeauth, crypto_onetimeauth_verify; Poly.Reference is
--                      Poly1305 of RFC 8439 on numbers
--   Secretbox          crypto_secretbox, crypto_secretbox_open; Secretbox.Reference is the box of NaCl
--   Sha512             crypto_hashblocks and crypto_hash; Sha512.Reference is SHA-512 of FIPS 180-4
--   Curve25519         src/tweetnacl/tweetnacl.c: the field of 16 limbs, crypto_scalarmult;
--                      Curve25519.Value is the number that limbs stand for
--   Box                crypto_box, crypto_box_open and the functions before and after them
--   Ed25519            the points, unpackneg; Ed25519.Scalar: modL and reduce; Ed25519.Sign:
--                      crypto_sign and crypto_sign_open; Ed25519.Fips:
--                      src/drivers/crypto/fips/fips1865_ed25519.c, with a context or a hash,
--                      which gives none where it writes past the end of an array;
--                      Ed25519.Sign.Reference: the parts of a signature from SHA-512
--   Keypair            src/core/keygen_validate.c: nacl_keypair_validate and the generation of pairs
--   Sha512.Truncated   src/drivers/crypto/fips/fips1804_sha512.c: SHA-512/256 and SHA-512/224
--   Status             the error codes of include/core/error.h
--   Rng                src/drivers/rng: Rng.Drng is drng.c, a state machine over the answers of the
--                      hardware; Rng.Randombytes is randombytes.c over those of the operating system;
--                      Rng.Source is the interface for random bytes that clients use
--   Pqc                src/drivers/crypto/pqc.c: Pqc.Params is the table, Pqc.Stub and Pqc.Hybrid the
--                      functions without liboqs, Pqc.Oqs key generation over it; Pqc.Generator is
--                      randombytes.c behind the interface of Rng.Source
--   Utils              src/core/secure_utils.c: checked arithmetic, branchless functions, safe_strcpy
--   Dispatch           src/core/dispatch.c: nacl_select_implementation, nacl_set_implementation
--   Base, Bits         shared helpers: lists, tests, loops, remainders, bitwise operations
--   Tests              runs on concrete buffers
--
-- State and operations. A buffer is a list of bytes. A pointer is null, or an address and the bytes
-- from it on, so that the tests `p == NULL` and `p == q` of the source can be written; two buffers at
-- different addresses do not overlap. A function that writes through a pointer returns what it leaves
-- in that buffer, with its status where it has one (the record Call). A read beyond the end of a
-- list gives 0; the theorems ask for buffers of the length that the functions read, where it matters.
-- Local arrays are lists, and what the source leaves unset in them is not read.
--
-- Numbers are natural numbers. A word of 32 or 64 bits keeps its wrap as a remainder (u32, u64), a
-- subtraction of words adds 2 ^ 32 or 2 ^ 64 first (sub32, sub64). The limbs of a field element, i64 in
-- the source, are exact integers, with shifts and masks as on two's complement (shr_ℤ, low_ℤ); the
-- comparison of the ladder and the exchange under a mask are at 64 bits. Where a sum of limbs leaves 64
-- bits, the source is undefined; Curve25519.Range bounds what a product adds up, for limbs of 26 bits.
--
-- Loops with a fixed count are recursion on the rounds left. The loop of the stream cipher has
-- b / 64 + 1 rounds of fuel and that of the authenticator n / 16 + 1; both stop when no bytes are
-- left. The loop of crypto_hashblocks has n / 128 rounds, one for each whole block. The theorems about
-- them show that the fuel is enough for every length.
--
-- The functions of drng.c call each other: drng_fill calls drng_init, whose self-test calls drng_fill.
-- Their fuel bounds the nested calls, and the rounds of the loop that waits for another initialization;
-- a call whose fuel ends gives none. The theorems give the fuel that is enough, or show that none is. A
-- retry has its 11 rounds. The loop that reads /dev/urandom runs over the answers to `read` that have
-- come; where it waits for one more, the call gives none.
--
-- Not modelled: threads (a state of drng.c where another thread is at work is a state with
-- drng_init_state 1, and nothing else runs between two steps), the queries of the processor, the self
-- tests, the start of the library, the vector code and the wrappers that dispatch to it, liboqs, and
-- what the compiler or the operating system does (memory barriers, locking of pages, timing).
pub mod Base
pub mod Bits
pub mod Word
pub mod Bytes
pub mod Memory
pub mod Verify
pub mod Salsa
pub mod Stream
pub mod Poly
pub mod Keypair
pub mod Pqc
pub mod Rng
pub mod Secretbox
pub mod Status
pub mod Sha512
pub mod Utils
pub mod Curve25519
pub mod Box
pub mod Ed25519
pub mod Dispatch
pub mod Tests
