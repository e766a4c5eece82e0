-- ===== src/Tests/Cipher.antt =====
-- The Salsa20 cores and the stream functions on concrete buffers.
use tweetnacl_modular.Base.{◌≡◌, refl, arith, ◌++◌, take}
use tweetnacl_modular.Base.Int.{ok}
use tweetnacl_modular.Memory.{null, at, write_at}
use tweetnacl_modular.Bytes.Value.{le_bytes}
use tweetnacl_modular.Salsa.{crypto_core_salsa20, crypto_core_hsalsa20, sigma}
use tweetnacl_modular.Salsa.Reference.{salsa20, hsalsa20}
use tweetnacl_modular.Salsa.Output.{crypto_core_salsa20-salsa20, crypto_core_hsalsa20-hsalsa20}
use tweetnacl_modular.Stream.{xor_bytes, stream_loop, crypto_stream_salsa20_xor, crypto_stream_xor}
use tweetnacl_modular.Stream.Keystream.{keystream, stream_loop-keystream}
use tweetnacl_modular.Stream.Cipher.{pad, crypto_stream_salsa20_xor-pad, crypto_stream_xor_twice}
use tweetnacl_modular.Tests.Data.{key, nonce, message, blank}

crypto_core_salsa20-salsa20_example :
    crypto_core_salsa20 (take 16 nonce) key sigma ≡ salsa20 (take 16 nonce) key sigma
crypto_core_salsa20-salsa20_example = crypto_core_salsa20-salsa20 (take 16 nonce) key sigma

crypto_core_hsalsa20-hsalsa20_example :
    crypto_core_hsalsa20 nonce key sigma ≡ hsalsa20 nonce key sigma
crypto_core_hsalsa20-hsalsa20_example = crypto_core_hsalsa20-hsalsa20 nonce key sigma

stream_loop-keystream_example :
    stream_loop 2 70 null (take 8 nonce ++ le_bytes 8 3) key
    ≡ xor_bytes 70 0 null (keystream 2 (take 8 nonce) 3 key)
stream_loop-keystream_example =
    stream_loop-keystream 2 70 null (take 8 nonce) key 3 refl (omega arith)

crypto_stream_salsa20_xor-pad_example :
    crypto_stream_salsa20_xor (at 100 blank) (at 200 message) 40 (at 300 nonce) (at 400 key)
    ≡ record {
      status = ok;
      out = write_at 0 (xor_bytes 40 0 (at 200 message) (pad 40 nonce key)) blank;
    }
crypto_stream_salsa20_xor-pad_example =
    crypto_stream_salsa20_xor-pad (at 100 blank) (at 200 message) 40 (at 300 nonce) (at 400 key)
      (record { short = omega arith; c_there = refl; n_there = refl; k_there = refl; apart = refl })

crypto_stream_xor_twice_example :
    let first = crypto_stream_xor (at 100 blank) (at 200 message) 40 (at 300 nonce) (at 400 key) in
    let second =
      crypto_stream_xor (at 500 blank) (at 100 first.out) 40 (at 300 nonce) (at 400 key) in
    (first.status ≡ ok) × (second.status ≡ ok) × (take 40 second.out ≡ take 40 message)
crypto_stream_xor_twice_example =
    crypto_stream_xor_twice 100 200 500 300 400 40 blank message blank nonce key (λ e. omega arith)
      (λ e. omega arith) (omega arith) (omega arith)
