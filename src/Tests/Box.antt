-- ===== src/Tests/Box.antt =====
-- The secret box on an eight-byte message.
use tweetnacl_modular.Base.{◌≡◌, ◌≢◌, ◌⊎◌, inr, refl, arith, take, drop, replicate}
use tweetnacl_modular.Base.Int.{ok, failed}
use tweetnacl_modular.Memory.{at, write_at}
use tweetnacl_modular.Secretbox.{crypto_secretbox, crypto_secretbox_open}
use tweetnacl_modular.Secretbox.Reference.{seal, stream_of, stored_tag, right_tag}
use tweetnacl_modular.Secretbox.Seal.{crypto_secretbox-seal}
use tweetnacl_modular.Secretbox.Open.{crypto_secretbox_open_cases}
use tweetnacl_modular.Secretbox.Round.{crypto_secretbox_round}
use tweetnacl_modular.Secretbox.Errors.{crypto_secretbox_unencrypted}
use tweetnacl_modular.Tests.Data.{key, nonce, message, blank, message-IsBytes, blank-IsBytes}

crypto_secretbox-seal_example :
    crypto_secretbox (at 100 blank) (at 200 message) 40 (at 300 nonce) (at 400 key)
    ≡ record { status = ok; out = write_at 0 (seal 40 message nonce key) blank }
crypto_secretbox-seal_example =
    crypto_secretbox-seal 40 message nonce key (omega arith) (omega arith) refl message-IsBytes 100
      200 300 400 blank (λ e. omega arith) (omega arith) blank-IsBytes

crypto_secretbox_open_cases_example :
    let opened =
      crypto_secretbox_open (at 200 blank) (at 100 blank) 48 (at 300 nonce) (at 400 key) in
    ((stored_tag blank ≡ right_tag 48 blank nonce key)
      × (opened ≡ record {
        status = ok;
        out = write_at 0 (replicate 32 0) (write_at 0 (stream_of 48 blank nonce key) blank);
      }))
    ⊎ ((stored_tag blank ≢ right_tag 48 blank nonce key)
        × (opened ≡ record { status = failed; out = blank }))
crypto_secretbox_open_cases_example =
    crypto_secretbox_open_cases 48 blank nonce key 200 100 300 400 blank (λ e. omega arith)
      (omega arith) (omega arith) (omega arith) blank-IsBytes

crypto_secretbox_round_example :
    let box = crypto_secretbox (at 100 blank) (at 200 message) 40 (at 300 nonce) (at 400 key) in
    (box.status ≡ ok)
    × (crypto_secretbox_open (at 500 blank) (at 100 box.out) 40 (at 300 nonce) (at 400 key)
        ≡ record { status = ok; out = write_at 0 (take 40 message) blank })
crypto_secretbox_round_example =
    crypto_secretbox_round 40 message nonce key (omega arith) (omega arith) (omega arith) refl
      message-IsBytes 100 200 500 300 400 blank blank (λ e. omega arith) (λ e. omega arith)
      blank-IsBytes

crypto_secretbox_unencrypted_example :
    let box = crypto_secretbox (at 200 message) (at 200 message) 40 (at 300 nonce) (at 400 key) in
    (box.status ≡ ok) × (drop 32 box.out ≡ drop 32 message)
crypto_secretbox_unencrypted_example =
    crypto_secretbox_unencrypted 40 200 200 300 400 message message nonce key (omega arith)
      (omega arith) message-IsBytes (inr refl)
