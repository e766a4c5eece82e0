-- ===== src/Box/Shared.antt =====
-- Boxes between two parties whose scalar multiplications agree.
use tweetnacl_modular.Base.{ℕ, ◌≤◌, ◌≡◌, ◌≢◌, ◌∙◌, refl, sym, ap, List, length, take, replicate}
use mathlib.Core.Path.{subst}
use tweetnacl_modular.Base.Int.{ok}
use tweetnacl_modular.Memory.{at, write_at, Call}
use tweetnacl_modular.Bytes.{IsBytes}
use tweetnacl_modular.Stream.{max_message}
use tweetnacl_modular.Salsa.{crypto_core_hsalsa20, sigma}
use tweetnacl_modular.Secretbox.{crypto_secretbox, crypto_secretbox_open}
use tweetnacl_modular.Secretbox.Round.{crypto_secretbox_round}
use tweetnacl_modular.Curve25519.Ladder.{scalarmult_bytes, crypto_scalarmult}
use tweetnacl_modular.Box.{
  crypto_box_beforenm, crypto_box_afternm, crypto_box_open_afternm, crypto_box, crypto_box_open,
}

-- The key of a box: HSalsa20 of the shared point, under nonce 0.
pub shared_key : List ℕ → List ℕ → List ℕ
shared_key x y =
    let s = write_at 0 (scalarmult_bytes x y) (replicate 32 0) in
    write_at 0 (crypto_core_hsalsa20 (replicate 16 0) s sigma) (replicate 32 0)

-- A box is a secret box under the shared key.
crypto_box-secretbox :
    (pc pm pn py px d : ℕ) (c msg n y x : List ℕ)
    → crypto_box (at pc c) (at pm msg) d (at pn n) (at py y) (at px x)
      ≡ crypto_secretbox (at pc c) (at pm msg) d (at pn n) (at 0 (shared_key x y))
unfolding crypto_box crypto_box_beforenm crypto_box_afternm crypto_scalarmult shared_key
crypto_box-secretbox pc pm pn py px d c msg n y x = refl

crypto_box_open-secretbox :
    (pc pm pn py px d : ℕ) (c msg n y x : List ℕ)
    → crypto_box_open (at pm msg) (at pc c) d (at pn n) (at py y) (at px x)
      ≡ crypto_secretbox_open (at pm msg) (at pc c) d (at pn n) (at 0 (shared_key x y))
unfolding crypto_box_open crypto_box_beforenm crypto_box_open_afternm crypto_scalarmult shared_key
crypto_box_open-secretbox pc pm pn py px d c msg n y x = refl

-- Let the scalar multiplications of a party with secret `x` and of one with secret `x'`, each on the
-- other's public key, give the same bytes. Then for a message of `d` bytes, from 32 to 256 MiB, with
-- its 32 zero bytes in front, and buffers that do not coincide, `crypto_box` of the first returns 0,
-- and `crypto_box_open` of the second on what it left, with the same nonce, returns 0 and writes the
-- message in the first `d` bytes of its output; what follows there stays.
pub crypto_box_round :
    (d : ℕ) (msg n x y x' y' : List ℕ) (pc pm pd pn py px : ℕ) (buf buf2 : List ℕ)
    → scalarmult_bytes x y ≡ scalarmult_bytes x' y'
    → 32 ≤ d
    → d ≤ max_message
    → d ≤ length msg
    → take 32 msg ≡ replicate 32 0
    → IsBytes msg
    → pm ≢ pc
    → pc ≢ pd
    → IsBytes buf
    → let box = crypto_box (at pc buf) (at pm msg) d (at pn n) (at py y) (at px x) in
      (box.status ≡ ok)
      × (crypto_box_open (at pd buf2) (at pc box.out) d (at pn n) (at py y') (at px x')
          ≡ record { status = ok; out = write_at 0 (take d msg) buf2 })
crypto_box_round d msg n x y x' y' pc pm pd pn py px buf buf2 agree long short fits padded bytes
      apart apart' hb =
    let same : shared_key x' y' ≡ shared_key x y = unfold shared_key in rw agree refl in
    let sealed = crypto_box-secretbox pc pm pn py px d buf msg n y x in
    let box = crypto_secretbox (at pc buf) (at pm msg) d (at pn n) (at 0 (shared_key x y)) in
    let round =
      crypto_secretbox_round d msg n (shared_key x y) long short fits padded bytes pc pm pd pn 0 buf
        buf2 apart apart' hb in
    subst
      (λ (b : Call).
        (b.status ≡ ok)
        × (crypto_box_open (at pd buf2) (at pc b.out) d (at pn n) (at py y') (at px x')
            ≡ record { status = ok; out = write_at 0 (take d msg) buf2 }))
      (sym sealed)
      (
        round.0,
        crypto_box_open-secretbox pc pd pn py px d box.out buf2 n y' x'
            ∙ ap (λ k. crypto_secretbox_open (at pd buf2) (at pc box.out) d (at pn n) (at 0 k)) same
            ∙ round.1,
      )
