-- ===== src/Poly/Authentic.antt =====
-- `crypto_onetimeauth` writes the Poly1305 tag, and `crypto_onetimeauth_verify` tells it apart.
use tweetnacl_modular.Base.{ℕ, ◌≤◌, ◌≡◌, ◌≢◌, ◌⊎◌, ap, arith, List, take, take_all, length}
use tweetnacl_modular.Base.Int.{ok, failed}
use tweetnacl_modular.Memory.{at, write_at}
use tweetnacl_modular.Bytes.{IsBytes}
use tweetnacl_modular.Verify.{crypto_verify_16}
use tweetnacl_modular.Verify.Equal.{vn_lem}
use tweetnacl_modular.Poly.{crypto_onetimeauth, crypto_onetimeauth_verify}
use tweetnacl_modular.Poly.Reference.{poly1305}
use tweetnacl_modular.Poly.Tag.{tag-poly1305, length-poly1305, poly1305-IsBytes}

module _ (m k : List ℕ) (n : ℕ) (hm : IsBytes m) (fits : n ≤ length m) (hk : IsBytes k)
    (long : 32 ≤ length k) where
  -- For `n` bytes of a message and a key of at least 32 bytes, `crypto_onetimeauth` returns 0 and
  -- writes the tag of RFC 8439 in the first 16 bytes of `out`.
  pub crypto_onetimeauth-poly1305 :
      (po pm pk : ℕ) (buf : List ℕ)
      → crypto_onetimeauth (at po buf) (at pm m) n (at pk k)
        ≡ record { status = ok; out = write_at 0 (poly1305 (take n m) k) buf }
  unfolding crypto_onetimeauth
  crypto_onetimeauth-poly1305 po pm pk buf =
      ap (λ t. record { status = ok; out = write_at 0 t buf }) (tag-poly1305 m n k hm fits hk long)

  -- For `n` bytes of a message and a key of at least 32 bytes, `crypto_onetimeauth_verify` returns
  -- 0 when the first 16 bytes of `h` are the tag of RFC 8439, and -1 when they are not.
  pub crypto_onetimeauth_verify_cases :
      (ph pm pk : ℕ) (h : List ℕ)
      → IsBytes h
      → 16 ≤ length h
      → let result = crypto_onetimeauth_verify (at ph h) (at pm m) n (at pk k) in
        ((take 16 h ≡ poly1305 (take n m) k) × (result ≡ ok))
        ⊎ ((take 16 h ≢ poly1305 (take n m) k) × (result ≡ failed))
  unfolding crypto_onetimeauth_verify crypto_verify_16
  crypto_onetimeauth_verify_cases ph pm pk h hh wide =
      let t = poly1305 (take n m) k in
      let whole : take 16 t ≡ t = take_all 16 t (omega (arith, length-poly1305 (take n m) k)) in
      rw (tag-poly1305 m n k hm fits hk long) (
        rw whole at (
          vn_lem 16 h t hh (poly1305-IsBytes (take n m) k) wide
            (omega (arith, length-poly1305 (take n m) k))))
