-- ===== src/Secretbox/Errors.antt =====
-- What the secret box functions do on arguments that they cannot work on.
use tweetnacl_modular.Base.{
  ℕ, ◌+◌, ◌-◌, ◌^◌, ◌<◌, ◌≤◌, ◌≡◌, ◌⊎◌, refl, ap, sym, ◌∙◌, arith, ◌||◌, true, le→ltb, lt→ltb,
  if◌then◌else◌, Bool, false, ==_iff, drop-append, drop-drop, List, ◌++◌, length, All-drop, take,
  drop, length-drop, length-take, inl, inr,
}
use tweetnacl_modular.Base.Int.{ok, failed}
use tweetnacl_modular.Memory.{Ptr, at, is_null, contents, Call}
use tweetnacl_modular.Bytes.{IsBytes}
use tweetnacl_modular.Stream.{max_message, crypto_stream_xor, subkey}
use tweetnacl_modular.Stream.Cipher.{crypto_stream_salsa20_xor_rejects}
use tweetnacl_modular.Poly.{tag, crypto_onetimeauth}
use tweetnacl_modular.Poly.Tag.{tag-poly1305, length-poly1305}
use tweetnacl_modular.Secretbox.{crypto_secretbox, crypto_secretbox_open}

-- A test whose branches agree does not count.
if_same : (b : Bool) (x : Call) → (if b then x else x) ≡ x
if_same true x = refl
if_same false x = refl

either_order : (a b rest : Bool) → (a || (b || rest)) ≡ (b || (a || rest))
either_order true true rest = refl
either_order true false rest = refl
either_order false true rest = refl
either_order false false rest = refl

-- A NULL argument, or a length below 32, makes both functions return -1 and leave their output
-- alone.
pub crypto_secretbox_rejects :
    (c m : Ptr) (d : ℕ) (n k : Ptr)
    → (is_null c || (is_null m || (is_null n || is_null k)) ≡ true) ⊎ (d < 32)
    → (crypto_secretbox c m d n k ≡ record { status = failed; out = contents c })
      × (crypto_secretbox_open m c d n k ≡ record { status = failed; out = contents m })
unfolding crypto_secretbox crypto_secretbox_open
crypto_secretbox_rejects c m d n k why = elim why [
  | inl missing ↦
      rw (missing, either_order (is_null m) (is_null c) (is_null n || is_null k) ∙ missing)
        (refl, refl)
  | inr short ↦ rw (lt→ltb d 32 short) (
    if_same (is_null c || (is_null m || (is_null n || is_null k))) _,
    if_same (is_null m || (is_null c || (is_null n || is_null k))) _,
  )
]

untouched :
    (d p pm pn pk : ℕ) (buf msg n k : List ℕ)
    → 32 ≤ d
    → (max_message < d) ⊎ (pm ≡ p)
    → (crypto_stream_xor (at p buf) (at pm msg) d (at pn n) (at pk k)).out ≡ buf
unfolding crypto_stream_xor subkey
untouched d p pm pn pk buf msg n k long why =
    ap (λ call. call.out)
      (crypto_stream_salsa20_xor_rejects (at p buf) (at pm msg) d (at (pn + 16) (drop 16 n))
        (subkey (at pn n) (at pk k)) (omega arith)
        (elim why [ inl l ↦ inl l | inr e ↦ inr ((==_iff pm p).1 e) ]))

-- `crypto_secretbox` does not look at what `crypto_stream_xor` returns: on more than 256 MiB, or
-- with the message in the output buffer, it returns 0 and leaves what follows the first 32 bytes
-- of the buffer as it was.
pub crypto_secretbox_unencrypted :
    (d p pm pn pk : ℕ) (buf msg n k : List ℕ)
    → 32 ≤ d
    → d ≤ length buf
    → IsBytes buf
    → (max_message < d) ⊎ (pm ≡ p)
    → let box = crypto_secretbox (at p buf) (at pm msg) d (at pn n) (at pk k) in
      (box.status ≡ ok) × (drop 32 box.out ≡ drop 32 buf)
unfolding crypto_secretbox crypto_onetimeauth
crypto_secretbox_unencrypted d p pm pn pk buf msg n k long fits hb why =
    rw (le→ltb d 32 long, untouched d p pm pn pk buf msg n k long why) (refl, below)
  where
    t : List ℕ
    t = tag (drop 32 buf) (d - 32) buf

    size : length t ≡ 16
    size =
        ap length (
          tag-poly1305 (drop 32 buf) (d - 32) buf (All-drop (λ b. b < 2 ^ 8) 32 buf hb)
            (omega (arith, length-drop 32 buf)) hb (omega arith))
        ∙ length-poly1305 (take (d - 32) (drop 32 buf)) buf

    rest : List ℕ
    rest = drop (0 + length t) (drop 16 buf)

    below : drop 16 (drop 16 (take 16 buf ++ (t ++ rest))) ≡ drop 32 buf
    below =
        ap (drop 16) (drop-append 16 (take 16 buf) (t ++ rest) (omega (arith, length-take 16 buf)))
        ∙ drop-append 16 t rest (sym size)
        ∙ drop-drop (0 + length t) 16 32 buf (omega (arith, size))
