-- ===== src/Secretbox/Open.antt =====
-- `crypto_secretbox_open` accepts the boxes with the right tag, and opens what was sealed.
use tweetnacl_modular.Base.{
  ℕ, ◌+◌, ◌-◌, ◌^◌, ◌<◌, ◌≤◌, ◌≡◌, ◌≢◌, ◌⊎◌, inl, inr, refl, ap, ◌∙◌, arith, le→ltb, List, ◌++◌,
  length, All-drop, All-take, take, drop, replicate, take_all, append-nil, length-drop, length-take,
}
use tweetnacl_modular.Base.Int.{ℤ, ok, failed}
use tweetnacl_modular.Memory.{null, at, contents, write_at}
use tweetnacl_modular.Bytes.{IsBytes}
use tweetnacl_modular.Verify.{crypto_verify_16}
use tweetnacl_modular.Verify.Equal.{vn_lem}
use tweetnacl_modular.Stream.{xor_bytes, max_message, crypto_stream, crypto_stream_salsa20, subkey}
use tweetnacl_modular.Stream.Cipher.{xpad, length-xor_bytes, crypto_stream_salsa20_xor-pad}
use tweetnacl_modular.Salsa.{crypto_core_hsalsa20, sigma}
use tweetnacl_modular.Poly.{tag, crypto_onetimeauth_verify}
use tweetnacl_modular.Poly.Tag.{tag-poly1305, length-poly1305, poly1305-IsBytes}
use tweetnacl_modular.Secretbox.{box_key, crypto_secretbox_open}
use tweetnacl_modular.Secretbox.Reference.{stream_of, one_time_key, stored_tag, right_tag}
use tweetnacl_modular.Secretbox.Pad.{xpad-IsBytes, length-xpad, xor_bytes-null}
use tweetnacl_modular.Secretbox.Seal.{crypto_stream_xor-stream_of}

length-one_time_key : (n k : List ℕ) → length (one_time_key n k) ≡ 32
unfolding one_time_key
length-one_time_key n k = omega (arith, length-take 32 (xpad 32 n k), length-xpad 32 n k)

one_time_key-IsBytes : (n k : List ℕ) → IsBytes (one_time_key n k)
unfolding one_time_key
one_time_key-IsBytes n k = All-take (λ b. b < 2 ^ 8) 32 (xpad 32 n k) (xpad-IsBytes 32 n k)

-- The local array holds the one-time key.
box_key-one_time_key :
    (pn pk : ℕ) (n k : List ℕ) → contents (box_key (at pn n) (at pk k)) ≡ one_time_key n k
unfolding box_key crypto_stream crypto_stream_salsa20 subkey xpad one_time_key
box_key-one_time_key pn pk n k =
    let local = at 0 (crypto_core_hsalsa20 n k sigma) in
    let stream = xpad 32 n k in
    let count : 0 + length (xor_bytes 32 0 null (xpad 32 n k)) ≡ 32 =
      omega (arith, length-xor_bytes 32 0 null (xpad 32 n k)) in
    let called =
      crypto_stream_salsa20_xor-pad (at 0 (replicate 32 0)) null 32 (at (pn + 16) (drop 16 n)) local
        (record {
          short = omega arith;
          c_there = refl;
          n_there = refl;
          k_there = refl;
          apart = refl;
        }) in
    ap (λ call. call.out) called
    ∙ ap (λ q. xor_bytes 32 0 null (xpad 32 n k) ++ drop q (replicate 32 0)) count
    ∙ append-nil (xor_bytes 32 0 null (xpad 32 n k))
    ∙ xor_bytes-null 32 (xpad 32 n k) (length-xpad 32 n k)

module _ (d : ℕ) (cs n k : List ℕ) (pm pc pn pk : ℕ) (buf : List ℕ) (apart : pc ≢ pm)
    (long : 32 ≤ d) (short : d ≤ max_message) (fits : d ≤ length cs) (bytes : IsBytes cs) where
  -- The tag that the code compares with.
  tag-right_tag :
      tag (drop 32 cs) (d - 32) (contents (box_key (at pn n) (at pk k))) ≡ right_tag d cs n k
  unfolding right_tag
  tag-right_tag =
      ap (tag (drop 32 cs) (d - 32)) (box_key-one_time_key pn pk n k)
      ∙ tag-poly1305 (drop 32 cs) (d - 32) (one_time_key n k)
          (All-drop (λ b. b < 2 ^ 8) 32 cs bytes) (omega (arith, length-drop 32 cs))
          (one_time_key-IsBytes n k) (omega (arith, length-one_time_key n k))

  abbrev checked : ℤ
  checked =
      crypto_onetimeauth_verify (at (pc + 16) (drop 16 cs)) (at (pc + 32) (drop 32 cs)) (d - 32)
        (box_key (at pn n) (at pk k))

  checked_lem :
      ((stored_tag cs ≡ right_tag d cs n k) × (checked ≡ ok))
      ⊎ ((stored_tag cs ≢ right_tag d cs n k) × (checked ≡ failed))
  unfolding crypto_onetimeauth_verify crypto_verify_16 right_tag box_key
  checked_lem =
      let t = right_tag d cs n k in
      let count : length t ≡ 16 = length-poly1305 (take (d - 32) (drop 32 cs)) (one_time_key n k) in
      let whole : take 16 t ≡ t = take_all 16 t (omega arith) in
      rw tag-right_tag (
        rw whole at (
          vn_lem 16 (drop 16 cs) t (All-drop (λ b. b < 2 ^ 8) 16 cs bytes)
            (poly1305-IsBytes (take (d - 32) (drop 32 cs)) (one_time_key n k))
            (omega (arith, length-drop 16 cs)) (omega arith)))

  -- On a box of `d` bytes, from 32 to 256 MiB, that lies apart from the output,
  -- `crypto_secretbox_open` compares the tag in the box with Poly1305 of the rest under the
  -- one-time key. If they are equal it returns 0 and writes the decrypted bytes, the first 32 as
  -- zeros; if they differ it returns -1 and the output stays.
  pub crypto_secretbox_open_cases :
      let opened = crypto_secretbox_open (at pm buf) (at pc cs) d (at pn n) (at pk k) in
      ((stored_tag cs ≡ right_tag d cs n k)
        × (opened ≡ record {
          status = ok;
          out = write_at 0 (replicate 32 0) (write_at 0 (stream_of d cs n k) buf);
        }))
      ⊎ ((stored_tag cs ≢ right_tag d cs n k) × (opened ≡ record { status = failed; out = buf }))
  unfolding crypto_secretbox_open
  crypto_secretbox_open_cases = elim checked_lem [
    | inl (right, passes) ↦ inl (
      right,
      rw (le→ltb d 32 long, passes)
          (ap (λ t. record { status = ok; out = write_at 0 (replicate 32 0) t })
            (crypto_stream_xor-stream_of pm pc pn pk d buf cs n k apart short)),
    )
    | inr (wrong, fails) ↦ inr (wrong, rw (le→ltb d 32 long, fails) refl)
  ]
