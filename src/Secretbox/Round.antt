-- ===== src/Secretbox/Round.antt =====
-- `crypto_secretbox_open` undoes `crypto_secretbox`.
use tweetnacl_modular.Base.{
  ℕ, ◌+◌, ◌-◌, ◌^◌, ◌<◌, ◌≤◌, ◌≡◌, ◌≢◌, inl, inr, refl, ap, sym, ◌∙◌, arith, List, ◌++◌, length,
  All-append, All-drop, take, drop, replicate, take-append, drop-append, drop-append_le, drop-drop,
  append_assoc, take_split, length-append, length-drop, length-take,
}
use tweetnacl_modular.Base.Int.{ok}
use tweetnacl_modular.Memory.{at, write_at}
use tweetnacl_modular.Bytes.{IsBytes}
use tweetnacl_modular.Stream.{xor_bytes, max_message}
use tweetnacl_modular.Stream.Cipher.{xpad, length-xor_bytes, xor_bytes_twice}
use tweetnacl_modular.Poly.Reference.{poly1305}
use tweetnacl_modular.Poly.Tag.{length-poly1305, poly1305-IsBytes}
use tweetnacl_modular.Secretbox.{crypto_secretbox, crypto_secretbox_open}
use tweetnacl_modular.Secretbox.Reference.{seal, stream_of, one_time_key, stored_tag, right_tag}
use tweetnacl_modular.Secretbox.Pad.{drop-xor_bytes}
use tweetnacl_modular.Secretbox.Seal.{
  length-seal, length-stream_of, stream_of-IsBytes, seal_parts, crypto_secretbox-seal,
}
use tweetnacl_modular.Secretbox.Open.{crypto_secretbox_open_cases}

-- What a box decrypts to, after its padding.
drop-stream_of-seal :
    (d : ℕ) (msg n k r : List ℕ)
    → 32 ≤ d
    → d ≤ length msg
    → drop 32 (seal d msg n k) ≡ drop 32 (stream_of d msg n k)
    → length (seal d msg n k) ≡ d
    → drop 32 (stream_of d (seal d msg n k ++ r) n k) ≡ take (d - 32) (drop 32 msg)
unfolding stream_of
drop-stream_of-seal d msg n k r long fits same count =
    let x = xpad d n k in
    let parts : d ≡ 32 + (d - 32) = omega arith in
    drop-xor_bytes 32 (d - 32) d 0 (seal d msg n k ++ r) x parts
    ∙ ap (λ t. xor_bytes (d - 32) 0 (at 0 t) (drop 32 x))
        (drop-append_le 32 (seal d msg n k) r (omega arith)
          ∙ ap (λ t. t ++ r) (same ∙ drop-xor_bytes 32 (d - 32) d 0 msg x parts))
    ∙ xor_bytes_twice (d - 32) 0 0 (drop 32 msg) r (drop 32 x) (omega (arith, length-drop 32 msg))

module _ (d : ℕ) (msg n k : List ℕ) (long : 32 ≤ d) (short : d ≤ max_message)
    (fits : d ≤ length msg) (padded : take 32 msg ≡ replicate 32 0) (bytes : IsBytes msg) where
  tail_seal :
      drop 16 (seal d msg n k)
      ≡ poly1305 (drop 32 (stream_of d msg n k)) (one_time_key n k) ++ drop 32 (stream_of d msg n k)
  tail_seal = rw (seal_parts d msg n k long fits padded bytes) refl

  count_seal : length (seal d msg n k) ≡ d
  count_seal = length-seal d msg n k long fits padded bytes

  hidden_seal : drop 32 (seal d msg n k) ≡ drop 32 (stream_of d msg n k)
  hidden_seal =
      let t = poly1305 (drop 32 (stream_of d msg n k)) (one_time_key n k) in
      let size = length-poly1305 (drop 32 (stream_of d msg n k)) (one_time_key n k) in
      sym (drop-drop 16 16 32 (seal d msg n k) refl)
      ∙ ap (drop 16) tail_seal
      ∙ drop-append 16 t (drop 32 (stream_of d msg n k)) (sym size)

  seal-right_tag :
      (r : List ℕ) → stored_tag (seal d msg n k ++ r) ≡ right_tag d (seal d msg n k ++ r) n k
  unfolding right_tag
  seal-right_tag r =
      let h = drop 32 (stream_of d msg n k) in
      let t = poly1305 h (one_time_key n k) in
      let size = length-poly1305 h (one_time_key n k) in
      let stored : stored_tag (seal d msg n k ++ r) ≡ t =
        ap (take 16) (
          drop-append_le 16 (seal d msg n k) r (omega (arith, count_seal))
          ∙ ap (λ u. u ++ r) tail_seal
          ∙ append_assoc t h r)
        ∙ take-append 16 t (h ++ r) (sym size) in
      let rest : take (d - 32) (drop 32 (seal d msg n k ++ r)) ≡ h =
        ap (take (d - 32)) (
          drop-append_le 32 (seal d msg n k) r (omega (arith, count_seal))
          ∙ ap (λ u. u ++ r) hidden_seal)
        ∙ take-append (d - 32) h r (
            omega (
              arith,
              length-drop 32 (stream_of d msg n k),
              length-stream_of d msg n k long fits padded bytes,
            )) in
      stored ∙ sym (ap (λ u. poly1305 u (one_time_key n k)) rest)

  seal-IsBytes : IsBytes (seal d msg n k)
  seal-IsBytes = rw (seal_parts d msg n k long fits padded bytes) (
      All-append (λ b. b < 2 ^ 8) (replicate 16 0) _ (ground arith)
        (All-append (λ b. b < 2 ^ 8) _ _
          (poly1305-IsBytes (drop 32 (stream_of d msg n k)) (one_time_key n k))
          (All-drop (λ b. b < 2 ^ 8) 32 (stream_of d msg n k)
            (stream_of-IsBytes d msg n k long fits padded bytes))))

  -- What the second call leaves is the message.
  opened_lem :
      (r buf2 : List ℕ)
      → write_at 0 (replicate 32 0) (write_at 0 (stream_of d (seal d msg n k ++ r) n k) buf2)
        ≡ write_at 0 (take d msg) buf2
  opened_lem r buf2 =
      let y = stream_of d (seal d msg n k ++ r) n k in
      let size : length y ≡ d =
        unfold stream_of in length-xor_bytes d 0 (at 0 (seal d msg n k ++ r)) (xpad d n k) in
      let same : 0 + length y ≡ 0 + length (take d msg) = omega (arith, size, length-take d msg) in
      let whole : take d msg ≡ replicate 32 0 ++ take (d - 32) (drop 32 msg) =
        take_split 32 (d - 32) d msg (omega arith)
        ∙ ap (λ u. u ++ take (d - 32) (drop 32 msg)) padded in
      ap (λ u. replicate 32 0 ++ u)
        (drop-append_le 32 y (drop (0 + length y) buf2) (omega (arith, size))
          ∙ ap (λ u. u ++ drop (0 + length y) buf2)
              (drop-stream_of-seal d msg n k r long fits hidden_seal count_seal))
      ∙ ap (λ q. (replicate 32 0 ++ take (d - 32) (drop 32 msg)) ++ drop q buf2) same
      ∙ ap (λ u. u ++ drop (0 + length (take d msg)) buf2) (sym whole)

  -- For a message of `d` bytes, from 32 to 256 MiB, with its 32 zero bytes in front, and buffers
  -- that do not coincide, `crypto_secretbox` returns 0, and `crypto_secretbox_open` of what it
  -- left in `c`, under the same nonce and key, returns 0 and writes the message in the first `d`
  -- bytes of its output; what follows there stays.
  pub crypto_secretbox_round :
      (pc pm pd pn pk : ℕ) (buf buf2 : List ℕ)
      → pm ≢ pc
      → pc ≢ pd
      → IsBytes buf
      → let box = crypto_secretbox (at pc buf) (at pm msg) d (at pn n) (at pk k) in
        (box.status ≡ ok)
        × (crypto_secretbox_open (at pd buf2) (at pc box.out) d (at pn n) (at pk k)
            ≡ record { status = ok; out = write_at 0 (take d msg) buf2 })
  crypto_secretbox_round pc pm pd pn pk buf buf2 apart apart' hb =
      let r = drop (0 + length (seal d msg n k)) buf in
      let sealed =
        crypto_secretbox-seal d msg n k long fits padded bytes pc pm pn pk buf apart short hb in
      let box_bytes =
        All-append (λ b. b < 2 ^ 8) (seal d msg n k) r seal-IsBytes
          (All-drop (λ b. b < 2 ^ 8) (0 + length (seal d msg n k)) buf hb) in
      let room : d ≤ length (seal d msg n k ++ r) =
        omega (arith, length-append (seal d msg n k) r, count_seal) in
      let cases =
        crypto_secretbox_open_cases d (seal d msg n k ++ r) n k pd pc pn pk buf2 apart' long short
          room box_bytes in
      rw sealed (
        refl,
        elim cases [
          | inl (right, opens) ↦
              opens ∙ ap (λ t. record { status = ok; out = t }) (opened_lem r buf2)
          | inr (wrong, fails) ↦ absurd (wrong (seal-right_tag r))
        ],
      )
