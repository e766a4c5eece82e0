-- ===== src/Secretbox/Seal.antt =====
-- `crypto_secretbox` seals a padded message.
use tweetnacl_modular.Base.{
  ℕ, ◌+◌, ◌-◌, ◌^◌, ◌<◌, ◌≤◌, ◌≡◌, ◌≢◌, refl, ap, sym, ◌∙◌, arith, le→ltb, List, ◌++◌, length,
  All-append, All-drop, take, drop, replicate, take-append, drop-append, take-append_le,
  drop-append_le, drop-drop, append_assoc, length-append, length-drop, length-take,
}
use tweetnacl_modular.Base.Int.{ok}
use tweetnacl_modular.Memory.{at, write_at}
use tweetnacl_modular.Bytes.{IsBytes}
use tweetnacl_modular.Stream.{max_message, crypto_stream_xor}
use tweetnacl_modular.Stream.Cipher.{xpad, length-xor_bytes, crypto_stream_xor-xpad}
use tweetnacl_modular.Poly.{tag, crypto_onetimeauth}
use tweetnacl_modular.Poly.Reference.{poly1305}
use tweetnacl_modular.Poly.Tag.{tag-poly1305, length-poly1305, poly1305-take}
use tweetnacl_modular.Secretbox.{crypto_secretbox}
use tweetnacl_modular.Secretbox.Reference.{seal, stream_of, one_time_key}
use tweetnacl_modular.Secretbox.Pad.{
  xpad-IsBytes, length-xpad, take-xpad, xor_bytes-IsBytes, xor_bytes-address, take-xor_bytes,
}

-- How the pieces lie in the buffer after the last loop.
layout :
    (s r t : List ℕ)
    → length t ≡ 16
    → 32 ≤ length s
    → write_at 0 (replicate 16 0) (take 16 (s ++ r) ++ write_at 0 t (drop 16 (s ++ r)))
      ≡ (replicate 16 0 ++ (t ++ drop 32 s)) ++ r
layout s r t ht hs =
    let front : 16 ≡ length (take 16 (s ++ r)) =
      omega (arith, length-take 16 (s ++ r), length-append s r) in
    ap (λ u. replicate 16 0 ++ u)
      (drop-append 16 (take 16 (s ++ r)) (t ++ drop (0 + length t) (drop 16 (s ++ r))) front
        ∙ ap (λ u. t ++ u)
            (drop-drop (0 + length t) 16 32 (s ++ r) (omega arith) ∙ drop-append_le 32 s r hs)
        ∙ sym (append_assoc t (drop 32 s) r))
    ∙ sym (append_assoc (replicate 16 0) (t ++ drop 32 s) r)

pub crypto_stream_xor-stream_of :
    (pc pm pn pk d : ℕ) (buf msg n k : List ℕ)
    → pm ≢ pc
    → d ≤ max_message
    → (crypto_stream_xor (at pc buf) (at pm msg) d (at pn n) (at pk k)).out
      ≡ write_at 0 (stream_of d msg n k) buf
unfolding stream_of
crypto_stream_xor-stream_of pc pm pn pk d buf msg n k apart short =
    ap (λ call. call.out) (crypto_stream_xor-xpad pc pm pn pk d buf msg n k apart short)
    ∙ ap (λ t. write_at 0 t buf) (xor_bytes-address d 0 pm 0 msg (xpad d n k))

module _ (d : ℕ) (msg n k : List ℕ) (long : 32 ≤ d) (fits : d ≤ length msg)
    (padded : take 32 msg ≡ replicate 32 0) (bytes : IsBytes msg) where
  pub length-stream_of : length (stream_of d msg n k) ≡ d
  unfolding stream_of
  length-stream_of = length-xor_bytes d 0 (at 0 msg) (xpad d n k)

  pub stream_of-IsBytes : IsBytes (stream_of d msg n k)
  unfolding stream_of
  stream_of-IsBytes = xor_bytes-IsBytes d 0 0 msg (xpad d n k) bytes (xpad-IsBytes d n k)

  pub take-stream_of : take 32 (stream_of d msg n k) ≡ one_time_key n k
  unfolding stream_of
  take-stream_of =
      take-xor_bytes 32 d 0 msg (xpad d n k) long (omega (arith, length-xpad d n k)) padded
      ∙ take-xpad d n k

  -- The tag that the code computes over the buffer, with what follows in it.
  tag_lem :
      (r : List ℕ)
      → IsBytes r
      → let whole = stream_of d msg n k ++ r in
        tag (drop 32 whole) (d - 32) whole
        ≡ poly1305 (drop 32 (stream_of d msg n k)) (one_time_key n k)
  tag_lem r hr =
      let s = stream_of d msg n k in
      let whole_bytes = All-append (λ b. b < 2 ^ 8) s r stream_of-IsBytes hr in
      let count : length (s ++ r) ≡ d + length r =
        omega (arith, length-append s r, length-stream_of) in
      let behind : take (d - 32) (drop 32 (s ++ r)) ≡ drop 32 s =
        ap (take (d - 32)) (drop-append_le 32 s r (omega (arith, length-stream_of)))
        ∙ take-append (d - 32) (drop 32 s) r (omega (arith, length-drop 32 s, length-stream_of)) in
      let key : take 32 (s ++ r) ≡ one_time_key n k =
        take-append_le 32 s r (omega (arith, length-stream_of)) ∙ take-stream_of in
      tag-poly1305 (drop 32 (s ++ r)) (d - 32) (s ++ r)
        (All-drop (λ b. b < 2 ^ 8) 32 (s ++ r) whole_bytes)
        (omega (arith, length-drop 32 (s ++ r), count)) whole_bytes (omega arith)
      ∙ ap (λ t. poly1305 t (s ++ r)) behind
      ∙ poly1305-take (drop 32 s) (s ++ r)
      ∙ ap (poly1305 (drop 32 s)) key

  pub length-seal : length (seal d msg n k) ≡ d
  unfolding seal
  length-seal =
      let hidden = drop 32 (stream_of d msg n k) in
      omega (
        arith,
        length-append (replicate 16 0) (poly1305 hidden (one_time_key n k) ++ hidden),
        length-append (poly1305 hidden (one_time_key n k)) hidden,
        length-poly1305 hidden (one_time_key n k),
        length-drop 32 (stream_of d msg n k),
        length-stream_of,
      )

  pub seal_parts :
      seal d msg n k
      ≡ replicate 16 0
        ++ (poly1305 (drop 32 (stream_of d msg n k)) (one_time_key n k)
            ++ drop 32 (stream_of d msg n k))
  unfolding seal
  seal_parts = refl

  abbrev sealed : List ℕ → List ℕ
  sealed r =
      let s = stream_of d msg n k in
      write_at 0 (replicate 16 0) (
        take 16 (s ++ r)
        ++ write_at 0 (tag (drop 32 (s ++ r)) (d - 32) (s ++ r)) (drop 16 (s ++ r)))

  sealed_lem : (buf : List ℕ) → IsBytes buf → sealed (drop d buf) ≡ write_at 0 (seal d msg n k) buf
  sealed_lem buf hb =
      let s = stream_of d msg n k in
      let r = drop d buf in
      let t = poly1305 (drop 32 s) (one_time_key n k) in
      let rest : d ≡ 0 + length (seal d msg n k) = omega (arith, length-seal) in
      ap (λ u. write_at 0 (replicate 16 0) (take 16 (s ++ r) ++ write_at 0 u (drop 16 (s ++ r))))
        (tag_lem r (All-drop (λ b. b < 2 ^ 8) d buf hb))
      ∙ layout s r t (length-poly1305 (drop 32 s) (one_time_key n k))
          (omega (arith, length-stream_of))
      ∙ ap (λ u. u ++ r) (sym seal_parts)
      ∙ ap (λ q. seal d msg n k ++ drop q buf) rest

  streamed :
      (pc pm pn pk : ℕ) (buf : List ℕ)
      → pm ≢ pc
      → d ≤ max_message
      → (crypto_stream_xor (at pc buf) (at pm msg) d (at pn n) (at pk k)).out
        ≡ stream_of d msg n k ++ drop d buf
  streamed pc pm pn pk buf apart short =
      let size : 0 + length (stream_of d msg n k) ≡ d = omega (arith, length-stream_of) in
      crypto_stream_xor-stream_of pc pm pn pk d buf msg n k apart short
      ∙ ap (λ q. stream_of d msg n k ++ drop q buf) size

  -- For a message of `d` bytes, 32 at least, with its 32 zero bytes in front, at most 256 MiB, in a buffer of
  -- its own, `crypto_secretbox` returns 0 and leaves the NaCl box of the message in the first `d`
  -- bytes of `c`; what follows in `c` stays.
  pub crypto_secretbox-seal :
      (pc pm pn pk : ℕ) (buf : List ℕ)
      → pm ≢ pc
      → d ≤ max_message
      → IsBytes buf
      → crypto_secretbox (at pc buf) (at pm msg) d (at pn n) (at pk k)
        ≡ record { status = ok; out = write_at 0 (seal d msg n k) buf }
  unfolding crypto_secretbox crypto_onetimeauth
  crypto_secretbox-seal pc pm pn pk buf apart short buf_bytes =
      rw (le→ltb d 32 long, streamed pc pm pn pk buf apart short)
        (ap (λ t. record { status = ok; out = t }) (sealed_lem buf buf_bytes))
