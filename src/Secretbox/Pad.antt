-- ===== src/Secretbox/Pad.antt =====
-- The keystream of a box: its bytes, and its first 32 as the one-time key.
use tweetnacl_modular.Base.{
  ℕ, zero, suc, ◌+◌, ◌*◌, ◌/◌, ◌^◌, ◌<◌, ◌≤◌, ◌≡◌, refl, ap, ap₂, sym, ◌∙◌, arith, bit_xor, List,
  [], ◌∷◌, ◌++◌, length, All-get_or, All-append, take, drop, replicate, get_or, length-append,
  take-append_le, drop-drop,
}
use tweetnacl_modular.Bits.{bit_xor-lt, zero-bit_xor}
use tweetnacl_modular.Memory.{null, at}
use tweetnacl_modular.Bytes.{IsBytes, st32}
use tweetnacl_modular.Bytes.Little.{st32-IsBytes}
use tweetnacl_modular.Bytes.Value.{le_bytes}
use tweetnacl_modular.Salsa.{crypto_core_hsalsa20, sigma}
use tweetnacl_modular.Salsa.Reference.{salsa20, words_bytes}
use tweetnacl_modular.Stream.{xor_bytes}
use tweetnacl_modular.Stream.Keystream.{keystream, length-salsa20, xor_bytes-suc}
use tweetnacl_modular.Stream.Cipher.{xpad, pad, nonce_of}
use tweetnacl_modular.Secretbox.Reference.{one_time_key}

words_bytes-IsBytes : (ws : List ℕ) → IsBytes (words_bytes ws)
words_bytes-IsBytes [] = tt
words_bytes-IsBytes (w ∷ ws) =
    All-append (λ b. b < 2 ^ 8) (st32 w) (words_bytes ws) (st32-IsBytes w) (words_bytes-IsBytes ws)

salsa20-IsBytes : (inp k c : List ℕ) → IsBytes (salsa20 inp k c)
unfolding salsa20
salsa20-IsBytes inp k c = words_bytes-IsBytes _

keystream-IsBytes :
    (count : ℕ) (nonce : List ℕ) (j : ℕ) (k : List ℕ) → IsBytes (keystream count nonce j k)
unfolding keystream
keystream-IsBytes zero nonce j k = tt
keystream-IsBytes (suc count) nonce j k =
    All-append (λ b. b < 2 ^ 8) _ _ (salsa20-IsBytes (nonce ++ le_bytes 8 j) k sigma)
      (keystream-IsBytes count nonce (j + 1) k)

pub xpad-IsBytes : (b : ℕ) (n k : List ℕ) → IsBytes (xpad b n k)
unfolding xpad pad
xpad-IsBytes b n k = keystream-IsBytes (b / 64 + 1) _ 0 _

pub xor_bytes-IsBytes :
    (b i p : ℕ) (m x : List ℕ) → IsBytes m → IsBytes x → IsBytes (xor_bytes b i (at p m) x)
unfolding xor_bytes
xor_bytes-IsBytes zero i p m x hm hx = tt
xor_bytes-IsBytes (suc b) i p m x hm hx = (
  bit_xor-lt 8 (get_or m i 0) (get_or x i 0) (All-get_or (λ b. b < 2 ^ 8) m i 0 (omega arith) hm)
      (All-get_or (λ b. b < 2 ^ 8) x i 0 (omega arith) hx),
  xor_bytes-IsBytes b (suc i) p m x hm hx,
)

-- Only the bytes of the buffer count, not its address.
pub xor_bytes-address :
    (b i p q : ℕ) (m x : List ℕ) → xor_bytes b i (at p m) x ≡ xor_bytes b i (at q m) x
unfolding xor_bytes
xor_bytes-address zero i p q m x = refl
xor_bytes-address (suc b) i p q m x =
    ap (◌∷◌ (bit_xor (get_or m i 0) (get_or x i 0))) (xor_bytes-address b (suc i) p q m x)

-- Zeros, or a NULL message, leave the keystream.
pub xor_bytes-null : (b : ℕ) (x : List ℕ) → b ≤ length x → xor_bytes b 0 null x ≡ take b x
unfolding xor_bytes
xor_bytes-null zero x h = refl
xor_bytes-null (suc b) [] h = absurd (omega arith)
xor_bytes-null (suc b) (a ∷ x) h =
    ap₂ ◌∷◌ (zero-bit_xor a) (xor_bytes-suc b 0 null (a ∷ x) ∙ xor_bytes-null b x (omega arith))

pub take-xor_bytes :
    (q b p : ℕ) (m x : List ℕ)
    → q ≤ b
    → q ≤ length x
    → take q m ≡ replicate q 0
    → take q (xor_bytes b 0 (at p m) x) ≡ take q x
unfolding xor_bytes
take-xor_bytes zero b p m x hb hx z = refl
take-xor_bytes (suc q) zero p m x hb hx z = absurd (omega arith)
take-xor_bytes (suc q) (suc b) p m [] hb hx z = absurd (omega arith)
take-xor_bytes (suc q) (suc b) p [] (a ∷ x) hb hx z = absurd (omega (arith, ap length z))
take-xor_bytes (suc q) (suc b) p (c ∷ m) (a ∷ x) hb hx z =
    let head : c ≡ 0 = ground arith in
    let tail : take q m ≡ replicate q 0 = ground arith in
    ap₂ ◌∷◌ (ap (λ t. bit_xor t a) head ∙ zero-bit_xor a) (
      ap (take q) (xor_bytes-suc b 0 (at p (c ∷ m)) (a ∷ x))
      ∙ take-xor_bytes q b (p + 1) m x (omega arith) (omega arith) tail)

-- What is written from byte `q` on.
pub drop-xor_bytes :
    (q r b p : ℕ) (m x : List ℕ)
    → b ≡ q + r
    → drop q (xor_bytes b 0 (at p m) x) ≡ xor_bytes r 0 (at 0 (drop q m)) (drop q x)
unfolding xor_bytes
drop-xor_bytes zero r b p m x e =
    let same : b ≡ r = omega arith in
    ap (λ t. xor_bytes t 0 (at p m) x) same ∙ xor_bytes-address r 0 p 0 m x
drop-xor_bytes (suc q) r zero p m x e = absurd (omega arith)
drop-xor_bytes (suc q) r (suc b) p m x e =
    let joined : suc q ≡ 1 + q = omega arith in
    ap (drop q) (xor_bytes-suc b 0 (at p m) x)
    ∙ drop-xor_bytes q r b (p + 1) (drop 1 m) (drop 1 x) (omega arith)
    ∙ ap₂ (λ s t. xor_bytes r 0 (at 0 s) t) (drop-drop q 1 (suc q) m joined)
        (drop-drop q 1 (suc q) x joined)

length-keystream :
    (count : ℕ) (nonce : List ℕ) (j : ℕ) (k : List ℕ)
    → length (keystream count nonce j k) ≡ 64 * count
unfolding keystream
length-keystream zero nonce j k = refl
length-keystream (suc count) nonce j k =
    let block = salsa20 (nonce ++ le_bytes 8 j) k sigma in
    omega (
      arith,
      length-append block (keystream count nonce (j + 1) k),
      length-salsa20 (nonce ++ le_bytes 8 j) k sigma,
      length-keystream count nonce (j + 1) k,
    )

pub length-xpad : (b : ℕ) (n k : List ℕ) → b ≤ length (xpad b n k)
unfolding xpad pad
length-xpad b n k =
    omega (
      arith,
      length-keystream (b / 64 + 1) (nonce_of (drop 16 n)) 0 (crypto_core_hsalsa20 n k sigma),
    )

-- The first 32 bytes of the keystream do not depend on its length.
first_block :
    (count : ℕ) (nonce : List ℕ) (j : ℕ) (k : List ℕ)
    → take 32 (keystream (count + 1) nonce j k) ≡ take 32 (salsa20 (nonce ++ le_bytes 8 j) k sigma)
first_block count nonce j k =
    let next : count + 1 ≡ suc count = omega arith in
    let block = salsa20 (nonce ++ le_bytes 8 j) k sigma in
    ap (λ c. take 32 (keystream c nonce j k)) next
    ∙ unfold keystream in
      take-append_le 32 block _ (omega (arith, length-salsa20 (nonce ++ le_bytes 8 j) k sigma))

pub take-xpad : (b : ℕ) (n k : List ℕ) → take 32 (xpad b n k) ≡ one_time_key n k
unfolding xpad pad one_time_key
take-xpad b n k =
    first_block (b / 64) (nonce_of (drop 16 n)) 0 (crypto_core_hsalsa20 n k sigma)
    ∙ sym (first_block (32 / 64) (nonce_of (drop 16 n)) 0 (crypto_core_hsalsa20 n k sigma))
