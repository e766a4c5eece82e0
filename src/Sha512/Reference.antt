-- ===== src/Sha512/Reference.antt =====
-- SHA-512 as FIPS 180-4 states it: big-endian words, the message schedule as a window of sixteen
-- words that slides by one, and one padded message.
use tweetnacl_modular.Base.{
  ℕ, zero, suc, ◌+◌, ◌-◌, ◌*◌, ◌/◌, ◌%◌, ◌^◌, List, [], ◌∷◌, ◌++◌, take, drop, replicate, length,
}
use tweetnacl_modular.Bytes.Value.{be_value}
use tweetnacl_modular.Sha512.{entry, ch, maj, big_sigma0, big_sigma1, sigma0, sigma1}
use tweetnacl_modular.Sha512.Constants.{round_constants, iv}

abbrev pub sum64 : ℕ → ℕ → ℕ
sum64 x y = (x + y) % 2 ^ 64

-- The `n` low bytes of a number, high byte first.
unfoldable pub be_bytes : ℕ → ℕ → List ℕ
be_bytes zero v = []
be_bytes (suc n) v = be_bytes n (v / 256) ++ v % 256 ∷ []

-- From the words t to t + 15 of the schedule to the words t + 1 to t + 16.
unfoldable pub slide : List ℕ → List ℕ
slide w =
    drop 1 w
    ++ sum64 (sum64 (sum64 (sigma1 (entry w 14)) (entry w 9)) (sigma0 (entry w 1))) (entry w 0) ∷ []

-- One step on the working variables a to h.
unfoldable pub sha_step : List ℕ → ℕ → ℕ → List ℕ
sha_step v k w =
    let t1 =
      sum64
        (sum64
          (sum64 (sum64 (entry v 7) (big_sigma1 (entry v 4)))
            (ch (entry v 4) (entry v 5) (entry v 6)))
          k)
        w in
    let t2 = sum64 (big_sigma0 (entry v 0)) (maj (entry v 0) (entry v 1) (entry v 2)) in
    sum64 t1 t2
    ∷ entry v 0
    ∷ entry v 1
    ∷ entry v 2
    ∷ sum64 (entry v 3) t1
    ∷ entry v 4
    ∷ entry v 5
    ∷ entry v 6
    ∷ []

-- `n` steps from step `t` on.
unfoldable pub sha_steps : ℕ → ℕ → List ℕ → List ℕ → List ℕ
sha_steps zero t v window = v
sha_steps (suc n) t v window =
    sha_steps n (suc t) (sha_step v (entry round_constants t) (entry window 0)) (slide window)

-- The big-endian words of a block.
unfoldable pub words_of : ℕ → List ℕ → List ℕ
words_of zero m = []
words_of (suc n) m = be_value (take 8 m) ∷ words_of n (drop 8 m)

unfoldable pub sha_block : List ℕ → List ℕ → List ℕ
sha_block v m =
    let w = sha_steps 80 0 v (words_of 16 m) in
    sum64 (entry w 0) (entry v 0)
    ∷ sum64 (entry w 1) (entry v 1)
    ∷ sum64 (entry w 2) (entry v 2)
    ∷ sum64 (entry w 3) (entry v 3)
    ∷ sum64 (entry w 4) (entry v 4)
    ∷ sum64 (entry w 5) (entry v 5)
    ∷ sum64 (entry w 6) (entry v 6)
    ∷ sum64 (entry w 7) (entry v 7)
    ∷ []

-- `n` blocks, one after the other.
unfoldable pub sha_blocks : ℕ → List ℕ → List ℕ → List ℕ
sha_blocks zero m v = v
sha_blocks (suc n) m v = sha_blocks n (drop 128 m) (sha_block v m)

-- The padded message: a 1 bit, zeros up to a whole block, and the number of bits in 16 bytes.
unfoldable pub padded : List ℕ → List ℕ
padded m =
    m ++ (128 ∷ (replicate ((128 - (length m + 17) % 128) % 128) 0 ++ be_bytes 16 (8 * length m)))

unfoldable pub digest_bytes : List ℕ → List ℕ
digest_bytes [] = []
digest_bytes (w ∷ ws) = be_bytes 8 w ++ digest_bytes ws

unfoldable pub sha512 : List ℕ → List ℕ
sha512 m = digest_bytes (sha_blocks ((length m + 17 + 127) / 128) (padded m) (words_of 8 iv))
