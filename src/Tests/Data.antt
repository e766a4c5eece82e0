-- ===== src/Tests/Data.antt =====
-- The buffers that the tests work on.
use tweetnacl_modular.Base.{ℕ, List, [], ◌∷◌, ◌++◌, replicate, arith}
use tweetnacl_modular.Bytes.{IsBytes}

abbrev pub key : List ℕ
key = 11 ∷ 22 ∷ 33 ∷ replicate 29 200

abbrev pub nonce : List ℕ
nonce = 5 ∷ 6 ∷ replicate 22 9

-- Padding and eight bytes of text.
abbrev pub message : List ℕ
message = replicate 32 0 ++ 104 ∷ 105 ∷ 32 ∷ 116 ∷ 104 ∷ 101 ∷ 114 ∷ 101 ∷ []

abbrev pub blank : List ℕ
blank = replicate 48 170

pub key-IsBytes : IsBytes key
key-IsBytes = ground arith

pub message-IsBytes : IsBytes message
message-IsBytes = ground arith

pub blank-IsBytes : IsBytes blank
blank-IsBytes = ground arith
