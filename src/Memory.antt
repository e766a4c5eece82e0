-- ===== src/Memory.antt =====
-- Pointers to byte buffers. A buffer has an address, by which the library's tests of pointers tell
-- two pointers apart, and its bytes. Two buffers at different addresses do not overlap.
pub mod Secure
pub mod Wipe
pub mod Writes
use tweetnacl_modular.Base.{ℕ, ◌+◌, ◌==◌, Bool, true, false, List, [], ◌++◌, take, drop, length}
use tweetnacl_modular.Base.Int.{ℤ}

pub data Ptr : Type 0 where
  null : Ptr
  at : ℕ → List ℕ → Ptr

abbrev pub is_null : Ptr → Bool
is_null null = true
is_null (at a bs) = false

-- `p == q` in C.
abbrev pub same : Ptr → Ptr → Bool
same null null = true
same null (at b ys) = false
same (at a xs) null = false
same (at a xs) (at b ys) = a == b

abbrev pub contents : Ptr → List ℕ
contents null = []
contents (at a bs) = bs

-- The pointer `p + k`.
abbrev pub advance : ℕ → Ptr → Ptr
advance k null = null
advance k (at a bs) = at (a + k) (drop k bs)

-- The buffer after `new` was written at offset `k`.
abbrev pub write_at : ℕ → List ℕ → List ℕ → List ℕ
write_at k new old = take k old ++ (new ++ drop (k + length new) old)

-- What a call returns, and what it leaves in its output buffer.
pub record Call : Type 0 where
  pub status : ℤ
  pub out : List ℕ
