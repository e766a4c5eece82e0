-- ===== src/Base/Loops.antt =====
-- The counted loop `for (i = 0; i < n; ++i)` of the library's `FOR` macro.
use Prim.Native.Nat.{ℕ, zero, suc}

-- The rounds left come first, then the index.
unfoldable pub for_up {ℓ} : {S : Type ℓ} → ℕ → ℕ → (ℕ → S → S) → S → S
for_up zero i body s = s
for_up (suc n) i body s = for_up n (suc i) body (body i s)

-- An invariant that each round keeps holds at the end.
pub for_up_inv {ℓ κ} :
    {S : Type ℓ} (P : S → Type κ) (body : ℕ → S → S)
    → ((i : ℕ) (s : S) → P s → P (body i s))
    → (n i : ℕ) (s : S) → P s
    → P (for_up n i body s)
unfolding for_up
for_up_inv P body keep zero i s h = h
for_up_inv P body keep (suc n) i s h = for_up_inv P body keep n (suc i) (body i s) (keep i s h)
