-- ===== src/Base/Loop.antt =====
-- Counted loops: `for (k = i; k < i + n; k++) s = body k s`, and their invariant rule.
use Prim.Native.Nat.{ℕ, zero, suc, ◌+◌, ◌≤◌, ◌<◌}
use mathlib.Core.Path.{◌≡◌}
use native.Mathlib.Omega.{arith}

module _ {ℓ} {S : Type ℓ} where
  unfoldable pub for_range : ℕ → ℕ → (ℕ → S → S) → S → S
  for_range zero i body s = s
  for_range (suc n) i body s = for_range n (i + 1) body (body i s)

-- What each round keeps for the indices of the loop holds at the end, `j`.
pub for_range-keeps {ℓ κ} :
    {S : Type ℓ} (Inv : ℕ → S → Type κ) (body : ℕ → S → S) (left i j : ℕ) (state : S)
    → i + left ≡ j
    → ((k : ℕ) (t : S) → i ≤ k → k < j → Inv k t → Inv (k + 1) (body k t))
    → Inv i state
    → Inv j (for_range left i body state)
unfolding for_range
for_range-keeps Inv body zero i j state e keep start =
    let ends : i ≡ j = omega arith in rw (← ends) start
for_range-keeps Inv body (suc left) i j state e keep start =
    let next = keep i state (omega arith) (omega arith) start in
    for_range-keeps Inv body left (i + 1) j (body i state) (omega arith)
      (λ k t above below. keep k t (omega arith) below) next
