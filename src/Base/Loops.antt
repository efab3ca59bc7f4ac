-- ===== src/Base/Loops.antt =====
-- `for (k = i; k < i + n; k++) s = body(k, s)`, by recursion on the rounds left.
use Prim.Native.Nat.{ℕ, zero, suc, ◌+◌, ◌<◌, ◌≤◌}
use mathlib.Core.Path.{◌≡◌}
use native.Mathlib.Omega.{arith}

unfoldable pub for_up {ℓ} : {S : Type ℓ} → ℕ → ℕ → (ℕ → S → S) → S → S
for_up zero k body s = s
for_up (suc n) k body s = for_up n (k + 1) body (body k s)

-- An invariant indexed by the counter, which each round may use within the loop's range.
pub for_up_inv {ℓ κ} :
    {S : Type ℓ} (P : ℕ → S → Type κ) (body : ℕ → S → S) (n k e : ℕ) (s : S)
    → k + n ≡ e
    → ((j : ℕ) (t : S) → k ≤ j → j < e → P j t → P (suc j) (body j t))
    → P k s
    → P e (for_up n k body s)
unfolding for_up
for_up_inv P body zero k e s q keep h = let k=e : k ≡ e = omega arith in rw (← k=e) h
for_up_inv P body (suc n) k e s q keep h =
    let next : suc k ≡ k + 1 = omega arith in
    for_up_inv P body n (k + 1) e (body k s) (omega arith)
      (λ j t lo hi p. keep j t (omega arith) hi p)
      (rw (← next) (keep k s (omega arith) (omega arith) h))

-- `for (j = n; j >= 1; j--) s = body(j, s)`.
unfoldable pub for_down {ℓ} : {S : Type ℓ} → ℕ → (ℕ → S → S) → S → S
for_down zero body s = s
for_down (suc n) body s = for_down n body (body (suc n) s)
