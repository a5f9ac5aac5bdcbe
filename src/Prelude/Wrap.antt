-- ===== src/Prelude/Wrap.antt =====
-- Indices of a ring.
use Prim.Native.Nat.{ℕ, ◌+◌, ◌-◌, ◌%◌, ◌^◌, ◌≤◌, ◌<◌}
use mathlib.Core.Path.{◌≡◌, ◌∙◌}
use mathlib.Core.Logic.{◌⊎◌, inl, inr}
use native.Mathlib.Omega.{arith}
use native.Mathlib.Nat.{mod-eq_of_lt, mod-eq-sub-mod}
use native.Mathlib.Decide.{dec_lt}

-- An index of a ring of `n`, moved on by `k`, as a `uint32_t`.
pub wrap_cases :
    (n w k : ℕ)
    → n ≤ 2 ^ 31
    → w < n
    → k ≤ n
    → ((w + k < n) × ((w + k) % 2 ^ 32 % n ≡ w + k))
      ⊎ ((n ≤ w + k) × ((w + k) % 2 ^ 32 % n ≡ w + k - n))
wrap_cases n w k hn hw hk =
    let plain : (w + k) % 2 ^ 32 ≡ w + k = omega arith in
    elim (dec_lt (w + k) n) [
      | yes h ↦ inl (h, rw plain (mod-eq_of_lt h))
      | no h ↦ inr (
        omega arith,
        rw plain (
            mod-eq-sub-mod {n = w + k} {m = n} (omega arith)
            ∙ mod-eq_of_lt {n = w + k - n} {m = n} (omega arith)),
      )
    ]
