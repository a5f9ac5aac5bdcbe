-- ===== src/ShmRing/Window.antt =====
-- The lines that a reader has still to read, and what a write does to them.
use fips_ipc.Prelude.{
  ℕ, zero, suc, ◌+◌, ◌-◌, ◌≤◌, ◌<◌, ◌≡◌, ◌⊎◌, refl, ap, ◌∙◌, List, [], ◌∷◌, ◌++◌, arith, length,
  get_or, set, get_or-set_self, get_or-set_ne, leb, if◌then◌else◌, length-set, append-nil,
  append_assoc,
}
use fips_ipc.ShmRing.{next_index}

-- How many lines lie from a reader's index up to the writer's.
unfoldable pub backlog : ℕ → ℕ → ℕ → ℕ
backlog n r w = if leb r w then w - r else n - (r - w)

-- `k` steps on from `r` is `w`.
abbrev pub Reaches : ℕ → ℕ → ℕ → ℕ → Type 0
Reaches n r k w = (r + k ≡ w) ⊎ (r + k ≡ w + n)

pub backlog-Reaches :
    (n r w : ℕ) → r < n → w < n → Reaches n r (backlog n r w) w × (backlog n r w < n)
unfolding backlog
backlog-Reaches n r w hr hw = ground arith

pub Reaches-backlog : (n r k w : ℕ) → r < n → w < n → k < n → Reaches n r k w → backlog n r w ≡ k
unfolding backlog
Reaches-backlog n r k w hr hw hk e = ground arith

pub next_index_lt : (n i : ℕ) → i < n → next_index n i < n
unfolding next_index
next_index_lt n i h = ground arith

pub next_index_cases :
    (n i : ℕ)
    → i < n
    → ((suc i < n) × (next_index n i ≡ suc i)) ⊎ ((suc i ≡ n) × (next_index n i ≡ 0))
unfolding next_index
next_index_cases n i h = ground arith

module _ {A : Type 0} (blank : A) where
  -- `k` entries from index `i` on, round the ring.
  unfoldable pub window : ℕ → List A → ℕ → ℕ → List A
  window n xs i zero = []
  window n xs i (suc k) = get_or xs i blank ∷ window n xs (next_index n i) k

  pub length-window : (n : ℕ) (xs : List A) (i k : ℕ) → length (window n xs i k) ≡ k
  unfolding window
  length-window n xs i zero = refl
  length-window n xs i (suc k) = ap suc (length-window n xs (next_index n i) k)

  -- Writing at the end of a window that is not the whole ring adds the entry to it.
  pub window-set :
      (n : ℕ) (xs : List A) (v : A) (k r w : ℕ)
      → length xs ≡ n
      → r < n
      → w < n
      → suc k < n
      → Reaches n r k w
      → window n (set xs w v) r (suc k) ≡ window n xs r k ++ (v ∷ [])
  unfolding window
  window-set n xs v zero r w l hr hw hk e =
      let same : r ≡ w = omega arith in
      rw same (ap (λ x. x ∷ []) (get_or-set_self xs w v blank (omega arith)))
  window-set n xs v (suc k) r w l hr hw hk e = rw (get_or-set_ne xs w r v blank (omega arith)) (
      ap (◌∷◌ (get_or xs r blank)) (
        window-set n xs v k (next_index n r) w l (next_index_lt n r hr) hw (omega arith)
          (omega (arith, next_index_cases n r hr))))

  -- A run of entries written at consecutive places.
  unfoldable pub set_run : List A → ℕ → List A → List A
  set_run xs i [] = xs
  set_run xs i (y ∷ ys) = set_run (set xs i y) (i + 1) ys

  pub length-set_run : (xs : List A) (i : ℕ) (ys : List A) → length (set_run xs i ys) ≡ length xs
  unfolding set_run
  length-set_run xs i [] = refl
  length-set_run xs i (y ∷ ys) = length-set_run (set xs i y) (i + 1) ys ∙ length-set xs i y

  -- A run that stops at the end of the ring at the latest adds all its entries.
  pub window-set_run :
      (n : ℕ) (xs ys : List A) (k r w : ℕ)
      → length xs ≡ n
      → r < n
      → w + length ys ≤ n
      → k + length ys < n
      → Reaches n r k w
      → window n (set_run xs w ys) r (k + length ys) ≡ window n xs r k ++ ys
  unfolding set_run
  window-set_run n xs [] k r w l hr hw hk e = rw append-nil (ap (window n xs r) (omega arith))
  window-set_run n xs (y ∷ ys) k r w l hr hw hk e =
      ap (window n (set_run (set xs w y) (w + 1) ys) r) (omega arith)
      ∙ window-set_run n (set xs w y) ys (suc k) r (w + 1) (length-set xs w y ∙ l) hr (omega arith)
          (omega arith) (omega arith)
      ∙ rw (window-set n xs y k r w l hr (omega arith) (omega arith) e, append_assoc) refl
