-- ===== src/Broadcast.antt =====
-- The abstract view of a ring: one writer, and for each reader a queue of the lines that it has
-- still to read, each of at most `cap` lines. A line goes to every queue, or to none.
use fips_ipc.Prelude.{
  ℕ, Bool, false, ◌||◌, ◌==◌, if◌then◌else◌, List, [], ◌∷◌, ◌++◌, Option, none, some, map, length,
  All, arith, ◌+◌, ◌-◌, ◌≤◌, ◌≡◌, min,
}

module _ {A : Type 0} where
  unfoldable pub any_full : ℕ → List (List A) → Bool
  any_full cap [] = false
  any_full cap (q ∷ qs) = length q == cap || any_full cap qs

  -- `none` if a reader's queue is full.
  unfoldable pub publish : ℕ → A → List (List A) → Option (List (List A))
  publish cap a qs = if any_full cap qs then none else some (map (λ q. q ++ (a ∷ [])) qs)

  -- The oldest line of a queue, and the queue without it.
  unfoldable pub split : List A → Option (A × List A)
  split [] = none
  split (a ∷ q) = some (a, q)

  -- How many of `m` lines fit into every queue.
  unfoldable pub room : ℕ → List (List A) → ℕ → ℕ
  room cap [] m = m
  room cap (q ∷ qs) m = room cap qs (min m (cap - length q))

  pub room-le : (cap : ℕ) (qs : List (List A)) (m : ℕ) → room cap qs m ≤ m
  unfolding room
  room-le cap [] m = omega arith
  room-le cap (q ∷ qs) m = omega (arith, room-le cap qs (min m (cap - length q)))

  pub room-zero : (cap : ℕ) (qs : List (List A)) → room cap qs 0 ≡ 0
  room-zero cap qs = omega (arith, room-le cap qs 0)

  fits_below :
      (cap : ℕ) (qs : List (List A)) (k m : ℕ)
      → k ≤ room cap qs m
      → All (λ q. length q ≤ cap) qs
      → All (λ q. length q + k ≤ cap) qs
  unfolding room
  fits_below cap [] k m e h = tt
  fits_below cap (q ∷ qs) k m e h =
      let least = room-le cap qs (min m (cap - length q)) in
      (omega (arith, h.0, e, least), fits_below cap qs k (min m (cap - length q)) e h.1)

  pub room-fits :
      (cap : ℕ) (qs : List (List A)) (m : ℕ)
      → All (λ q. length q ≤ cap) qs
      → All (λ q. length q + room cap qs m ≤ cap) qs
  room-fits cap qs m h = fits_below cap qs (room cap qs m) m (omega arith) h
