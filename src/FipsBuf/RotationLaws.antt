-- ===== src/FipsBuf/RotationLaws.antt =====
-- A call of `fips_buf_read` looks at each segment that the thread keeps.
use fips_ipc.Prelude.{
  ℕ, zero, suc, ◌+◌, ◌-◌, ◌≡◌, ◌<◌, ◌⊎◌, inl, inr, refl, ◌∙◌, true, false, Option, none, some,
  Option-cases, List, [], ◌∷◌, ◌==◌, leb, ltb, if◌then◌else◌, length, All, Bool-cases, get_or,
  arith,
}
use fips_ipc.FipsBuf.{Header, Segment, Iovec}
use fips_ipc.FipsBuf.Ring.{Range, claim}
use fips_ipc.FipsBuf.Assign.{Assignment}
use fips_ipc.FipsBuf.Attach.{Threads, Behind}
use fips_ipc.FipsBuf.Cache.{Cache, remove_cached_entries}
use fips_ipc.FipsBuf.Rotation.{
  ReadCode, read_empty, ReadState, next_rotation, segment_of, served, read_loop, fips_buf_read,
}

-- The slot at which the loop looks in its round `i`, counted from 0.
abbrev visited : ℕ → ℕ → ℕ → ℕ
visited c zero r = next_rotation c r
visited c (suc i) r = visited c i (next_rotation c r)

next_rotation-lt : (c r : ℕ) → 0 < c → next_rotation c r < c
next_rotation-lt c r some_slots = ground arith

abbrev wrapped : ℕ → ℕ → ℕ
wrapped c n = if ltb n c then n else n - c

wrapped-next_rotation :
    (c s i : ℕ)
    → s < c
    → c < 256
    → suc i < c
    → wrapped c (next_rotation c s + i) ≡ wrapped c (s + suc i)
wrapped-next_rotation c s i below few h = ground arith

visited_lem :
    (c r i : ℕ) → 0 < c → c < 256 → i < c → visited c i r ≡ wrapped c (next_rotation c r + i)
visited_lem c r zero some_slots few h = ground (arith, next_rotation-lt c r some_slots)
visited_lem c r (suc i) some_slots few h =
    visited_lem c (next_rotation c r) i some_slots few (omega arith)
    ∙ wrapped-next_rotation c (next_rotation c r) i (next_rotation-lt c r some_slots) few h

-- Every slot is looked at in one of as many rounds as there are slots.
round_of : (c r j : ℕ) → 0 < c → c < 256 → j < c → (i : ℕ) × (i < c) × (visited c i r ≡ j)
round_of c r j some_slots few h =
    let s = next_rotation c r in
    let below = next_rotation-lt c r some_slots in
    elim (Bool-cases (leb s j)) [
      | inl ahead ↦ (
        j - s,
        ground arith,
        visited_lem c r (j - s) some_slots few (ground arith) ∙ ground arith,
      )
      | inr round ↦ (
        j + c - s,
        ground arith,
        visited_lem c r (j + c - s) some_slots few (ground arith) ∙ ground arith,
      )
    ]

-- The thread keeps these segments, none of them trailing.
pub record Keeps (cache : Cache) (ks : List ℕ) : Type 0 where
  pub some_kept : 0 < length ks
  pub few : length ks < 256
  pub assigned : cache.assigned_reader_count ≡ length ks
  pub no_trailing : cache.trailing_buffers_count ≡ 0
  pub slots : (i : ℕ) → i < length ks → get_or cache.current_segment i none ≡ some (get_or ks i 0)

remove_nothing :
    (cache : Cache) (ks : List ℕ) (rotation : ℕ)
    → Keeps cache ks
    → rotation < length ks
    → remove_cached_entries rotation cache ≡ some cache
unfolding remove_cached_entries
remove_nothing cache ks rotation keeps below =
    let kept : leb cache.assigned_reader_count rotation ≡ false = ground arith in rw kept refl

first_round :
    (n : ℕ) (P : ℕ → Type 0) → P 0 → ((i : ℕ) → i < n → P (suc i)) → (i : ℕ) → i < suc n → P i
first_round n P p ps zero h = p
first_round n P p ps (suc i) h = ps i (omega arith)

module _ (hdr : Header) (reader_index iovcnt : ℕ) (ks : List ℕ) where
  -- The segment has fewer lines than are wanted, or what it gives.
  abbrev pub TooFew : ReadState → ℕ → Type 0
  TooFew s k = claim hdr reader_index iovcnt (segment_of s k) ≡ none

  abbrev pub Gives : ReadState → ℕ → List Iovec × Range × Segment → Type 0
  Gives s k got = claim hdr reader_index iovcnt (segment_of s k) ≡ some got

  abbrev Reads : ReadState → ℕ → Option (ReadCode × ReadState) → Type 0
  Reads s n run =
      ((r : ℕ) × (run ≡ some (read_empty, record s { rotation = r }))
        × ((i : ℕ) → i < n → TooFew s (get_or ks (visited (length ks) i s.rotation) 0)))
      ⊎ ((r : ℕ) × (got : List Iovec × Range × Segment) × (r < length ks)
          × Gives s (get_or ks r 0) got
          × (run ≡ some (served (record s { rotation = r }) (get_or ks r 0) got)))

  read_loop-Reads :
      (n : ℕ) (s : ReadState)
      → Keeps s.cache ks
      → Reads s n (read_loop hdr reader_index iovcnt (length ks) n s)
  unfolding read_loop
  read_loop-Reads zero s keeps = inl (s.rotation, refl, λ i h. absurd (omega arith))
  read_loop-Reads (suc n) s keeps =
      let r = next_rotation (length ks) s.rotation in
      let below = next_rotation-lt (length ks) s.rotation keeps.some_kept in
      let slot = keeps.slots r below in
      elim (Option-cases (claim hdr reader_index iovcnt (segment_of s (get_or ks r 0)))) [
        | inl few ↦
            let on = remove_nothing s.cache ks r keeps below in
            elim (read_loop-Reads n (record s { rotation = r }) keeps) [
              | inl (r', run, rest) ↦ inl (
                r',
                rw (read_loop, slot, few, on) run,
                first_round n (λ i. TooFew s (get_or ks (visited (length ks) i s.rotation) 0)) few
                    rest,
              )
              | inr (r', got, in_ks, gives, run) ↦
                  inr (r', got, in_ks, gives, rw (read_loop, slot, few, on) run)
            ]
        | inr (got, gives) ↦ inr (r, got, below, gives, rw (read_loop, slot, gives) refl)
      ]

All-of_get_or :
    (P : ℕ → Type 0) (ks : List ℕ) → ((j : ℕ) → j < length ks → P (get_or ks j 0)) → All P ks
All-of_get_or P [] ps = tt
All-of_get_or P (k ∷ ks) ps =
    (ps 0 (omega arith), All-of_get_or P ks (λ j h. ps (suc j) (omega arith)))

-- When the assignments have not changed since the thread's last update, and it keeps at least one
-- segment and fewer than 256, none of them trailing, then `fips_buf_read` without flags either
-- reports that there is nothing to read, changes only the rotation, and each of the kept segments
-- has fewer lines than are wanted, or it returns the lines and the tag that the round gives on one
-- of the kept segments, changes that segment as the round does, and sets the rotation to its place.
pub fips_buf_read-Keeps :
    (behind : Behind) (assignment : Option Assignment) (t : Threads) (reader_index iovcnt : ℕ)
    (s : ReadState) (ks : List ℕ)
    → s.cache.assignment_generation ≡ t.generation
    → Keeps s.cache ks
    → ((r : ℕ) × (fips_buf_read behind assignment t reader_index iovcnt 0 s
          ≡ some (read_empty, record s { rotation = r }))
        × All (TooFew t.header reader_index iovcnt ks s) ks)
      ⊎ ((r : ℕ) × (got : List Iovec × Range × Segment) × (r < length ks)
          × Gives t.header reader_index iovcnt ks s (get_or ks r 0) got
          × (fips_buf_read behind assignment t reader_index iovcnt 0 s
              ≡ some (served (record s { rotation = r }) (get_or ks r 0) got)))
unfolding fips_buf_read
fips_buf_read-Keeps behind assignment t reader_index iovcnt s ks current keeps =
    let same : (s.cache.assignment_generation == t.generation) ≡ true = ground arith in
    let c : s.cache.assigned_reader_count + s.cache.trailing_buffers_count ≡ length ks =
      omega (arith, keeps.assigned, keeps.no_trailing) in
    elim (read_loop-Reads t.header reader_index iovcnt ks (length ks) s keeps) [
      | inl (r, run, rounds) ↦ inl (
        r,
        rw (same, c) run,
        All-of_get_or (TooFew t.header reader_index iovcnt ks s) ks (λ j h.
            let (i, below, at_j) = round_of (length ks) s.rotation j keeps.some_kept keeps.few h in
            rw at_j at (rounds i below)),
      )
      | inr (r, got, in_ks, gives, run) ↦ inr (r, got, in_ks, gives, rw (same, c) run)
    ]
