-- ===== src/ShmRing/RangeLaws.antt =====
-- Lemmas on the polling of `shmrbuf_read_rng`.
use fips_ipc.Prelude.{
  ℕ, zero, suc, ◌+◌, ◌-◌, ◌%◌, ◌≤◌, ◌<◌, ◌≡◌, ◌⊎◌, inl, inr, refl, ap, ◌≢◌, Option-cases,
  set-get_or_self, ◌∙◌, sym, true, false, none, some, List, ◌==◌, leb, arith, get_or, Bool-cases,
  ==_iff, le→ltb,
}
use fips_ipc.ShmRing.{Ret, ok, Shm, ReaderArg, Segment, segment_at, no_segment}
use fips_ipc.ShmRing.Read.{Mutex, read}
use fips_ipc.ShmRing.Range.{turn, next_static, poll, read_rng, Statics, read_attempt}

module _ (lower upper : ℕ) (some_range : lower < upper) (small : upper < 256) where
  -- `j` is polled within the next `k` rounds.
  unfoldable pub Visits : ℕ → ℕ → ℕ → Type 0
  Visits zero s j = ⊥
  Visits (suc k) s j = (turn lower upper s ≡ j) ⊎ Visits k (next_static (turn lower upper s)) j

  turn_bounds : (s : ℕ) → s ≤ upper → (lower ≤ turn lower upper s) × (turn lower upper s < upper)
  unfolding turn
  turn_bounds s h = ground arith

  turn_step :
      (i : ℕ)
      → lower ≤ i
      → i < upper
      → ((suc i < upper) × (turn lower upper (next_static i) ≡ suc i))
        ⊎ ((suc i ≡ upper) × (turn lower upper (next_static i) ≡ lower))
  unfolding turn
  turn_step i hl hu = ground arith

  -- From `i` the indices up to the end come first, then those from the start.
  Visits-from :
      (k s i j : ℕ)
      → turn lower upper s ≡ i
      → lower ≤ i
      → i < upper
      → lower ≤ j
      → j < upper
      → ((i ≤ j) × (j < i + k)) ⊎ ((j < i) × (j + (upper - lower) < i + k))
      → Visits k s j
  unfolding Visits
  Visits-from zero s i j e li iu lj ju h = omega arith
  Visits-from (suc k) s i j e li iu lj ju h = elim (Bool-cases (i == j)) [
    | inl same ↦ inl (e ∙ (==_iff i j).0 same)
    | inr other ↦ inr (
        rw e (elim (turn_step i li iu) [
          | inl (inside, t) ↦
              Visits-from k (next_static i) (suc i) j t (omega arith) inside lj ju (ground arith)
          | inr (round, t) ↦
              Visits-from k (next_static i) lower j t (omega arith) some_range lj ju (ground arith)
        ]))
  ]

  -- `upper - lower` rounds reach every index of the range.
  Visits-all : (s j : ℕ) → s ≤ upper → lower ≤ j → j < upper → Visits (upper - lower) s j
  Visits-all s j hs lj ju =
      let bounds = turn_bounds s hs in
      Visits-from (upper - lower) s (turn lower upper s) j refl bounds.0 bounds.1 lj ju
        (omega (arith, bounds))

module _ {B : Type 0} (attempt : ℕ → B × Shm → Ret × B × Shm) (b : B) (shm : Shm)
    (same : (i : ℕ) → (attempt i (b, shm)).0 ≡ ok 0 → attempt i (b, shm) ≡ (ok 0, b, shm))
    (lower upper : ℕ) (some_range : lower < upper) (small : upper < 256) where
  poll_first :
      (k s : ℕ)
      → (poll attempt (turn lower upper) (suc k) s (b, shm)).0 ≡ none
      → (attempt (turn lower upper s) (b, shm)).0 ≡ ok 0
  unfolding poll
  poll_first k s e = ground arith

  poll_rest :
      (k s : ℕ)
      → attempt (turn lower upper s) (b, shm) ≡ (ok 0, b, shm)
      → (poll attempt (turn lower upper) (suc k) s (b, shm)).0
        ≡ (poll attempt (turn lower upper) k (next_static (turn lower upper s)) (b, shm)).0
  unfolding poll
  poll_rest k s e = rw (e, poll) (rw e)

  -- A loop that ends with nothing read has read nothing at each index that it polled.
  poll-none :
      (k s j : ℕ)
      → (poll attempt (turn lower upper) k s (b, shm)).0 ≡ none
      → Visits lower upper some_range small k s j
      → (attempt j (b, shm)).0 ≡ ok 0
  unfolding Visits
  poll-none zero s j e v = absurd v
  poll-none (suc k) s j e (inl here) = rw (← here) (poll_first k s e)
  poll-none (suc k) s j e (inr later) =
      let quiet = same (turn lower upper s) (poll_first k s e) in
      poll-none k (next_static (turn lower upper s)) j (sym (poll_rest k s quiet) ∙ e) later

-- A loop never stops at a read that returns 0.
poll-ne :
    {B : Type 0} (attempt : ℕ → B × Shm → Ret × B × Shm) (pick : ℕ → ℕ) (k s : ℕ) (b : B)
    (shm : Shm)
    → (poll attempt pick k s (b, shm)).0 ≢ some (ok 0)
unfolding poll
poll-ne attempt pick zero s b shm e = cc
poll-ne attempt pick (suc k) s b shm e = ground (
  arith,
  poll-ne attempt pick k (next_static (pick s)) (attempt (pick s) (b, shm)).1
      (attempt (pick s) (b, shm)).2,
)

abbrev pub working : Mutex
working = record { lock_fails = false; unlock_fails = false }

module _ (args : ReaderArg) (attached : args.attached ≡ true) (rbuf : List ℕ) (bufsize : ℕ)
    (some_size : 0 < bufsize) (shm : Shm) (some_line : 0 < shm.global_hdr.line_size) where
  -- A reader that gets 0 has caught up with the writer.
  read_caught_up :
      (id : ℕ)
      → (read_attempt args working bufsize id (some rbuf, shm)).0 ≡ ok 0
      → get_or (segment_at shm id).read_index args.reader_id 0 ≡ (segment_at shm id).write_index
  unfolding read
  read_caught_up id e = ground arith

  -- With working mutexes a read that returns 0 changes nothing.
  read_nothing :
      (id : ℕ)
      → (read_attempt args working bufsize id (some rbuf, shm)).0 ≡ ok 0
      → read_attempt args working bufsize id (some rbuf, shm) ≡ (ok 0, some rbuf, shm)
  unfolding read
  read_nothing id e =
      let inside : leb shm.global_hdr.segment_count id ≡ false = ground arith in
      let asked : (bufsize == 0) ≡ false = ground arith in
      let caught = read_caught_up id e in
      let stay : ((segment_at shm id).write_index
            == get_or (segment_at shm id).read_index args.reader_id 0)
          ≡ true =
        ground arith in
      rw (attached, inside, asked, stay)
        (ap (λ (segs : List Segment). (ok 0, some rbuf, record shm { segments = segs }))
          (set-get_or_self shm.segments id no_segment))

  read_rng_own :
      (lower upper : ℕ) (st : Statics)
      → lower < upper
      → upper ≤ shm.global_hdr.segment_count
      → (upper + 256 - lower) % 256 ≡ upper - lower
      → (read_rng args working (some rbuf) bufsize lower upper none st shm).0.ret ≡ ok 0
      → ((poll
            (read_attempt args working bufsize)
            (turn lower upper)
            (upper - lower)
            st.segment_index
            (some rbuf, shm)).0
          ≡ none)
        ⊎ ((poll
              (read_attempt args working bufsize)
              (turn lower upper)
              (upper - lower)
              st.segment_index
              (some rbuf, shm)).0
            ≡ some (ok 0))
  unfolding read_rng
  read_rng_own lower upper st some_range within rounds e =
      elim (Option-cases
        (poll (read_attempt args working bufsize) (turn lower upper) (upper - lower)
          st.segment_index (some rbuf, shm)).0) [
            | inl nothing ↦ inl nothing
            | inr (r, found) ↦ inr (
                found
                ∙ ap some (
                    rw
                      (
                        le→ltb upper lower (omega arith),
                        le→ltb shm.global_hdr.segment_count upper within,
                        rounds,
                        found,
                        read_rng,
                      )
                      at e))
          ]

  -- With mutexes that work, a buffer that is not empty and lines that are not empty,
  -- `shmrbuf_read_rng` without stealing, over a range that is not empty and within fewer than 256
  -- segments, returns 0 only if in every segment of the range the reader's index equals the write
  -- index, wherever up to the end of the range its static index stands.
  pub read_rng-empty :
      (lower upper : ℕ) (st : Statics)
      → lower < upper
      → upper ≤ shm.global_hdr.segment_count
      → shm.global_hdr.segment_count < 256
      → st.segment_index ≤ upper
      → (read_rng args working (some rbuf) bufsize lower upper none st shm).0.ret ≡ ok 0
      → (j : ℕ) → lower ≤ j
      → j < upper
      → get_or (segment_at shm j).read_index args.reader_id 0 ≡ (segment_at shm j).write_index
  unfolding read_rng
  read_rng-empty lower upper st some_range within small started e j lj ju =
      let rounds : (upper + 256 - lower) % 256 ≡ upper - lower = omega arith in
      let attempt = read_attempt args working bufsize in
      let own = poll attempt (turn lower upper) (upper - lower) st.segment_index (some rbuf, shm) in
      let none_read : own.0 ≡ none = elim (read_rng_own lower upper st some_range within rounds e) [
        | inl nothing ↦ nothing
        | inr zero_read ↦ absurd (
            poll-ne attempt (turn lower upper) (upper - lower) st.segment_index (some rbuf) shm
              zero_read)
      ] in
      read_caught_up j (
        poll-none attempt (some rbuf) shm read_nothing lower upper some_range (omega arith)
          (upper - lower) st.segment_index j none_read
          (Visits-all lower upper some_range (omega arith) st.segment_index j started lj ju))
