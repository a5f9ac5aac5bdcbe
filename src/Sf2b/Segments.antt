-- ===== src/Sf2b/Segments.antt =====
-- src/programs/sf2b/shmrbuf.c: `init_thread_ipc`.
use fips_ipc.Prelude.{
  ℕ, zero, suc, ◌+◌, ◌*◌, ◌/◌, ◌%◌, ◌^◌, ◌-◌, ◌<◌, ◌≤◌, ◌≡◌, refl, ap, sym, ◌∙◌, inl, inr, true,
  false, Bool-cases, Option, none, some, ltb, leb, if◌then◌else◌, arith, min,
}
use mathlib.Core.Option.{none-ne-some, some-injective}
use native.Mathlib.Nat.{mod-lt, div-add-mod, mod-eq_of_lt, div-le_self, div-eq_of_lt}

-- `segments_per_thread`, filled by the loop over the threads.
unfoldable pub segments_per_thread : ℕ → ℕ → ℕ → ℕ
segments_per_thread seg_count remainder zero = 0
segments_per_thread seg_count remainder (suc i) =
    if ltb i remainder then seg_count + 1 else seg_count

-- The loop that sums them up from `i` on, with the rounds left; the sums are `uint8_t`.
unfoldable pub sum_segments : ℕ → ℕ → ℕ → ℕ → ℕ → ℕ → ℕ × ℕ
unfolding segments_per_thread
sum_segments seg_count remainder i zero lower_seg upper_seg = (lower_seg, upper_seg)
sum_segments seg_count remainder i (suc rounds) lower_seg upper_seg =
    sum_segments seg_count remainder (i + 1) rounds
      ((lower_seg + segments_per_thread seg_count remainder i) % 2 ^ 8)
      ((upper_seg + segments_per_thread seg_count remainder (i + 1)) % 2 ^ 8)

-- The bounds for a thread, `none` for a thread that has nothing to read.
unfoldable pub init_thread_ipc : ℕ → ℕ → ℕ → Option (ℕ × ℕ)
unfolding sum_segments
init_thread_ipc segment_count thread_count thread_id =
    if leb segment_count thread_id
    then none
    else (let seg_count = segment_count / thread_count % 2 ^ 8 in
        let remainder = segment_count % thread_count in
        some (sum_segments seg_count remainder 0 (thread_id + 1) 0 0))

-- The segments of the first `i` threads.
unfoldable pub up_to : ℕ → ℕ → ℕ → ℕ
up_to seg_count remainder i = i * seg_count + min i remainder

module _ (q r : ℕ) where
  up_to-suc : (j : ℕ) → up_to q r j + segments_per_thread q r (suc j) ≡ up_to q r (suc j)
  unfolding up_to segments_per_thread
  up_to-suc j = ground arith

  pub up_to_zero : up_to q r 0 ≡ 0
  unfolding up_to
  up_to_zero = omega arith

  start : (up_to q r (0 - 1) + segments_per_thread q r 0) % 2 ^ 8 ≡ up_to q r 0
  unfolding up_to segments_per_thread
  start = omega arith

  up_to_mono : (i k : ℕ) → up_to q r i ≤ up_to q r (i + k)
  up_to_mono i zero = let same : i + 0 ≡ i = omega arith in rw same (omega arith)
  up_to_mono i (suc k) =
      let next : i + suc k ≡ suc (i + k) = omega arith in
      rw next (omega (arith, up_to_mono i k, up_to-suc (i + k)))

  module _ (total : ℕ) (small : total < 2 ^ 8) where
    wrapped : (n : ℕ) → n ≤ total → n % 2 ^ 8 ≡ n
    wrapped n h = mod-eq_of_lt {n = n} {m = 2 ^ 8} (omega arith)

    lower_step :
        (i : ℕ)
        → up_to q r i ≤ total
        → (up_to q r (i - 1) + segments_per_thread q r i) % 2 ^ 8 ≡ up_to q r i
    lower_step zero h = start
    lower_step (suc j) h =
        let back : suc j - 1 ≡ j = omega arith in
        rw (back, up_to-suc j) (wrapped (up_to q r (suc j)) h)

    sum_segments-up_to :
        (rounds i : ℕ)
        → up_to q r (i + rounds) ≤ total
        → sum_segments q r i rounds (up_to q r (i - 1)) (up_to q r i)
          ≡ (up_to q r (i + rounds - 1), up_to q r (i + rounds))
    unfolding sum_segments
    sum_segments-up_to zero i h = let same : i + 0 ≡ i = omega arith in rw same refl
    sum_segments-up_to (suc rounds) i h =
        let next : i + suc rounds ≡ suc i + rounds = omega arith in
        let after : i + 1 ≡ suc i = omega arith in
        let back : suc i - 1 ≡ i = omega arith in
        let below : up_to q r (suc i + rounds) ≤ total = rw next at h in
        let grows = up_to_mono (suc i) rounds in
        let more = up_to-suc i in
        let rest = sum_segments-up_to rounds (suc i) below in
        rw
          (
            next,
            lower_step i (omega (arith, grows, more)),
            after,
            up_to-suc i,
            wrapped (up_to q r (suc i)) (omega (arith, grows)),
          )
          (rw back at rest)

few_threads : {n : ℕ} (i : ℕ) → up_to 0 n i < n → n ≤ i → ⊥
unfolding up_to
few_threads i h below = omega arith

module _ (segment_count thread_count : ℕ) (threads : 0 < thread_count)
    (byte : segment_count < 2 ^ 8) where
  abbrev pub lower_of : ℕ → ℕ
  lower_of i = up_to (segment_count / thread_count) (segment_count % thread_count) i

  up_to-thread_count : lower_of thread_count ≡ segment_count
  unfolding up_to
  up_to-thread_count =
      omega (arith, mod-lt segment_count threads, div-add-mod segment_count thread_count)

  lower_of-le : (i : ℕ) → i ≤ thread_count → lower_of i ≤ segment_count
  lower_of-le i h =
      let k = thread_count - i in
      let same : i + k ≡ thread_count = omega arith in
      let grows = up_to_mono (segment_count / thread_count) (segment_count % thread_count) i k in
      omega (arith, up_to-thread_count, (rw same at grows))

  pub init_thread_ipc-lower_of :
      (i : ℕ)
      → i < thread_count
      → i < segment_count
      → init_thread_ipc segment_count thread_count i ≡ some (lower_of i, lower_of (i + 1))
  unfolding init_thread_ipc
  init_thread_ipc-lower_of i h less =
      let q = segment_count / thread_count in
      let r = segment_count % thread_count in
      let enough : leb segment_count i ≡ false = ground arith in
      let small : q % 2 ^ 8 ≡ q =
        mod-eq_of_lt {n = q} {m = 2 ^ 8} (omega (arith, div-le_self segment_count thread_count)) in
      let sum = ap some (
        sum_segments-up_to q r segment_count byte (i + 1) 0
          (lower_of-le (0 + (i + 1)) (omega arith))) in
      let one : 0 + (i + 1) - 1 ≡ i = omega arith in
      let two : 0 + (i + 1) ≡ i + 1 = omega arith in
      rw (enough, small) (rw (up_to_zero q r, one, two) at sum)

  idle_thread :
      (j : ℕ) → leb segment_count j ≡ true → init_thread_ipc segment_count thread_count j ≡ none
  unfolding init_thread_ipc
  idle_thread j idle = rw idle refl

  -- The thread whose range holds a segment of the first `n` threads.
  thread_of :
      (s n : ℕ) → s < lower_of n → (i : ℕ) × (i < n) × (lower_of i ≤ s) × (s < lower_of (i + 1))
  thread_of s zero below =
      absurd
        (omega (arith, up_to_zero (segment_count / thread_count) (segment_count % thread_count)))
  thread_of s (suc n) below = elim (Bool-cases (ltb s (lower_of n))) [
    | inl earlier ↦ let (i, less, lo, hi) = thread_of s n (ground arith) in (i, omega arith, lo, hi)
    | inr here ↦
        let next : n + 1 ≡ suc n = omega arith in (n, omega arith, ground arith, rw next below)
  ]

  -- A thread whose range starts below the number of segments is one of the first that many.
  thread_below : (i : ℕ) → i < thread_count → lower_of i < segment_count → i < segment_count
  thread_below i h starts = elim (Bool-cases (ltb i segment_count)) [
    | inl less ↦ ground arith
    | inr more ↦
        let few : segment_count < thread_count = ground arith in
        let all : up_to 0 segment_count i < segment_count =
          rw (div-eq_of_lt few, mod-eq_of_lt few) at starts in
        absurd (few_threads i all (ground arith))
  ]

  ordered : (i j : ℕ) → i < j → lower_of (i + 1) ≤ lower_of j
  ordered i j less =
      let k = j - (i + 1) in
      let same : i + 1 + k ≡ j = omega arith in
      rw same at
        (up_to_mono (segment_count / thread_count) (segment_count % thread_count) (i + 1) k)

  -- A result is the range of the thread.
  range_of :
      (j lo hi : ℕ)
      → j < thread_count
      → init_thread_ipc segment_count thread_count j ≡ some (lo, hi)
      → (lower_of j ≡ lo) × (lower_of (j + 1) ≡ hi)
  range_of j lo hi less run = elim (Bool-cases (leb segment_count j)) [
    | inl idle ↦ absurd (none-ne-some (lo, hi) (sym (idle_thread j idle) ∙ run))
    | inr busy ↦
        let both : ◌≡◌ {A = ℕ × ℕ} (lower_of j, lower_of (j + 1)) (lo, hi) =
          some-injective (lower_of j, lower_of (j + 1)) (lo, hi)
            (sym (init_thread_ipc-lower_of j less (ground arith)) ∙ run) in
        (ap (λ (r : ℕ × ℕ). r.0) both, ap (λ (r : ℕ × ℕ). r.1) both)
  ]

  same_thread :
      (s i j : ℕ)
      → lower_of i ≤ s
      → s < lower_of (i + 1)
      → lower_of j ≤ s
      → s < lower_of (j + 1)
      → j ≡ i
  same_thread s i j lo hi lo' hi' = elim (Bool-cases (ltb i j)) [
    | inl after ↦ absurd (omega (arith, ordered i j (ground arith)))
    | inr not_after ↦ elim (Bool-cases (ltb j i)) [
      | inl before ↦ absurd (omega (arith, ordered j i (ground arith)))
      | inr not_before ↦ ground arith
    ]
  ]

  -- For any number of threads above 0 and any number of segments below 256, each segment is in the
  -- range that `init_thread_ipc` gives to exactly one thread.
  pub init_thread_ipc-partition :
      (s : ℕ)
      → s < segment_count
      → (i lo hi : ℕ) × (i < thread_count)
        × (init_thread_ipc segment_count thread_count i ≡ some (lo, hi))
        × (lo ≤ s)
        × (s < hi)
        × ((j lo' hi' : ℕ)
            → j < thread_count
            → init_thread_ipc segment_count thread_count j ≡ some (lo', hi')
            → lo' ≤ s
            → s < hi'
            → j ≡ i)
  init_thread_ipc-partition s within =
      let (i, less, lo, hi) = thread_of s thread_count (omega (arith, up_to-thread_count)) in
      (
        i,
        lower_of i,
        lower_of (i + 1),
        less,
        init_thread_ipc-lower_of i less (thread_below i less (omega arith)),
        lo,
        hi,
        λ j lo' hi' less' run lo_le lt_hi.
            let (low, high) = range_of j lo' hi' less' run in
            same_thread s i j lo hi (omega (arith, low)) (omega (arith, high)),
      )
