-- ===== src/FipsBuf/AssignLaws.antt =====
-- `reassign_readers` on the threads of one reader, where no writer is trailing.
use fips_ipc.Prelude.{
  ℕ, zero, suc, ◌+◌, ◌-◌, ◌*◌, ◌/◌, ◌%◌, ◌^◌, ◌<◌, ◌≤◌, ◌≡◌, refl, ap, inl, inr, min, arith, true,
  false, Bool-cases, none, some, List, [], ◌∷◌, ◌==◌, ltb, if◌then◌else◌, get_or, All, take, drop,
  ◌++◌, ==_iff,
}
use mathlib.Core.Path.{fun_ext}
use native.Mathlib.Nat.{div-add-mod}
use fips_ipc.FipsBuf.Assign.{
  Assignment, in_use, get_reader_thread_count, get_writer_thread_count, active_writers,
  deal_writers, share_writers, disconnect, assign_writers, reassign_reader, reassign_each,
  reassign_readers,
}
use fips_ipc.FipsBuf.Attach.{Threads, reassigned}
use fips_ipc.FipsBuf.Portions.{
  shared, dealt, portion, Covers, portion_none, portion_more, portion_less, portion-Covers,
  quotient_zero, quotient_pos,
}

-- The segments whose writer is in use, from segment `j` on.
unfoldable pub segments_in_use : ℕ → List ℕ → List ℕ
segments_in_use j [] = []
segments_in_use j (w ∷ ws) =
    let rest = segments_in_use (j + 1) ws in if w == 1 then j ∷ rest else rest

-- No writer is trailing.
abbrev pub NoTrailing : List ℕ → Type 0
NoTrailing ws = All (λ w. w < 2) ws

-- The array holds exactly the segments in use.
pub active_writers-segments_in_use :
    (room j : ℕ) (ws : List ℕ)
    → NoTrailing ws
    → get_writer_thread_count ws ≤ room
    → active_writers room j ws ≡ some (segments_in_use j ws)
unfolding active_writers segments_in_use get_writer_thread_count
active_writers-segments_in_use room j [] plain h = refl
active_writers-segments_in_use zero j (zero ∷ ws) (small, plain) h =
    active_writers-segments_in_use zero (j + 1) ws plain h
active_writers-segments_in_use zero j (suc zero ∷ ws) (small, plain) h = absurd (omega arith)
active_writers-segments_in_use (suc room) j (zero ∷ ws) (small, plain) h =
    active_writers-segments_in_use (suc room) (j + 1) ws plain h
active_writers-segments_in_use (suc room) j (suc zero ∷ ws) (small, plain) h =
    rw (active_writers-segments_in_use room (j + 1) ws plain (omega arith)) refl
active_writers-segments_in_use zero j (suc (suc w) ∷ ws) (small, plain) h = absurd (omega arith)
active_writers-segments_in_use (suc room) j (suc (suc w) ∷ ws) (small, plain) h =
    absurd (omega arith)

segments_in_use_empty :
    (j : ℕ) (ws : List ℕ) → get_writer_thread_count ws ≡ 0 → segments_in_use j ws ≡ []
unfolding segments_in_use get_writer_thread_count
segments_in_use_empty j [] h = refl
segments_in_use_empty j (w ∷ ws) h = elim (Bool-cases (w == 1)) [
  | inl e ↦ absurd (ground arith)
  | inr e ↦ rw e (segments_in_use_empty (j + 1) ws (ground arith))
]

-- The threads in use get the places that a function tells for their number, from `k` on: the first
-- of their writers by its place among the writers, and how many there are.
unfoldable pub give : List ℕ → (ℕ → ℕ × ℕ) → ℕ → List Assignment → List Assignment
give writers f k [] = []
give writers f k (a ∷ threads) =
    let given =
      record a { start_segment = get_or writers (f k).0 0; count = (f k).1 }
      ∷ give writers f (k + 1) threads in
    let skipped = a ∷ give writers f k threads in if in_use a then given else skipped

-- A thread in use with its writers, before the threads that follow.
abbrev placed : Assignment → List ℕ → ℕ → ℕ → List Assignment → List Assignment
placed a writers place n rest =
    record a { start_segment = get_or writers place 0; count = n } ∷ rest

placed-eq :
    (a : Assignment) (writers : List ℕ) {i j n m : ℕ} {xs ys : List Assignment}
    → i ≡ j
    → n ≡ m
    → xs ≡ ys
    → placed a writers i n xs ≡ placed a writers j m ys
placed-eq a writers p q r = cc

disconnect-give :
    (f : ℕ → ℕ × ℕ) (k : ℕ) (threads : List Assignment)
    → ((i : ℕ) → f i ≡ (0, 0))
    → disconnect threads ≡ give [] f k threads
unfolding disconnect give
disconnect-give f k [] h = refl
disconnect-give f k (a ∷ threads) h = elim (Bool-cases (in_use a)) [
  | inl used ↦
      rw (used, h k) (placed-eq a [] {i = 0} refl refl (disconnect-give f (k + 1) threads h))
  | inr idle ↦ rw idle (ap (λ ts. a ∷ ts) (disconnect-give f k threads h))
]

share_writers-give :
    (writers : List ℕ) (active readers s r : ℕ) (threads : List Assignment)
    → r ≡ readers - (if ltb s (active * (readers / active)) then active * (readers / active) else s)
    → share_writers writers active (readers / active) s r threads
      ≡ give writers (shared active readers) s threads
unfolding share_writers give
share_writers-give writers active readers s r [] h = refl
share_writers-give writers active readers s r (a ∷ threads) h =
    let p = readers / active in
    let b = active * p in
    elim (Bool-cases (in_use a)) [
      | inr idle ↦
          rw idle (ap (λ ts. a ∷ ts) (share_writers-give writers active readers s r threads h))
      | inl used ↦ elim (Bool-cases (ltb s b)) [
        | inl first ↦
            rw (used, first)
              (placed-eq a writers refl refl
                (share_writers-give writers active readers (s + 1) r threads (ground (arith, h))))
        | inr spare ↦
            rw (used, spare)
              (placed-eq a writers (ground (arith, h)) refl (
                share_writers-give writers active readers (s + 1) (r - 1) threads
                  (ground (arith, h))))
      ]
    ]

deal_writers-give :
    (writers : List ℕ) (active readers k s r : ℕ) (threads : List Assignment)
    → s ≡ k * (active / readers) + min k (active % readers)
    → r ≡ active % readers - k
    → deal_writers writers (active / readers) s r threads
      ≡ give writers (dealt active readers) k threads
unfolding deal_writers give
deal_writers-give writers active readers k s r [] h e = refl
deal_writers-give writers active readers k s r (a ∷ threads) h e =
    let q = active / readers in
    let m = active % readers in
    elim (Bool-cases (in_use a)) [
      | inr idle ↦
          rw idle (ap (λ ts. a ∷ ts) (deal_writers-give writers active readers k s r threads h e))
      | inl used ↦ elim (Bool-cases (ltb 0 r)) [
        | inl more ↦
            let early : ltb k m ≡ true = ground arith in
            rw (used, more, early)
              (placed-eq a writers h refl (
                deal_writers-give writers active readers (k + 1) (s + (q + 1)) (r - 1) threads
                  (ground arith) (omega arith)))
        | inr plain ↦
            let late : ltb k m ≡ false = ground arith in
            rw (used, plain, late)
              (placed-eq a writers h refl (
                deal_writers-give writers active readers (k + 1) (s + q) r threads (ground arith)
                  (ground arith)))
      ]
    ]

assign_writers-give :
    (writers : List ℕ) (threads : List Assignment)
    → let readers = get_reader_thread_count threads in
      (active : ℕ)
      → 0 < readers
      → (active == 0) ≡ false
      → assign_writers active readers writers threads
        ≡ give writers (portion active readers) 0 threads
unfolding assign_writers
assign_writers-give writers threads active some_readers somebody =
    let readers = get_reader_thread_count threads in
    elim (Bool-cases (ltb active readers)) [
      | inl fewer ↦
          let same : portion active readers ≡ shared active readers =
            fun_ext (portion_more active readers somebody fewer) in
          rw (quotient_zero active readers (ground (arith, fewer)), same)
            (share_writers-give writers active readers 0 (readers % active) threads
              (ground (arith, div-add-mod readers active)))
      | inr more ↦
          let same : portion active readers ≡ dealt active readers =
            fun_ext (portion_less active readers somebody more) in
          rw (quotient_pos active readers some_readers (ground (arith, more)), same)
            (deal_writers-give writers active readers 0 0 (active % readers) threads (omega arith)
              (omega arith))
    ]

reassigned_lem :
    (ws : List ℕ) (threads : List Assignment)
    → NoTrailing ws
    → 0 < get_reader_thread_count threads
    → reassign_reader ws threads
      ≡ some (
          give
            (segments_in_use 0 ws)
            (portion (get_writer_thread_count ws) (get_reader_thread_count threads))
            0
            threads)
unfolding reassign_reader
reassigned_lem ws threads plain some_readers =
    let active = get_writer_thread_count ws in
    let readers = get_reader_thread_count threads in
    let some_there : (readers == 0) ≡ false = ground arith in
    elim (Bool-cases (active == 0)) [
      | inl nobody ↦
          rw (some_there, nobody, segments_in_use_empty 0 ws ((==_iff active 0).0 nobody))
            (ap some (
              disconnect-give (portion active readers) 0 threads
                (portion_none active readers nobody)))
      | inr somebody ↦
          rw (some_there, somebody, active_writers-segments_in_use active 0 ws plain (omega arith))
            (ap some
              (assign_writers-give (segments_in_use 0 ws) threads active some_readers somebody))
    ]

-- With no writer trailing, nothing is stored behind the end of the array.
reassign_reader_total :
    (ws : List ℕ) (threads : List Assignment)
    → NoTrailing ws
    → (after : List Assignment) × (reassign_reader ws threads ≡ some after)
unfolding reassign_reader
reassign_reader_total ws threads plain =
    let active = get_writer_thread_count ws in
    let readers = get_reader_thread_count threads in
    elim (Bool-cases (readers == 0)) [
      | inl idle ↦ (threads, rw idle refl)
      | inr busy ↦ elim (Bool-cases (active == 0)) [
        | inl nobody ↦ (disconnect threads, rw (busy, nobody) refl)
        | inr somebody ↦ (
          assign_writers active readers (segments_in_use 0 ws) threads,
          rw (busy, somebody, active_writers-segments_in_use active 0 ws plain (omega arith)) refl,
        )
      ]
    ]

reassign_each_total :
    (ws : List ℕ) (readers : List (List Assignment))
    → NoTrailing ws
    → (after : List (List Assignment)) × (reassign_each ws readers ≡ some after)
unfolding reassign_each
reassign_each_total ws [] plain = ([], refl)
reassign_each_total ws (threads ∷ readers) plain =
    let (first, run) = reassign_reader_total ws threads plain in
    let (rest, others) = reassign_each_total ws readers plain in
    (first ∷ rest, rw (reassign_each, run, others) refl)

pub reassigned_total :
    (t : Threads)
    → NoTrailing (take t.header.segment_count t.writers)
    → (after : Threads) × (reassigned t ≡ some after)
unfolding reassigned reassign_readers
reassigned_total t plain =
    let hdr = t.header in
    let (each, run) =
      reassign_each_total (take hdr.segment_count t.writers) (take hdr.reader_count t.readers)
        plain in
    (
      record t {
        readers = each ++ drop hdr.reader_count t.readers;
        generation = (t.generation + 1) % 2 ^ 64;
      },
      rw (reassigned, reassign_readers, run) refl,
    )

-- For a reader with threads in use, when no writer is trailing, a round of `reassign_readers` stores
-- only within `active_writers`, gives the threads in use, in their order, their portions of the
-- segments in use, each by its first segment and the number of segments, and changes no other
-- thread. The portions of the threads are so that each segment in use is in that of some thread, and,
-- if there are not more threads than segments, of only this one.
pub reassign_reader-give :
    (ws : List ℕ) (threads : List Assignment)
    → NoTrailing ws
    → 0 < get_reader_thread_count threads
    → let active = get_writer_thread_count ws in
      let readers = get_reader_thread_count threads in
      (reassign_reader ws threads
        ≡ some (give (segments_in_use 0 ws) (portion active readers) 0 threads))
      × ((n : ℕ)
          → n < active
          → (k : ℕ) × (k < readers)
            × Covers active readers k n
            × (readers ≤ active → (j : ℕ) → j < readers → Covers active readers j n → j ≡ k))
reassign_reader-give ws threads plain some_readers = (
  reassigned_lem ws threads plain some_readers,
  portion-Covers (get_writer_thread_count ws) (get_reader_thread_count threads) some_readers,
)

-- The segments that are not free, trailing ones included.
unfoldable pub not_free : List ℕ → ℕ
not_free [] = 0
not_free (w ∷ ws) = let rest = not_free ws in if w == 0 then rest else suc rest

active_writers-overrun :
    (room j : ℕ) (ws : List ℕ) → room < not_free ws → active_writers room j ws ≡ none
unfolding active_writers not_free
active_writers-overrun room j [] h = absurd (omega arith)
active_writers-overrun zero j (w ∷ ws) h = elim (Bool-cases (w == 0)) [
  | inl free ↦ rw free (active_writers-overrun zero (j + 1) ws (ground arith))
  | inr taken ↦ rw taken refl
]
active_writers-overrun (suc room) j (w ∷ ws) h = elim (Bool-cases (w == 0)) [
  | inl free ↦ rw free (active_writers-overrun (suc room) (j + 1) ws (ground arith))
  | inr taken ↦ rw (taken, active_writers-overrun room (j + 1) ws (ground arith)) refl
]

-- For a reader with threads in use, when some writer is in use and the segments that are not free
-- are more than those in use, as with a trailing writer, a round of `reassign_readers` stores behind
-- the end of `active_writers`.
pub reassign_reader-overrun :
    (ws : List ℕ) (threads : List Assignment)
    → 0 < get_reader_thread_count threads
    → 0 < get_writer_thread_count ws
    → get_writer_thread_count ws < not_free ws
    → reassign_reader ws threads ≡ none
unfolding reassign_reader
reassign_reader-overrun ws threads some_readers some_writers more =
    let busy : (get_reader_thread_count threads == 0) ≡ false = ground arith in
    let somebody : (get_writer_thread_count ws == 0) ≡ false = ground arith in
    rw (busy, somebody, active_writers-overrun (get_writer_thread_count ws) 0 ws more) refl
