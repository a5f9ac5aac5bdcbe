-- ===== src/FipsBuf/Assign.antt =====
-- The distribution of the writer threads' segments to the threads of each reader:
-- `get_reader_thread_count`, `get_writer_thread_count` and `reassign_readers`.
use fips_ipc.Prelude.{
  ℕ, zero, suc, ◌+◌, ◌-◌, ◌*◌, ◌/◌, ◌%◌, Bool, Option, none, some, List, [], ◌∷◌, ◌++◌, ◌==◌, ltb,
  if◌then◌else◌, take, drop, get_or,
}
use fips_ipc.FipsBuf.{Header}

-- `fips_buf_assignment_t`
pub record Assignment : Type 0 where
  pub start_segment : ℕ
  pub count : ℕ
  pub flags : ℕ

-- `flags & FIPS_BUF_FLAG_IN_USE`
abbrev pub in_use : Assignment → Bool
in_use a = a.flags % 2 == 1

-- The loop over the threads of one reader.
unfoldable pub get_reader_thread_count : List Assignment → ℕ
get_reader_thread_count [] = 0
get_reader_thread_count (a ∷ threads) =
    let rest = get_reader_thread_count threads in if in_use a then suc rest else rest

-- The loop over the writer assignments.
unfoldable pub get_writer_thread_count : List ℕ → ℕ
get_writer_thread_count [] = 0
get_writer_thread_count (w ∷ ws) =
    let rest = get_writer_thread_count ws in if w == 1 then suc rest else rest

-- The loop that stores segments in the array `active_writers`, from segment `j` on with the room
-- that is left in the array. It stores all that are not free, and `none` is a store behind the end.
unfoldable pub active_writers : ℕ → ℕ → List ℕ → Option (List ℕ)
active_writers room j [] = some []
active_writers zero j (w ∷ ws) =
    let rest = active_writers zero (j + 1) ws in if w == 0 then rest else none
active_writers (suc room) j (w ∷ ws) =
    let skipped = active_writers (suc room) (j + 1) ws in
    let stored : Option (List ℕ) = elim (active_writers room (j + 1) ws) [
      | none ↦ none
      | some rest ↦ some (j ∷ rest)
    ] in
    if w == 0 then skipped else stored

-- No writer: the threads in use get nothing.
unfoldable pub disconnect : List Assignment → List Assignment
disconnect [] = []
disconnect (a ∷ threads) =
    let rest = disconnect threads in
    if in_use a then record a { start_segment = 0; count = 0 } ∷ rest else a ∷ rest

-- More threads than writers: each gets one, the last ones those that are left over.
unfoldable pub share_writers : List ℕ → ℕ → ℕ → ℕ → ℕ → List Assignment → List Assignment
share_writers writers active per_writer assigned remainder [] = []
share_writers writers active per_writer assigned remainder (a ∷ threads) =
    let first =
      record a { start_segment = get_or writers (assigned / per_writer) 0; count = 1 }
      ∷ share_writers writers active per_writer (assigned + 1) remainder threads in
    let spare =
      record a { start_segment = get_or writers (remainder - 1) 0; count = 1 }
      ∷ share_writers writers active per_writer (assigned + 1) (remainder - 1) threads in
    let skipped = a ∷ share_writers writers active per_writer assigned remainder threads in
    if in_use a then (if ltb assigned (active * per_writer) then first else spare) else skipped

-- As many writers as threads, or more: the first threads get one more.
unfoldable pub deal_writers : List ℕ → ℕ → ℕ → ℕ → List Assignment → List Assignment
deal_writers writers per_reader assigned remainder [] = []
deal_writers writers per_reader assigned remainder (a ∷ threads) =
    let more =
      record a { start_segment = get_or writers assigned 0; count = per_reader + 1 }
      ∷ deal_writers writers per_reader (assigned + (per_reader + 1)) (remainder - 1) threads in
    let plain =
      record a { start_segment = get_or writers assigned 0; count = per_reader }
      ∷ deal_writers writers per_reader (assigned + per_reader) remainder threads in
    let skipped = a ∷ deal_writers writers per_reader assigned remainder threads in
    if in_use a then (if ltb 0 remainder then more else plain) else skipped

-- What the array is used for.
unfoldable pub assign_writers : ℕ → ℕ → List ℕ → List Assignment → List Assignment
unfolding share_writers deal_writers
assign_writers active readers writers threads =
    if active / readers == 0
    then share_writers writers active (readers / active) 0 (readers % active) threads
    else deal_writers writers (active / readers) 0 (active % readers) threads

-- One round of `reassign_readers`, which sizes the array by the writers in use; `none` is undefined
-- behaviour.
unfoldable pub reassign_reader : List ℕ → List Assignment → Option (List Assignment)
unfolding get_reader_thread_count get_writer_thread_count active_writers disconnect assign_writers
reassign_reader writer_assignments threads =
    let active = get_writer_thread_count writer_assignments in
    let readers = get_reader_thread_count threads in
    if readers == 0
    then some threads
    else if active == 0
    then some (disconnect threads)
    else elim (active_writers active 0 writer_assignments) [
      | none ↦ none
      | some writers ↦ some (assign_writers active readers writers threads)
    ]

-- The loop over the readers.
unfoldable pub reassign_each : List ℕ → List (List Assignment) → Option (List (List Assignment))
unfolding reassign_reader
reassign_each ws [] = some []
reassign_each ws (threads ∷ readers) = elim (reassign_reader ws threads) [
  | none ↦ none
  | some assigned ↦ elim (reassign_each ws readers) [
    | none ↦ none
    | some rest ↦ some (assigned ∷ rest)
  ]
]

-- `reassign_readers`, on the writer assignments and on the thread assignments of every reader.
unfoldable pub reassign_readers :
    Header → List ℕ → List (List Assignment) → Option (List (List Assignment))
unfolding reassign_each
reassign_readers hdr writer_assignments readers =
    let ws = take hdr.segment_count writer_assignments in
    elim (reassign_each ws (take hdr.reader_count readers)) [
      | none ↦ none
      | some assigned ↦ some (assigned ++ drop hdr.reader_count readers)
    ]
