-- ===== src/FipsBuf/Detach.antt =====
-- `add_flag_affected_readers`, `fips_buf_detach` and `fips_buf_destroy`, on the assignments of threads.
use fips_ipc.Prelude.{
  ℕ, zero, suc, ◌+◌, ◌/◌, ◌%◌, ◌^◌, Bool, true, false, not, ◌&&◌, ◌||◌, Option, none, some, List,
  [], ◌∷◌, ◌++◌, ◌==◌, ltb, if◌then◌else◌, take, drop, get_or, set, replicate,
}
use fips_ipc.FipsBuf.Assign.{
  Assignment, in_use, get_reader_thread_count, get_writer_thread_count, reassign_readers,
}
use fips_ipc.FipsBuf.Attach.{
  AttachCode, attached, uninitialized, threads_still_attached, Role, writer_role, reader_role,
  Threads, no_assignment, reassigned,
}

-- `flags |= FIPS_BUF_FLAG_TRAILING`
abbrev pub trailing : Assignment → Assignment
trailing a = record a { flags = if a.flags / 2 % 2 == 1 then a.flags else a.flags + 2 }

-- The innermost loop, from segment `k` on with the segments still to be found: whether that of the
-- writer is found, and whether the segments end too early.
unfoldable pub reads_segment : ℕ → ℕ → ℕ → List ℕ → Bool × Bool
reads_segment thread_index k zero ws = (false, false)
reads_segment thread_index k (suc left) [] = (false, true)
reads_segment thread_index k (suc left) (w ∷ ws) =
    let rest = reads_segment thread_index (k + 1) left ws in
    let passed = reads_segment thread_index (k + 1) (suc left) ws in
    if w == 1 then (k == thread_index || rest.0, rest.1) else passed

-- The loop over the threads of a reader: whether it stopped early, the count, and the threads.
unfoldable pub flag_threads : ℕ → List ℕ → List Assignment → Bool × ℕ × List Assignment
unfolding reads_segment
flag_threads thread_index ws [] = (false, 0, [])
flag_threads thread_index ws (a ∷ threads) =
    let (stops, n, rest) = flag_threads thread_index ws threads in
    let (found, ends) =
      reads_segment thread_index a.start_segment a.count (drop a.start_segment ws) in
    let flagged = if found then trailing a else a in
    if in_use a
    then (if ends
        then (true, 0, flagged ∷ threads)
        else (stops, (if found then n + 1 else n), flagged ∷ rest))
    else (stops, n, a ∷ rest)

-- The loop over the readers.
unfoldable pub flag_readers :
    ℕ → List ℕ → List (List Assignment) → Bool × ℕ × List (List Assignment)
unfolding flag_threads
flag_readers thread_index ws [] = (false, 0, [])
flag_readers thread_index ws (threads ∷ readers) =
    let (stops, n, flagged) = flag_threads thread_index ws threads in
    let (stops', m, rest) = flag_readers thread_index ws readers in
    if stops then (true, 0, flagged ∷ readers) else (stops', n + m, flagged ∷ rest)

-- The error FIPS_BUF_ERROR_CORRUPTED is the number 14.
unfoldable pub add_flag_affected_readers : ℕ → Threads → ℕ × Threads
unfolding flag_readers
add_flag_affected_readers thread_index t =
    let ws = take t.header.segment_count t.writers in
    let (stops, n, flagged) = flag_readers thread_index ws (take t.header.reader_count t.readers) in
    (
      (if stops then 14 else n),
      record t { readers = flagged ++ drop t.header.reader_count t.readers },
    )

-- For a thread by its index.
unfoldable pub detach_writer : ℕ → Threads → Option Threads
unfolding add_flag_affected_readers reassigned
detach_writer thread_index t =
    let (reader_count, flagged) = add_flag_affected_readers thread_index t in
    reassigned (record flagged {
      writers = set flagged.writers thread_index (if ltb 0 reader_count then 2 else 0);
    })

unfoldable pub detach_reader : ℕ → ℕ → Threads → Option Threads
unfolding reassigned
detach_reader reader_index thread_index t =
    let threads = get_or t.readers reader_index [] in
    reassigned
      (record t { readers = set t.readers reader_index (set threads thread_index no_assignment) })

unfoldable pub detached : Option Threads → Option (AttachCode × Threads)
detached none = none
detached (some t) = some (attached, t)

unfoldable pub fips_buf_detach : Role → ℕ → Threads → Option (AttachCode × Threads)
unfolding detach_writer detach_reader detached
fips_buf_detach writer_role thread_index t =
    if t.header.initialized == 0
    then some (uninitialized, t)
    else detached (detach_writer thread_index t)
fips_buf_detach (reader_role reader_index) thread_index t =
    if t.header.initialized == 0
    then some (uninitialized, t)
    else detached (detach_reader reader_index thread_index t)

-- The end of `fips_buf_destroy`; whether the segment is removed stands in `initialized`.
unfoldable pub close : ℕ → Threads → Option (AttachCode × Threads)
unfolding reassign_readers
close flags t =
    let hdr = t.header in
    let last = flags / 2 % 2 == 1 || (hdr.writer_count == 0 && hdr.reader_count == 0) in
    elim (reassign_readers hdr t.writers t.readers) [
      | none ↦ none
      | some readers ↦ some (
        attached,
        record t {
          readers = readers;
          header = if last then record hdr { initialized = 2 } else hdr;
        },
      )
    ]

-- `flags & FIPS_BUF_FLAG_FORCE`
abbrev pub is_forced : ℕ → Bool
is_forced flags = flags % 2 == 1

unfoldable pub destroy_writer : ℕ → Threads → Option (AttachCode × Threads)
unfolding get_writer_thread_count close
destroy_writer flags t =
    let hdr = t.header in
    if ltb 1 (get_writer_thread_count (take hdr.segment_count t.writers)) && not (is_forced flags)
    then some (threads_still_attached, t)
    else close flags
        (record t { header = record hdr { writer_count = (hdr.writer_count + 255) % 2 ^ 8 } })

unfoldable pub destroy_reader : ℕ → ℕ → Threads → Option (AttachCode × Threads)
unfolding get_reader_thread_count close
destroy_reader reader_index flags t =
    let hdr = t.header in
    let threads = get_or t.readers reader_index [] in
    let cleared =
      replicate hdr.max_reader_thread_count no_assignment
      ++ drop hdr.max_reader_thread_count threads in
    if ltb 1 (get_reader_thread_count (take hdr.max_reader_thread_count threads))
      && not (is_forced flags)
    then some (threads_still_attached, t)
    else close flags (record t {
      header = record hdr { reader_count = (hdr.reader_count + 255) % 2 ^ 8 };
      readers = set t.readers reader_index cleared;
    })

unfoldable pub fips_buf_destroy : Role → ℕ → Threads → Option (AttachCode × Threads)
unfolding destroy_writer destroy_reader
fips_buf_destroy writer_role flags t =
    if t.header.initialized == 0 then some (uninitialized, t) else destroy_writer flags t
fips_buf_destroy (reader_role reader_index) flags t =
    if t.header.initialized == 0
    then some (uninitialized, t)
    else destroy_reader reader_index flags t
