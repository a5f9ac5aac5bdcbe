-- ===== src/FipsBuf/Attach.antt =====
-- `fips_buf_attach`, on the assignments of threads.
use fips_ipc.Prelude.{
  ℕ, suc, ◌+◌, ◌%◌, ◌^◌, Bool, ◌&&◌, Option, none, some, List, [], ◌∷◌, ◌==◌, if◌then◌else◌, take,
  get_or, set,
}
use fips_ipc.FipsBuf.{Header}
use fips_ipc.FipsBuf.Assign.{Assignment, in_use, reassign_readers}

-- The results of `fips_buf_attach`, `fips_buf_detach` and `fips_buf_destroy`.
pub data AttachCode : Type 0 where
  attached uninitialized no_free_segment threads_still_attached : AttachCode

-- `enum fips_buf_role`, with the index of the reader.
pub data Role : Type 0 where
  writer_role : Role
  reader_role : ℕ → Role

-- The header with its generation and the arrays of assignments, those of the readers one by one.
pub record Threads : Type 0 where
  pub header : Header
  pub generation : ℕ
  pub writers : List ℕ
  pub readers : List (List Assignment)

-- What stands in memory behind the array of the writers, and behind that of a reader.
pub record Behind : Type 0 where
  pub writer : ℕ
  pub reader : Assignment

abbrev pub no_assignment : Assignment
no_assignment = record { start_segment = 0; count = 0; flags = 0 }

-- `tag == 0`
abbrev pub is_blank : Assignment → Bool
is_blank a = a.start_segment == 0 && a.count == 0 && a.flags == 0

-- The loop over the segments, up to the first that is free.
unfoldable pub free_writer : List ℕ → ℕ
free_writer [] = 0
free_writer (w ∷ ws) = let rest = free_writer ws in if w == 0 then 0 else suc rest

-- The loop over the threads of a reader, up to the first that is not in use.
unfoldable pub free_reader : List Assignment → ℕ
free_reader [] = 0
free_reader (a ∷ threads) = let rest = free_reader threads in if in_use a then suc rest else 0

-- `reassign_readers` and the new generation, at the end of `fips_buf_attach` and `_detach`. In all
-- that follows, `none` is undefined behaviour of `reassign_readers`.
unfoldable pub reassigned : Threads → Option Threads
unfolding reassign_readers
reassigned t = elim (reassign_readers t.header t.writers t.readers) [
  | none ↦ none
  | some readers ↦ some (record t { readers = readers; generation = (t.generation + 1) % 2 ^ 64 })
]

-- The end of `fips_buf_attach` for a thread of an index.
unfoldable pub attached_as : ℕ → Threads → Option (AttachCode × ℕ × Threads)
unfolding reassigned
attached_as i t = elim (reassigned t) [ none ↦ none | some after ↦ some (attached, i, after) ]

-- The result, the index of the thread, and the assignments.
unfoldable pub attach_writer_thread : Behind → Threads → Option (AttachCode × ℕ × Threads)
unfolding free_writer attached_as
attach_writer_thread behind t =
    let ws = take t.header.segment_count t.writers in
    let i = free_writer ws in
    if get_or ws i behind.writer == 0
    then attached_as i (record t { writers = set t.writers i 1 })
    else some (no_free_segment, i, t)

unfoldable pub attach_reader_thread : Behind → ℕ → Threads → Option (AttachCode × ℕ × Threads)
unfolding free_reader attached_as
attach_reader_thread behind reader_index t =
    let threads = get_or t.readers reader_index [] in
    let i = free_reader (take t.header.max_reader_thread_count threads) in
    let a = get_or threads i behind.reader in
    if is_blank a
    then attached_as i
        (record t { readers = set t.readers reader_index (set threads i (record a { flags = 1 })) })
    else some (no_free_segment, i, t)

unfoldable pub fips_buf_attach : Behind → Role → Threads → Option (AttachCode × ℕ × Threads)
unfolding attach_writer_thread attach_reader_thread
fips_buf_attach behind writer_role t =
    if t.header.initialized == 0 then some (uninitialized, 0, t) else attach_writer_thread behind t
fips_buf_attach behind (reader_role reader_index) t =
    if t.header.initialized == 0
    then some (uninitialized, 0, t)
    else attach_reader_thread behind reader_index t
