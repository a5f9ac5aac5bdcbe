-- ===== src/Sf2b/IpcFipsExamples.antt =====
-- A banning thread that keeps one segment of 256 lines, of which it may read the first 150.
use fips_ipc.Prelude.{
  ℕ, zero, suc, ◌<◌, ◌≡◌, ◌⊎◌, refl, false, Option, none, some, List, [], ◌∷◌, length, All, get_or,
  arith,
}
use fips_ipc.FipsBuf.{Pointer, Segment, Iovec}
use fips_ipc.FipsBuf.Cache.{remove_cached_entries}
use fips_ipc.FipsBuf.Ring.{claim}
use fips_ipc.FipsBuf.Attach.{Threads, Behind}
use fips_ipc.FipsBuf.Returns.{SqeList, no_range, commit_sqes}
use fips_ipc.FipsBuf.RotationLaws.{Keeps, TooFew}
use fips_ipc.Sf2b.IpcFips.{queue_size, IpcThread, read_state, serve_lines}
use fips_ipc.Sf2b.IpcFipsLaws.{Quiet, advanced, next_offset, serve_lines-Quiet}

abbrev threads : Threads
threads = record {
  header = record {
    initialized = 1;
    checksum = 0;
    segment_count = 1;
    max_reader_count = 1;
    max_reader_thread_count = 1;
    reader_count = 1;
    writer_count = 1;
    line_count_exp = 8;
    overwrite = false;
    line_size = 254;
    max_sqe_count = 4;
    first_segment_offset = 0;
    writer_assignments_offset = 0;
    reader_assignments_offset = 0;
  };
  generation = 7;
  writers = 1 ∷ [];
  readers = [];
}

abbrev segment : Segment
segment = record {
  index = 0;
  writer = record { head_offset = 150; commit_offset = 150 };
  readers = record { head_offset = 0; commit_offset = 0 } ∷ [];
  data_offset = 4096;
  width_at = λ o. 20;
}

abbrev list : SqeList
list = record {
  capacity = 4;
  write_index = 0;
  read_index = 0;
  first_offset = none;
  sqes = λ i. record { range = no_range; next_offset = none };
}

abbrev thread : IpcThread
thread = record {
  rotation = 0;
  cache = record {
    current_segment = some 0 ∷ none ∷ [];
    assigned_reader_count = 1;
    trailing_buffers_count = 0;
    assignment_generation = 7;
  };
  tag = no_range;
  segments = (segment, list ∷ []) ∷ [];
}

abbrev nothing_behind : Behind
nothing_behind = record { writer = 0; reader = record { start_segment = 0; count = 0; flags = 0 } }

slots_kept :
    (i : ℕ) → i < 1 → get_or thread.cache.current_segment i none ≡ some (get_or (0 ∷ []) i 0)
slots_kept zero h = refl
slots_kept (suc i) h = absurd (omega arith)

thread-Keeps : Keeps thread.cache (0 ∷ [])
thread-Keeps = record {
  some_kept = omega arith;
  few = omega arith;
  assigned = refl;
  no_trailing = refl;
  slots = slots_kept;
}

thread-Quiet : Quiet 0 0 thread.segments
thread-Quiet = record {
  known = omega arith;
  own_index = refl;
  own_reader = omega arith;
  returned = refl;
  none_waits = refl;
}

serve_lines-Quiet_example :
    (recv_retval : ℕ) × (iovecs : List Iovec) × (th' : IpcThread) × (serve_lines nothing_behind none
        threads 0 1 thread
      ≡ some (recv_retval, iovecs, th'))
    × (th'.cache ≡ thread.cache)
    × All (λ k. Quiet 0 k th'.segments) (0 ∷ [])
    × (((recv_retval ≡ 0)
          × (th'.segments ≡ thread.segments)
          × All (TooFew threads.header 0 queue_size (0 ∷ []) (read_state thread)) (0 ∷ []))
        ⊎ ((r : ℕ) × (r < 1)
            × (recv_retval ≡ queue_size)
            × (th'.segments
                ≡ advanced 0
                    (next_offset threads.header 0 (get_or (0 ∷ []) r 0) thread.segments)
                    (get_or (0 ∷ []) r 0)
                    thread.segments)))
serve_lines-Quiet_example =
    serve_lines-Quiet nothing_behind none threads 0 0 thread (0 ∷ []) refl thread-Keeps
      (thread-Quiet, tt)

-- The first round reads the lines 0 to 99, and the second finds too few.
abbrev outcome : Option (ℕ × List Iovec × IpcThread) → ℕ × ℕ × List Pointer
outcome none = (0, 0, [])
outcome (some (recv_retval, iovecs, th)) =
    (recv_retval, length iovecs, (get_or th.segments 0 (segment, [])).0.readers)

abbrev second : Option (ℕ × List Iovec × IpcThread) → Option (ℕ × List Iovec × IpcThread)
second none = none
second (some (recv_retval, iovecs, th)) = serve_lines nothing_behind none threads 0 1 th

first_round :
    outcome (serve_lines nothing_behind none threads 0 1 thread)
    ≡ (100, 100, record { head_offset = 100; commit_offset = 100 } ∷ [])
unfolding serve_lines claim commit_sqes
first_round = refl

second_round :
    outcome (second (serve_lines nothing_behind none threads 0 1 thread))
    ≡ (0, 0, record { head_offset = 100; commit_offset = 100 } ∷ [])
unfolding serve_lines claim commit_sqes remove_cached_entries
second_round = refl
