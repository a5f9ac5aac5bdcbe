-- ===== src/FipsBuf/Examples.antt =====
-- A buffer of four lines with two readers, and the theorems about the buffer at work on it.
use fips_ipc.Prelude.{
  ℕ, suc, ◌≡◌, ◌≤◌, ◌<◌, ◌⊎◌, refl, arith, true, false, List, [], ◌∷◌, none, some, length, get_or,
}
use mathlib.Core.Option
use fips_ipc.FipsBuf.Rotation.{ReadState, read_empty, fips_buf_read, served}
use fips_ipc.FipsBuf.RotationLaws.{Keeps, TooFew, Gives, fips_buf_read-Keeps}
use fips_ipc.FipsBuf.Ring.{Range}
use fips_ipc.Prelude.{All, zero}
use fips_ipc.FipsBuf.Cache.{
  updated, update_cached_reader_values, trailing_segments, active_segments,
}
use fips_ipc.FipsBuf.{success, no_space, corrupted, Pointer, Header, Segment, Iovec}
use fips_ipc.FipsBuf.Ring.{get_write_buffer, write, write_iovecs}
use fips_ipc.FipsBuf.RingLaws.{IsValid, HasRoom, get_write_buffer-HasRoom, write-corrupted}
use fips_ipc.FipsBuf.Assign.{
  Assignment, get_reader_thread_count, get_writer_thread_count, reassign_reader,
}
use fips_ipc.FipsBuf.Attach.{attached, writer_role, reader_role, Threads, Behind, fips_buf_attach}
use fips_ipc.FipsBuf.Detach.{fips_buf_detach, fips_buf_destroy}
use fips_ipc.FipsBuf.Portions.{portion, Covers}
use fips_ipc.FipsBuf.AssignLaws.{segments_in_use, give, reassign_reader-give}
use fips_ipc.FipsBuf.Layout.{
  Sizes, Arg, setup_shm, same_checksum, get_segment_header, calculate_shared_memory_size,
}
use fips_ipc.FipsBuf.LayoutLaws.{IsPlaced, nowhere, setup_shm-layout}

abbrev hdr : Header
hdr = record {
  initialized = 1;
  checksum = 0;
  segment_count = 1;
  max_reader_count = 2;
  max_reader_thread_count = 1;
  reader_count = 2;
  writer_count = 1;
  line_count_exp = 2;
  overwrite = false;
  line_size = 6;
  max_sqe_count = 4;
  first_segment_offset = 100;
  writer_assignments_offset = 76;
  reader_assignments_offset = 84;
}

abbrev at : ℕ → ℕ → Pointer
at h c = record { head_offset = h; commit_offset = c }

abbrev seg : Pointer → Segment
seg w = record {
  index = 0;
  writer = w;
  readers = at 3 2 ∷ at 1 1 ∷ [];
  data_offset = 200;
  width_at = λ o. 0;
}

seg-IsValid : (h c : ℕ) → h < 4 → c < 4 → IsValid hdr (seg (at h c))
seg-IsValid h c lh lc = record {
  lines_bound = omega arith;
  head_in = lh;
  commit_in = lc;
  readers_in = ((omega arith, omega arith), ((omega arith, omega arith), tt));
  attached = refl;
}

-- The second reader still holds two lines, so there is room for one.
get_write_buffer-HasRoom_example :
    (HasRoom hdr 3 1 (at 3 2 ∷ at 1 1 ∷ [])
      × ((get_write_buffer hdr 1 (seg (at 3 3))).0 ≡ success)
      × ((get_write_buffer hdr 1 (seg (at 3 3))).1 ≡ write_iovecs hdr 200 3 0 1)
      × ((get_write_buffer hdr 1 (seg (at 3 3))).2 ≡ seg (at 0 3)))
    ⊎ ((¬ HasRoom hdr 3 1 (at 3 2 ∷ at 1 1 ∷ []))
        × ((get_write_buffer hdr 1 (seg (at 3 3))).0 ≡ no_space)
        × ((get_write_buffer hdr 1 (seg (at 3 3))).2 ≡ seg (at 3 3)))
get_write_buffer-HasRoom_example =
    get_write_buffer-HasRoom hdr (seg (at 3 3)) (seg-IsValid 3 3 (omega arith) (omega arith)) 1
      (omega arith) (omega arith) refl

abbrev one : List Iovec
one = record { iov_base = 226; iov_len = 5 } ∷ []

-- Lines 2, 3 and 0 are handed out, and the first of them is committed.
write-corrupted_example :
    ((write hdr one 1 (seg (at 1 2))).0 ≡ corrupted)
    × ((write hdr one 1 (seg (at 1 2))).1.writer ≡ at 1 2)
write-corrupted_example =
    write-corrupted hdr (seg (at 1 2)) (seg-IsValid 1 2 (omega arith) (omega arith)) 1 (omega arith)
      (omega arith) one (omega arith) (omega arith)

abbrev sizes : Sizes
sizes = record {
  header = 160;
  assignment = 8;
  segment_header = 48;
  pointer = 8;
  list = 88;
  sqe = 16;
}

abbrev arg : Arg
arg = record {
  name_bytes = none;
  overwrite = false;
  line_count_exp = 2;
  max_reader_count = 2;
  max_reader_thread_count = 3;
  max_segment_count = 2;
  line_size = 6;
  max_sqe_count = 4;
}

setup_shm-layout_example :
    let (new, segments) = setup_shm sizes arg (record hdr { initialized = 0 }, []) in
    (same_checksum arg new ≡ true)
    × (new.segment_count ≡ 2)
    × (length segments ≡ 2)
    × ((j : ℕ) → j < 2 → IsPlaced sizes new j (get_or segments j nowhere))
    × (get_segment_header sizes new 2 ≡ calculate_shared_memory_size sizes arg)
setup_shm-layout_example =
    setup_shm-layout sizes arg (record hdr { initialized = 0 }) [] refl (omega arith)

abbrev thread : ℕ → Assignment
thread flags = record { start_segment = 9; count = 9; flags = flags }

-- Three writers in use for two threads, the second of three slots being free.
abbrev three_writers : List ℕ
three_writers = 1 ∷ 1 ∷ 0 ∷ 1 ∷ []

abbrev two_threads : List Assignment
two_threads = thread 1 ∷ thread 0 ∷ thread 1 ∷ []

reassign_reader-give_example :
    (reassign_reader three_writers two_threads
      ≡ some (give (segments_in_use 0 three_writers) (portion 3 2) 0 two_threads))
    × ((n : ℕ)
        → n < 3
        → (k : ℕ) × (k < 2) × Covers 3 2 k n × (2 ≤ 3 → (j : ℕ) → j < 2 → Covers 3 2 j n → j ≡ k))
unfolding get_reader_thread_count get_writer_thread_count
reassign_reader-give_example =
    reassign_reader-give three_writers two_threads (omega arith) (omega arith)

-- The first thread has segments 0 and 1, the other one segment 3.
give_three :
    reassign_reader three_writers two_threads
    ≡ some (
        record { start_segment = 0; count = 2; flags = 1 }
        ∷ thread 0
        ∷ record { start_segment = 3; count = 1; flags = 1 }
        ∷ [])
unfolding reassign_reader
give_three = refl

abbrev threads : Threads
threads = record {
  header = record hdr { initialized = 1; segment_count = 2 };
  generation = 0;
  writers = 1 ∷ 0 ∷ [];
  readers = [];
}

-- `setup_shm` pads the array with null bytes.
abbrev behind : Behind
behind = record { writer = 0; reader = thread 0 }

-- With a null byte behind the array, a writer attaches to a segment that is not there.
attach_past_end :
    Option.map
      (λ r. r.1)
      (fips_buf_attach behind writer_role (record threads { writers = 1 ∷ 1 ∷ [] }))
    ≡ some 2
unfolding fips_buf_attach
attach_past_end = refl

-- Detaching the second writer gives its segment back.
detach_free :
    Option.map (λ r. r.1.writers) (fips_buf_detach writer_role 0 threads) ≡ some (0 ∷ 0 ∷ [])
unfolding fips_buf_detach
detach_free = refl

-- The last reader and no writer: the segment is removed.
destroy_last :
    Option.map
      (λ r. r.1.header.initialized)
      (fips_buf_destroy (reader_role 0) 0 (record threads {
        header = record (threads.header) { reader_count = 1; writer_count = 0 };
        readers = (thread 1 ∷ []) ∷ [];
      }))
    ≡ some 2
unfolding fips_buf_destroy
destroy_last = refl

abbrev one_active : Threads → Threads
one_active t = record t {
  writers = 1 ∷ 2 ∷ 0 ∷ [];
  header = record (t.header) { segment_count = 3 };
}

-- A thread with segments 0 and 1, the second of which is trailing.
two_segments :
    (t : Threads)
    → update_cached_reader_values
        (record { writer = 0; reader = record { start_segment = 0; count = 0; flags = 0 } })
        (some (record { start_segment = 0; count = 1; flags = 1 }))
        (one_active t)
        (record {
          current_segment = some 0 ∷ some 1 ∷ none ∷ [];
          assigned_reader_count = 2;
          trailing_buffers_count = 0;
          assignment_generation = 0;
        })
      ≡ some (
        updated,
        record {
          current_segment = some 0 ∷ some 1 ∷ none ∷ [];
          assigned_reader_count = 1;
          trailing_buffers_count = 1;
          assignment_generation = t.generation;
        },
      )
unfolding update_cached_reader_values trailing_segments active_segments
two_segments t = refl

-- A thread that keeps two segments: one with nothing to read, and one with a line.
abbrev reading : ReadState
reading = record {
  rotation = 0;
  cache = record {
    current_segment = some 0 ∷ some 1 ∷ none ∷ [];
    assigned_reader_count = 2;
    trailing_buffers_count = 0;
    assignment_generation = 7;
  };
  segments = seg (at 3 3) ∷ seg (at 0 0) ∷ [];
}

abbrev reading_threads : Threads
reading_threads = record { header = hdr; generation = 7; writers = []; readers = [] }

abbrev nothing_behind : Behind
nothing_behind = record { writer = 0; reader = record { start_segment = 0; count = 0; flags = 0 } }

slots_kept :
    (i : ℕ) → i < 2 → get_or reading.cache.current_segment i none ≡ some (get_or (0 ∷ 1 ∷ []) i 0)
slots_kept zero h = refl
slots_kept (suc zero) h = refl
slots_kept (suc (suc i)) h = absurd (omega arith)

reading-Keeps : Keeps reading.cache (0 ∷ 1 ∷ [])
reading-Keeps = record {
  some_kept = omega arith;
  few = omega arith;
  assigned = refl;
  no_trailing = refl;
  slots = slots_kept;
}

fips_buf_read-Keeps_example :
    ((r : ℕ) × (fips_buf_read nothing_behind none reading_threads 0 1 0 reading
        ≡ some (read_empty, record reading { rotation = r }))
      × All (TooFew hdr 0 1 (0 ∷ 1 ∷ []) reading) (0 ∷ 1 ∷ []))
    ⊎ ((r : ℕ) × (got : List Iovec × Range × Segment) × (r < 2)
        × Gives hdr 0 1 (0 ∷ 1 ∷ []) reading (get_or (0 ∷ 1 ∷ []) r 0) got
        × (fips_buf_read nothing_behind none reading_threads 0 1 0 reading
            ≡ some (served (record reading { rotation = r }) (get_or (0 ∷ 1 ∷ []) r 0) got)))
fips_buf_read-Keeps_example =
    fips_buf_read-Keeps nothing_behind none reading_threads 0 1 reading (0 ∷ 1 ∷ []) refl
      reading-Keeps
