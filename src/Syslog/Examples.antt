-- ===== src/Syslog/Examples.antt =====
-- A thread that logs to a segment of 256 lines of 254 bytes.
use fips_ipc.Prelude.{
  ℕ, ◌+◌, ◌*◌, ◌/◌, ◌%◌, ◌≡◌, refl, true, none, some, List, [], ◌∷◌, replicate, Option, arith,
}
use fips_ipc.FipsBuf.{Header}
use fips_ipc.FipsBuf.Ring.{get_write_buffer, write}
use fips_ipc.Syslog.{buffer_size, format}
use fips_ipc.Syslog.ZeroCopy.{ZeroThread, syslog_calls}
use fips_ipc.Syslog.ZeroCopyLaws.{IsAligned, after_batches, syslog_calls-IsAligned}

abbrev hdr : Header
hdr = record {
  initialized = 1;
  checksum = 0;
  segment_count = 1;
  max_reader_count = 1;
  max_reader_thread_count = 1;
  reader_count = 1;
  writer_count = 1;
  line_count_exp = 8;
  overwrite = true;
  line_size = 254;
  max_sqe_count = 4;
  first_segment_offset = 0;
  writer_assignments_offset = 0;
  reader_assignments_offset = 0;
}

abbrev thread : ZeroThread
thread = record {
  buffer_position = 0;
  iov = [];
  segment = record {
    index = 0;
    writer = record { head_offset = 240; commit_offset = 240 };
    readers = record { head_offset = 240; commit_offset = 240 } ∷ [];
    data_offset = 4096;
    width_at = λ o. 0;
  };
  memory = λ a. 0;
}

-- `syslog(..., "%s%s", "no ", "entry")`
abbrev call : List ℕ × List (List ℕ)
call = (37 ∷ 115 ∷ 37 ∷ 115 ∷ [], (110 ∷ 111 ∷ 32 ∷ []) ∷ (101 ∷ 110 ∷ 116 ∷ 114 ∷ 121 ∷ []) ∷ [])

formatted : format call.0 call.1 ≡ some (110 ∷ 111 ∷ 32 ∷ 101 ∷ 110 ∷ 116 ∷ 114 ∷ 121 ∷ [])
unfolding format
formatted = refl

thread-IsAligned : IsAligned hdr thread
thread-IsAligned = record {
  below = omega arith;
  between = λ e. refl;
  within = λ ne. absurd (ne refl);
}

syslog_calls-IsAligned_example :
    (z' : ZeroThread) × (syslog_calls hdr (call ∷ call ∷ []) thread ≡ some z')
    × IsAligned hdr z'
    × (z'.buffer_position ≡ (0 + 2) % buffer_size)
    × (z'.segment.writer.commit_offset ≡ after_batches hdr ((0 + 2) / buffer_size) 240)
syslog_calls-IsAligned_example =
    syslog_calls-IsAligned hdr (call ∷ call ∷ []) thread refl
      (((_, formatted), ((_, formatted), tt))) thread-IsAligned

-- The position, the offsets of the writer, and the number of bytes of the first line.
abbrev outcome : Option ZeroThread → ℕ × ℕ × ℕ × ℕ
outcome none = (0, 0, 0, 0)
outcome (some z) = (
  z.buffer_position,
  z.segment.writer.head_offset,
  z.segment.writer.commit_offset,
  z.segment.width_at (4096 + 240 * 256),
)

sixteen : outcome (syslog_calls hdr (replicate 16 call) thread) ≡ (0, 0, 0, 9)
unfolding syslog_calls get_write_buffer write
sixteen = refl

seventeen : outcome (syslog_calls hdr (replicate 17 call) thread) ≡ (1, 16, 0, 9)
unfolding syslog_calls get_write_buffer write
seventeen = refl
