-- ===== src/Syslog.antt =====
-- src/lib/syslog.c: `syslog`, which writes to the ring buffer, and the line of the zero-copy build.
pub mod ZeroCopy
mod ZeroCopyLaws
mod Examples
use fips_ipc.Prelude.{
  ℕ, ◌+◌, ◌-◌, ◌%◌, ◌^◌, ◌≤◌, ◌≡◌, refl, arith, false, Option, none, some, List, [], ◌∷◌, ◌++◌,
  length, take, replicate, set, ltb, ◌==◌, if◌then◌else◌, length-take, length-append, sym,
  Bool-cases, inl, inr,
}
use mathlib.Core.Option.{none-ne-some, some-injective}
use fips_ipc.ShmRing.{Ret, ok, err, Shm, WriterArg, Iovec}
use fips_ipc.ShmRing.Write.{write}
use fips_ipc.ShmRing.Writev.{writev}

abbrev pub segment_count : ℕ
segment_count = 17

abbrev pub line_bytes : ℕ
line_bytes = 254

abbrev pub buffer_size : ℕ
buffer_size = 16

-- The static variables of the process, with the shared memory.
pub record Process : Type 0 where
  pub writer_struct : Option WriterArg
  pub shm : Shm
  pub thread_counter : ℕ
  pub missed_writes : ℕ

-- Those of a thread: `thread_segment`, with `none` for -1, and the buffer of the build with WRITEV.
pub record Thread : Type 0 where
  pub thread_segment : Option ℕ
  pub iovec_counter : ℕ
  pub iovec_buffer : List Iovec

-- The first call of a thread takes the next segment.
abbrev pub number_thread : Option ℕ → Process → ℕ × Process
number_thread none p = (p.thread_counter, record p { thread_counter = p.thread_counter + 1 })
number_thread (some segment) p = (segment, p)

-- What `vsnprintf` stores of the formatted message, with the end of the line.
abbrev pub text_line : List ℕ → List ℕ
text_line message = take (line_bytes - 1) message ++ (10 ∷ [])

abbrev pub count_missed : Ret × Shm → Process → Process
count_missed (ok n, shm) p = record p { shm = shm }
count_missed (err e, shm) p = record p { shm = shm; missed_writes = (p.missed_writes + 1) % 2 ^ 64 }

-- The build without WRITEV, for a formatted message; `none` is the exit.
unfoldable pub syslog : List ℕ → Thread × Process → Option (Thread × Process)
unfolding write
syslog message (t, p) =
    let (segment, p') = number_thread t.thread_segment p in
    let line = text_line message in
    let local_buf = line ++ replicate (line_bytes - length line) 0 in
    if ltb (segment_count - 1) segment
    then none
    else some (
      record t { thread_segment = some segment },
      count_missed (write p'.writer_struct (some local_buf) line_bytes segment p'.shm) p',
    )

abbrev pub flush : Ret × Shm → Thread → Process → Option (Thread × Process)
flush (ok n, shm) t p = some (record t { iovec_counter = 0 }, record p { shm = shm })
flush (err e, shm) t p = none

-- The build with WRITEV.
unfoldable pub syslog_buffered : List ℕ → Thread × Process → Option (Thread × Process)
unfolding writev
syslog_buffered message (t, p) =
    let (segment, p') = number_thread t.thread_segment p in
    let t' : Thread = record t { thread_segment = some segment } in
    let line = text_line message in
    if ltb (segment_count - 1) segment
    then none
    else if ltb t.iovec_counter buffer_size
    then some (
      record t' {
        iovec_counter = t.iovec_counter + 1;
        iovec_buffer =
            set t.iovec_buffer t.iovec_counter (record { iov_base = line; iov_len = length line });
      },
      p',
    )
    else flush (writev p'.writer_struct (some t.iovec_buffer) t.iovec_counter segment p'.shm) t' p'

-- The loop over the format, with the bytes written so far: each `%` copies the next argument, as a
-- string, and all else of the format is skipped. `none`: no argument is left.
unfoldable pub format_loop : List ℕ → List (List ℕ) → List ℕ → Option (List ℕ)
format_loop [] args written = some written
format_loop (c ∷ fmt) [] written = if c == 37 then none else format_loop fmt [] written
format_loop (c ∷ fmt) (arg ∷ args) written =
    let copied = format_loop fmt args (written ++ take (line_bytes - length written) arg) in
    let skipped = format_loop fmt (arg ∷ args) written in if c == 37 then copied else skipped

unfoldable pub format : List ℕ → List (List ℕ) → Option (List ℕ)
unfolding format_loop
format fmt args = format_loop (take line_bytes fmt) args []

-- The cut to the line, with its end and the byte 0 behind it.
unfoldable pub zero_copy_line : List ℕ → Iovec
zero_copy_line written =
    let n = if ltb (line_bytes - 2) (length written) then line_bytes - 2 else length written in
    record { iov_base = take n written ++ (10 ∷ 0 ∷ []); iov_len = n + 1 }

-- The bytes written never pass the end of the line element.
format_loop_bound :
    (fmt : List ℕ) (args : List (List ℕ)) (written out : List ℕ)
    → length written ≤ line_bytes
    → format_loop fmt args written ≡ some out
    → length out ≤ line_bytes
unfolding format_loop
format_loop_bound [] args written out h e = rw (sym (some-injective _ _ e)) h
format_loop_bound (c ∷ fmt) [] written out h e = elim (Bool-cases (c == 37)) [
  | inl percent ↦ absurd (none-ne-some out (rw percent at e))
  | inr other ↦ format_loop_bound fmt [] written out h (rw other at e)
]
format_loop_bound (c ∷ fmt) (arg ∷ args) written out h e = elim (Bool-cases (c == 37)) [
  | inl percent ↦
      let n = line_bytes - length written in
      format_loop_bound fmt args (written ++ take n arg) out
        (rw (length-append written (take n arg), length-take n arg) (ground arith))
        (rw percent at e)
  | inr other ↦ format_loop_bound fmt (arg ∷ args) written out h (rw other at e)
]

-- The end of the line and the byte behind it lie in the line element too.
zero_copy_line_bound : (written : List ℕ) → length (zero_copy_line written).iov_base ≤ line_bytes
unfolding zero_copy_line
zero_copy_line_bound written =
    let n = if ltb (line_bytes - 2) (length written) then line_bytes - 2 else length written in
    rw (length-append (take n written) (10 ∷ 0 ∷ []), length-take n written) (ground arith)

-- A call that finds the buffer full does nothing with its message.
syslog_buffered_lost :
    (message message' : List ℕ) (t : Thread) (p : Process)
    → buffer_size ≤ t.iovec_counter
    → syslog_buffered message (t, p) ≡ syslog_buffered message' (t, p)
unfolding syslog_buffered
syslog_buffered_lost message message' t p full =
    let no_room : ltb t.iovec_counter buffer_size ≡ false = ground arith in rw (no_room) refl
