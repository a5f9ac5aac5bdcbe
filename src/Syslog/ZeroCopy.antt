-- ===== src/Syslog/ZeroCopy.antt =====
-- `syslog` in the build with ZERO_COPY and without FIPS_BUF_USE_VSNPRINTF, for a thread that has been
-- attached to its segment, and its calls one after another.
use fips_ipc.Prelude.{
  ℕ, ◌+◌, ◌-◌, ◌%◌, Option, none, some, List, [], ◌∷◌, ◌==◌, ltb, leb, ◌&&◌, if◌then◌else◌, length,
  get_or, set,
}
use fips_ipc.FipsBuf.{Code, success, Header, Segment, Iovec}
use fips_ipc.FipsBuf.Ring.{get_write_buffer, write}
use fips_ipc.Syslog.{buffer_size, format, zero_copy_line}

-- The static variables of the thread, its segment, and the bytes of the shared memory.
pub record ZeroThread : Type 0 where
  pub buffer_position : ℕ
  pub iov : List Iovec
  pub segment : Segment
  pub memory : ℕ → ℕ

abbrev pub no_iovec : Iovec
no_iovec = record { iov_base = 0; iov_len = 0 }

-- The bytes from an address on.
unfoldable pub store_bytes : ℕ → List ℕ → (ℕ → ℕ) → ℕ → ℕ
store_bytes base bytes memory a =
    if leb base a && ltb a (base + length bytes) then get_or bytes (a - base) 0 else memory a

-- `none` is the exit when no buffer is granted.
abbrev pub granted : ZeroThread → Code × List Iovec × Segment → Option ZeroThread
granted z (success, iov, segment) = some (record z { iov = iov; segment = segment })
granted z (code, iov, segment) = none

-- A new buffer for the first line of a batch.
unfoldable pub take_buffer : Header → ZeroThread → Option ZeroThread
unfolding get_write_buffer
take_buffer hdr z =
    if z.buffer_position == 0
    then granted z (get_write_buffer hdr buffer_size z.segment)
    else some z

-- The line, in the place that the buffer has for it, and the next position.
unfoldable pub store_line : List ℕ → ZeroThread → ZeroThread
unfolding store_bytes zero_copy_line
store_line written z =
    let place = get_or z.iov z.buffer_position no_iovec in
    let line = zero_copy_line written in
    record z {
      buffer_position = (z.buffer_position + 1) % buffer_size;
      iov = set z.iov z.buffer_position (record place { iov_len = line.iov_len });
      memory = store_bytes place.iov_base line.iov_base z.memory;
    }

-- The lines are published with the last of a batch; a failure is only printed.
unfoldable pub publish : Header → ZeroThread → ZeroThread
unfolding write
publish hdr z =
    if z.buffer_position == 0
    then (let (code, segment) = write hdr z.iov buffer_size z.segment in
        record z { segment = segment })
    else z

abbrev pub with_line : Header → Option (List ℕ) → ZeroThread → Option ZeroThread
with_line hdr none z = none
with_line hdr (some written) z = some (publish hdr (store_line written z))

abbrev pub with_buffer : Header → List ℕ → List (List ℕ) → Option ZeroThread → Option ZeroThread
with_buffer hdr fmt args none = none
with_buffer hdr fmt args (some z) = with_line hdr (format fmt args) z

-- `none` is the exit, or an argument that is not there.
unfoldable pub syslog_zero_copy : Header → List ℕ → List (List ℕ) → ZeroThread → Option ZeroThread
unfolding take_buffer store_line publish format
syslog_zero_copy hdr fmt args z = with_buffer hdr fmt args (take_buffer hdr z)

abbrev pub after_call : (ZeroThread → Option ZeroThread) → Option ZeroThread → Option ZeroThread
after_call next none = none
after_call next (some z) = next z

unfoldable pub syslog_calls :
    Header → List (List ℕ × List (List ℕ)) → ZeroThread → Option ZeroThread
unfolding syslog_zero_copy
syslog_calls hdr [] z = some z
syslog_calls hdr ((fmt, args) ∷ calls) z =
    after_call (λ z'. syslog_calls hdr calls z') (syslog_zero_copy hdr fmt args z)
