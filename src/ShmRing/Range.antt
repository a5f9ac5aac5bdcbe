-- ===== src/ShmRing/Range.antt =====
-- `shmrbuf_read_rng`: a reader thread polls its range of segments in turn, and, if it may steal,
-- the segments outside.
use fips_ipc.Prelude.{
  ℕ, zero, suc, ◌+◌, ◌-◌, ◌%◌, Bool, true, ◌||◌, Option, none, some, List, ◌==◌, ltb, if◌then◌else◌,
}
use fips_ipc.ShmRing.{Ret, ok, err, arg_err, Shm, ReaderArg}
use fips_ipc.ShmRing.Read.{Mutex, read}

-- The `static thread_local` indices of one function.
pub record Statics : Type 0 where
  pub segment_index : ℕ
  pub steal_index : ℕ

-- The index that is polled next, in the range and outside it.
unfoldable pub turn : ℕ → ℕ → ℕ → ℕ
turn lower upper s = if s == upper then lower else if ltb s lower then lower else s

unfoldable pub steal_turn : ℕ → ℕ → ℕ → ℕ → ℕ
steal_turn lower upper segment_count s =
    if s == lower
    then (if upper == segment_count then 0 else upper)
    else if s == segment_count
    then (if lower == 0 then upper else 0)
    else s

-- `s++` on a `uint8_t`
abbrev pub next_static : ℕ → ℕ
next_static s = (s + 1) % 256

module _ {B : Type 0} (attempt : ℕ → B × Shm → Ret × B × Shm) (pick : ℕ → ℕ) where
  -- One of the polling loops of `shmrbuf_read_rng`; `none` if it ends with nothing read. Beside it
  -- the static index, the buffer and the memory.
  unfoldable pub poll : ℕ → ℕ → B × Shm → Option Ret × ℕ × B × Shm
  poll zero s (b, shm) = (none, s, b, shm)
  poll (suc rounds) s (b, shm) =
      let (ret, b', shm') = attempt (pick s) (b, shm) in
      let rest = poll rounds (next_static (pick s)) (b', shm') in
      let stop : Option Ret × ℕ × B × Shm = (some ret, next_static (pick s), b', shm') in
      elim ret [ ok n ↦ if n == 0 then rest else stop | err e ↦ stop ]

-- `shmrbuf_read(args, rbuf, bufsize, id)` on the buffer and the memory
abbrev pub read_attempt :
    ReaderArg → Mutex → ℕ → ℕ → Option (List ℕ) × Shm → Ret × Option (List ℕ) × Shm
read_attempt args mutex bufsize id (rbuf, shm) = read (some args) mutex rbuf bufsize id shm

pub record RngResult (B : Type 0) : Type 0 where
  pub ret : Ret
  pub wsteal : Option B
  pub statics : Statics

-- The result, the statics, `*wsteal`, the buffer and the memory.
unfoldable pub read_rng :
    ReaderArg
    → Mutex
    → Option (List ℕ)
    → ℕ
    → ℕ
    → ℕ
    → Option Bool
    → Statics
    → Shm
    → RngResult Bool × Option (List ℕ) × Shm
unfolding poll turn steal_turn
read_rng args mutex rbuf bufsize lower upper wsteal st shm =
    let count = shm.global_hdr.segment_count in
    let rng = (upper + 256 - lower) % 256 in
    let steal_rng = (count + 256 - rng) % 256 in
    let attempt = read_attempt args mutex bufsize in
    let (own, s, rbuf1, shm1) = poll attempt (turn lower upper) rng st.segment_index (rbuf, shm) in
    let (stolen, t, rbuf2, shm2) =
      poll attempt (steal_turn lower upper count) steal_rng st.steal_index (rbuf1, shm1) in
    if ltb upper lower || ltb count upper
    then (record { ret = err arg_err; wsteal = wsteal; statics = st }, rbuf, shm)
    else elim own [
      | some r ↦ (
        record {
          ret = r;
          wsteal = wsteal;
          statics = record { segment_index = s; steal_index = st.steal_index };
        },
        rbuf1,
        shm1,
      )
      | none ↦ elim wsteal [
        | none ↦ (
          record {
            ret = ok 0;
            wsteal = none;
            statics = record { segment_index = s; steal_index = st.steal_index };
          },
          rbuf1,
          shm1,
        )
        | some flag ↦ elim stolen [
          | none ↦ (
            record {
              ret = ok 0;
              wsteal = some flag;
              statics = record { segment_index = s; steal_index = t };
            },
            rbuf2,
            shm2,
          )
          | some (ok n) ↦ (
            record {
              ret = ok n;
              wsteal = some true;
              statics = record { segment_index = s; steal_index = t };
            },
            rbuf2,
            shm2,
          )
          | some (err e) ↦ (
            record {
              ret = err e;
              wsteal = some flag;
              statics = record { segment_index = s; steal_index = t };
            },
            rbuf2,
            shm2,
          )
        ]
      ]
    ]
