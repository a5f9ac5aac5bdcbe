-- ===== src/ShmRing/RangeV.antt =====
-- `shmrbuf_readv_rng`.
use fips_ipc.Prelude.{
  ℕ, zero, suc, ◌+◌, ◌-◌, ◌%◌, ◌^◌, ◌||◌, Option, none, some, List, ◌++◌, ◌==◌, ltb, if◌then◌else◌,
  take, drop,
}
use fips_ipc.ShmRing.{Ret, ok, err, arg_err, Shm, ReaderArg, Iovec}
use fips_ipc.ShmRing.Read.{Mutex}
use fips_ipc.ShmRing.Readv.{Beyond, readv_args}
use fips_ipc.ShmRing.Range.{Statics, turn, steal_turn, next_static}

-- The variables of a loop: the static index, `read`, the remaining `vsize`, and how many lines this
-- loop has read.
pub record Progress : Type 0 where
  pub index : ℕ
  pub read : ℕ
  pub vsize : ℕ
  pub gained : ℕ
  pub iovecs : List Iovec
  pub shm : Shm

-- What a successful read of `n` lines makes of them.
advance : Progress → ℕ → ℕ → List Iovec → Shm → Progress
advance p i n iovecs shm = record {
  index = next_static i;
  read = (p.read + n) % 2 ^ 16;
  vsize = p.vsize - n;
  gained = (p.gained + n) % 2 ^ 16;
  iovecs = take p.read p.iovecs ++ iovecs;
  shm = shm;
}

-- One of the two loops: an error returns; so does a read of all lines still wanted.
unfoldable pub pollv :
    ReaderArg → (ℕ → Beyond) → Mutex → ℕ → (ℕ → ℕ) → ℕ → Progress → Option Ret × Progress
unfolding advance
pollv args beyond mutex bufsize pick zero p = (none, p)
pollv args beyond mutex bufsize pick (suc rounds) p =
    let i = pick p.index in
    let (ret, iovecs, shm) =
      readv_args args beyond mutex (drop p.read p.iovecs) p.vsize bufsize i p.shm in
    elim ret [
      | err e ↦ (some (err e), record p { index = next_static i; shm = shm })
      | ok n ↦
          let p' = advance p i n iovecs shm in
          let rest = pollv args beyond mutex bufsize pick rounds p' in
          if n == 0 then rest else if n == p.vsize then (some (ok p'.read), p') else rest
    ]

-- The result, the statics, `*wsteal`, the iovecs and the memory.
pub record RngvResult : Type 0 where
  pub ret : Ret
  pub statics : Statics
  pub wsteal : Option ℕ
  pub iovecs : List Iovec
  pub shm : Shm

-- After the first loop: return what it returned, or steal, or return what was read.
steal_phase :
    ReaderArg → (ℕ → Beyond) → Mutex → ℕ → ℕ → ℕ → ℕ → Option ℕ → Statics → Progress → RngvResult
unfolding pollv
steal_phase args beyond mutex bufsize lower upper rng none st p = record {
  ret = ok p.read;
  statics = record { segment_index = p.index; steal_index = st.steal_index };
  wsteal = none;
  iovecs = p.iovecs;
  shm = p.shm;
}
steal_phase args beyond mutex bufsize lower upper rng (some stolen) st p =
    let count = p.shm.global_hdr.segment_count in
    let steal_rng = (count + 256 - rng) % 256 in
    let (done, q) =
      pollv args beyond mutex bufsize (steal_turn lower upper count) steal_rng
        (record p { index = st.steal_index; gained = 0 }) in
    record {
      ret = elim done [ none ↦ ok q.read | some r ↦ r ];
      statics = record { segment_index = p.index; steal_index = q.index };
      wsteal = some ((stolen + q.gained) % 2 ^ 16);
      iovecs = q.iovecs;
      shm = q.shm;
    }

unfoldable pub readv_rng :
    ReaderArg
    → (ℕ → Beyond)
    → Mutex
    → List Iovec
    → ℕ
    → ℕ
    → ℕ
    → ℕ
    → Option ℕ
    → Statics
    → Shm
    → RngvResult
unfolding steal_phase
readv_rng args beyond mutex iovecs vsize bufsize lower upper wsteal st shm =
    let rng = (upper + 256 - lower) % 256 in
    let (own, p) = pollv args beyond mutex bufsize (turn lower upper) rng (record {
      index = st.segment_index;
      read = 0;
      vsize = vsize;
      gained = 0;
      iovecs = iovecs;
      shm = shm;
    }) in
    if ltb upper lower || ltb shm.global_hdr.segment_count upper
    then record { ret = err arg_err; statics = st; wsteal = wsteal; iovecs = iovecs; shm = shm }
    else elim own [
      | some r ↦ record {
        ret = r;
        statics = record { segment_index = p.index; steal_index = st.steal_index };
        wsteal = wsteal;
        iovecs = p.iovecs;
        shm = p.shm;
      }
      | none ↦ steal_phase args beyond mutex bufsize lower upper rng wsteal st p
    ]
