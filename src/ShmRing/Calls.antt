-- ===== src/ShmRing/Calls.antt =====
-- The calls of writers and readers on one shared memory, in any order.
use fips_ipc.Prelude.{
  ℕ, ◌^◌, ◌≤◌, ◌<◌, ◌≡◌, refl, Bool, true, false, List, [], ◌∷◌, some, length, All, arith, ◌∙◌,
  length-set, All-set, All-get_or, leb, ltb, if◌then◌else◌, not, ◌||◌, ◌==◌,
}
use fips_ipc.ShmRing.{
  Ret, GlobalHdr, Segment, Shm, WriterArg, ReaderArg, Iovec, no_segment, segment_at, set_segment,
}
use fips_ipc.ShmRing.Invariant.{IsValid}
use fips_ipc.ShmRing.Write.{write}
use fips_ipc.ShmRing.WriteLaws.{write_segment-IsValid}
use fips_ipc.ShmRing.Writev.{writev}
use fips_ipc.ShmRing.WritevLaws.{IsSmall}
use fips_ipc.ShmRing.WritevPublish.{writev_segment-IsValid}
use fips_ipc.ShmRing.Runs.{Fits}
use fips_ipc.ShmRing.Read.{Mutex, read}
use fips_ipc.ShmRing.ReadLaws.{read_segment-IsValid}
use fips_ipc.ShmRing.Readv.{Beyond, readv}
use fips_ipc.ShmRing.ReadvLaws.{readv_segment-IsValid}

-- The shared memory has the segments that its header counts, each well formed.
pub record IsValidShm (shm : Shm) : Type 0 where
  pub segments_count : length shm.segments ≡ shm.global_hdr.segment_count
  pub segments_valid : All (IsValid shm.global_hdr) shm.segments

pub data Call : Type 0 where
  writes : WriterArg → List ℕ → ℕ → ℕ → Call
  writevs : WriterArg → List Iovec → ℕ → ℕ → Call
  reads : ReaderArg → Mutex → List ℕ → ℕ → ℕ → Call
  readvs : ReaderArg → (ℕ → Beyond) → Mutex → List Iovec → ℕ → ℕ → ℕ → Call

-- What a caller owes: its buffers are as long as it says, and its argument is one that
-- `shmrbuf_init` filled in for this memory.
abbrev pub Legal : GlobalHdr → Call → Type 0
Legal hdr (writes args src wsize id) = wsize ≤ length src
Legal hdr (writevs args iovecs vsize id) =
    (vsize < 2 ^ 16)
    × (vsize ≤ length iovecs)
    × All (Fits hdr.line_size) iovecs
    × (args.segment_count ≤ hdr.segment_count)
Legal hdr (reads args mutex rbuf bufsize id) = args.reader_id < hdr.reader_count
Legal hdr (readvs args beyond mutex iovecs vsize bufsize id) = args.reader_id < hdr.reader_count

unfoldable pub step : Shm → Call → Shm
step shm (writes args src wsize id) = (write (some args) (some src) wsize id shm).1
step shm (writevs args iovecs vsize id) = (writev (some args) (some iovecs) vsize id shm).1
step shm (reads args mutex rbuf bufsize id) = (read (some args) mutex (some rbuf) bufsize id shm).2
step shm (readvs args beyond mutex iovecs vsize bufsize id) =
    (readv (some args) beyond mutex (some iovecs) vsize bufsize id shm).2

unfoldable pub run : Shm → List Call → Shm
run shm [] = shm
run shm (c ∷ cs) = run (step shm c) cs

module _ {shm : Shm} (v : IsValidShm shm) (id : ℕ) where
  segment_at-IsValid :
      id < shm.global_hdr.segment_count → IsValid shm.global_hdr (segment_at shm id)
  segment_at-IsValid h =
      All-get_or (IsValid shm.global_hdr) shm.segments id no_segment v.segments_valid (omega arith)

  set_segment-IsValidShm :
      (seg : Segment) → IsValid shm.global_hdr seg → IsValidShm (set_segment shm id seg)
  set_segment-IsValidShm seg h = record {
    segments_count = length-set shm.segments id seg ∙ v.segments_count;
    segments_valid = All-set (IsValid shm.global_hdr) shm.segments id seg v.segments_valid h;
  }

-- A call behind three guards: each of them leaves the memory well formed, and so does its body.
guarded :
    {R : Type 0} (memory : R → Shm) (a b c : Bool) (x y z w : R)
    → IsValidShm (memory x)
    → IsValidShm (memory y)
    → IsValidShm (memory z)
    → (b ≡ false → c ≡ false → IsValidShm (memory w))
    → IsValidShm (memory (if a then x else if b then y else if c then z else w))
guarded memory true b c x y z w hx hy hz hw = hx
guarded memory false true c x y z w hx hy hz hw = hy
guarded memory false false true x y z w hx hy hz hw = hz
guarded memory false false false x y z w hx hy hz hw = hw refl refl

module _ {shm : Shm} (v : IsValidShm shm) (id : ℕ) where
  step-writes :
      (args : WriterArg) (src : List ℕ) (wsize : ℕ)
      → wsize ≤ length src
      → IsValidShm (step shm (writes args src wsize id))
  unfolding step write
  step-writes args src wsize fits =
      guarded {R = Ret × Shm} (λ r. r.1) (not args.attached)
        (leb shm.global_hdr.segment_count id || ltb shm.global_hdr.line_size wsize) (wsize == 0) _ _
        _ _ v v v
        λ checked _. set_segment-IsValidShm v id _ (
          write_segment-IsValid shm.global_hdr src wsize fits (ground (arith, checked))
            (segment_at-IsValid v id (ground (arith, checked))))

  step-reads :
      (args : ReaderArg) (mutex : Mutex) (rbuf : List ℕ) (bufsize : ℕ)
      → args.reader_id < shm.global_hdr.reader_count
      → IsValidShm (step shm (reads args mutex rbuf bufsize id))
  unfolding step read
  step-reads args mutex rbuf bufsize known =
      guarded {R = Ret × List ℕ × Shm} (λ r. r.2) (not args.attached)
        (leb shm.global_hdr.segment_count id) (bufsize == 0) _ _ _ _ v v v
        λ checked _. set_segment-IsValidShm v id _ (
          read_segment-IsValid shm.global_hdr args.reader_id known mutex rbuf bufsize
            (segment_at-IsValid v id (ground (arith, checked))))

  step-readvs :
      (args : ReaderArg) (beyond : ℕ → Beyond) (mutex : Mutex) (iovecs : List Iovec)
      (vsize bufsize : ℕ)
      → args.reader_id < shm.global_hdr.reader_count
      → IsValidShm (step shm (readvs args beyond mutex iovecs vsize bufsize id))
  unfolding step readv
  step-readvs args beyond mutex iovecs vsize bufsize known =
      guarded {R = Ret × List Iovec × Shm} (λ r. r.2) (not args.attached)
        (leb shm.global_hdr.segment_count id) (vsize == 0) _ _ _ _ v v v
        λ checked _. set_segment-IsValidShm v id _ (
          readv_segment-IsValid shm.global_hdr (beyond id) args.reader_id known mutex iovecs vsize
            bufsize (segment_at-IsValid v id (ground (arith, checked))))

  step-writevs :
      (args : WriterArg) (iovecs : List Iovec) (vsize : ℕ)
      → IsSmall shm.global_hdr
      → vsize < 2 ^ 16
      → vsize ≤ length iovecs
      → All (Fits shm.global_hdr.line_size) iovecs
      → args.segment_count ≤ shm.global_hdr.segment_count
      → IsValidShm (step shm (writevs args iovecs vsize id))
  unfolding step writev
  step-writevs args iovecs vsize small small_v given fits own =
      guarded {R = Ret × Shm} (λ r. r.1) (not args.attached) (leb args.segment_count id)
        (vsize == 0) _ _ _ _ v v v
        λ checked some_lines. set_segment-IsValidShm v id _ (
          writev_segment-IsValid shm.global_hdr small iovecs fits vsize small_v given
            (ground (arith, some_lines)) (segment_at-IsValid v id (ground (arith, checked, own))))

-- Every legal call of a writer or a reader, failing ones included, keeps the shared memory well
-- formed.
pub step-IsValidShm :
    (shm : Shm) (c : Call)
    → IsSmall shm.global_hdr
    → IsValidShm shm
    → Legal shm.global_hdr c
    → IsValidShm (step shm c)
step-IsValidShm shm (writes args src wsize id) small v h = step-writes v id args src wsize h
step-IsValidShm shm (writevs args iovecs vsize id) small v h =
    step-writevs v id args iovecs vsize small h.0 h.1 h.2 h.3
step-IsValidShm shm (reads args mutex rbuf bufsize id) small v h =
    step-reads v id args mutex rbuf bufsize h
step-IsValidShm shm (readvs args beyond mutex iovecs vsize bufsize id) small v h =
    step-readvs v id args beyond mutex iovecs vsize bufsize h

-- No call changes the header.
global_hdr-step : (shm : Shm) (c : Call) → (step shm c).global_hdr ≡ shm.global_hdr
unfolding step write writev read readv
global_hdr-step shm (writes args src wsize id) = ground arith
global_hdr-step shm (writevs args iovecs vsize id) = ground arith
global_hdr-step shm (reads args mutex rbuf bufsize id) = ground arith
global_hdr-step shm (readvs args beyond mutex iovecs vsize bufsize id) = ground arith

-- From a well-formed memory with lines below 2^16 bytes and at most 2^31 lines in a segment, every
-- sequence of calls of `shmrbuf_write`, `shmrbuf_writev`, `shmrbuf_read` and `shmrbuf_readv`, on
-- any segments and failing calls included, ends in a well-formed memory. The callers' buffers are
-- as long as they say, readers pass the id of a reader, the iovecs of a writer fit into lines, and
-- a vectored writer's own segment count is at most the header's.
pub run-IsValidShm :
    (shm : Shm) (cs : List Call)
    → IsSmall shm.global_hdr
    → IsValidShm shm
    → All (Legal shm.global_hdr) cs
    → IsValidShm (run shm cs)
unfolding run
run-IsValidShm shm [] small v h = v
run-IsValidShm shm (c ∷ cs) small v h =
    let kept = global_hdr-step shm c in
    run-IsValidShm (step shm c) cs (rw kept small) (step-IsValidShm shm c small v h.0) (rw kept h.1)
