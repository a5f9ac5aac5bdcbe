-- ===== src/ShmRing/Examples.antt =====
-- A small ring with two readers, and the theorems about the ring buffer at work on it.
use fips_ipc.Prelude.{
  ◌==◌, if◌then◌else◌, ℕ, ◌≡◌, ◌∷◌, ◌++◌, map, take, get_or, ◌<◌, ◌≢◌, refl, arith, true, false,
  List, [], some, none, All,
}
use fips_ipc.Broadcast.{publish, any_full, split, room}
use fips_ipc.ShmRing.Window.{window, backlog}
use fips_ipc.ShmRing.{next_index, Ret, GlobalHdr, Segment, Shm, WriterArg, ReaderArg, Iovec, ok}
use fips_ipc.ShmRing.Invariant.{IsValid, view}
use fips_ipc.ShmRing.Calls.{IsValidShm, run, writes, writevs, reads, run-IsValidShm}
use fips_ipc.ShmRing.Line.{memcpy}
use fips_ipc.ShmRing.Write.{write_segment}
use fips_ipc.ShmRing.WriteLaws.{write_segment-publish}
use fips_ipc.ShmRing.Read.{read_segment}
use fips_ipc.ShmRing.ReadLaws.{read_segment-split}
use fips_ipc.ShmRing.Runs.{Fits, line_of}
use fips_ipc.ShmRing.Writev.{writev_segment}
use fips_ipc.ShmRing.WritevLaws.{IsSmall}
use fips_ipc.ShmRing.WritevPublish.{fitting, writev_segment-publish}
use fips_ipc.ShmRing.WritevWrap.{writev_segment-wrap}
use fips_ipc.ShmRing.Readv.{Beyond, readv_segment}
use fips_ipc.ShmRing.ReadvLaws.{readv_segment-take, readv_segment-overrun}
use fips_ipc.ShmRing.RangeLaws.{working}
use fips_ipc.ShmRing.Init.{Kernel, has_flag, success}
use fips_ipc.ShmRing.InitWriter.{init_writer}
use fips_ipc.ShmRing.InitReader.{init_reader}
use fips_ipc.ShmRing.InitLaws.{made, init-roundtrip}

abbrev hdr : GlobalHdr
hdr = record {
  checksum = 0;
  segment_count = 2;
  reader_count = 2;
  line_size = 2;
  line_count = 4;
  overwrite = false;
  writer_att = true;
  first_reader_att = true ∷ true ∷ [];
}

abbrev old_lines : List (List ℕ)
old_lines = (1 ∷ 1 ∷ []) ∷ (2 ∷ 2 ∷ []) ∷ (3 ∷ 3 ∷ []) ∷ (4 ∷ 4 ∷ []) ∷ []

abbrev seg_at : ℕ → ℕ → ℕ → Segment
seg_at w r s = record { write_index = w; read_index = r ∷ s ∷ []; lines = old_lines }

seg_at-IsValid : (w r s : ℕ) → w < 4 → r < 4 → s < 4 → IsValid hdr (seg_at w r s)
seg_at-IsValid w r s hw hr hs = record {
  lines_count = refl;
  lines_size = (refl, (refl, (refl, (refl, tt))));
  writer_in = hw;
  readers_count = refl;
  readers_in = (hr, (hs, tt));
}

hdr-IsSmall : IsSmall hdr
hdr-IsSmall = record { size_in = omega arith; count_in = omega arith }

abbrev shm_at : Segment → Shm
shm_at seg = record { global_hdr = hdr; segments = seg ∷ seg ∷ [] }

shm_at-IsValidShm : (seg : Segment) → IsValid hdr seg → IsValidShm (shm_at seg)
shm_at-IsValidShm seg v = record { segments_count = refl; segments_valid = (v, (v, tt)) }

abbrev writer : WriterArg
writer = record {
  line_size = 2;
  line_count = 4;
  segment_count = 2;
  reader_count = 2;
  flags = 0;
  attached = true;
}

abbrev reader : ReaderArg
reader = record { flags = 0; reader_id = 1; attached = true }

abbrev vec : ℕ → Iovec
vec b = record { iov_base = b ∷ 0 ∷ []; iov_len = 1 }

abbrev vecs : List Iovec
vecs = vec 5 ∷ vec 6 ∷ vec 7 ∷ []

vecs-Fits : All (Fits 2) vecs
vecs-Fits =
    ((omega arith, omega arith), ((omega arith, omega arith), ((omega arith, omega arith), tt)))

abbrev nines : Beyond
nines = λ i. 9 ∷ 9 ∷ []

-- One reader has two lines to read, the other has one.
write_segment-publish_example :
    let (ret, seg') = write_segment hdr (8 ∷ []) 1 (seg_at 3 1 2) in
    ◌≡◌ {A = Ret × List (List (List ℕ))}
      (ret, view hdr seg')
      (
        ok 2,
        ((2 ∷ 2 ∷ []) ∷ (3 ∷ 3 ∷ []) ∷ (8 ∷ 0 ∷ []) ∷ []) ∷ ((3 ∷ 3 ∷ []) ∷ (8 ∷ 0 ∷ []) ∷ []) ∷ [],
      )
unfolding window backlog next_index publish any_full
write_segment-publish_example =
    write_segment-publish hdr (8 ∷ []) 1 (omega arith) (omega arith) {seg = seg_at 3 1 2}
      (seg_at-IsValid 3 1 2 (omega arith) (omega arith) (omega arith)) refl

read_segment-split_example :
    let (ret, rbuf', seg') = read_segment hdr working 1 (0 ∷ 0 ∷ 0 ∷ []) 3 (seg_at 3 1 2) in
    ◌≡◌ {A = Ret × List ℕ × List (List (List ℕ))}
      (ret, rbuf', view hdr seg')
      (ok 2, 3 ∷ 3 ∷ 0 ∷ [], ((2 ∷ 2 ∷ []) ∷ (3 ∷ 3 ∷ []) ∷ []) ∷ [] ∷ [])
unfolding window backlog next_index split memcpy
read_segment-split_example =
    read_segment-split hdr 1 (omega arith) (0 ∷ 0 ∷ 0 ∷ []) 3 {seg = seg_at 3 1 2}
      (seg_at-IsValid 3 1 2 (omega arith) (omega arith) (omega arith))

-- The slower reader leaves room for one line of three.
writev_segment-publish_example :
    let (ret, seg') = writev_segment hdr vecs 3 (seg_at 3 1 2) in
    (ret ≡ ok 1)
    × (view hdr seg' ≡ (
        ((2 ∷ 2 ∷ []) ∷ (3 ∷ 3 ∷ []) ∷ (5 ∷ 0 ∷ []) ∷ [])
        ∷ ((3 ∷ 3 ∷ []) ∷ (5 ∷ 0 ∷ []) ∷ [])
        ∷ []))
unfolding room window backlog next_index
writev_segment-publish_example =
    writev_segment-publish hdr hdr-IsSmall refl vecs vecs-Fits 3 (omega arith) (omega arith)
      (omega arith) {seg = seg_at 3 1 2}
      (seg_at-IsValid 3 1 2 (omega arith) (omega arith) (omega arith))

-- Both queues are empty, and the writer stands before the last line of the ring.
writev_segment-wrap_example :
    view hdr (writev_segment hdr vecs 3 (seg_at 3 3 3)).1
    ≢ map
        (λ q. q ++ map (line_of 2) (take (fitting hdr (seg_at 3 3 3) 3) vecs))
        (view hdr (seg_at 3 3 3))
unfolding room window backlog
writev_segment-wrap_example =
    writev_segment-wrap hdr hdr-IsSmall refl vecs vecs-Fits 3 (omega arith) (omega arith)
      (omega arith) {seg = seg_at 3 3 3}
      (seg_at-IsValid 3 3 3 (omega arith) (omega arith) (omega arith)) (omega arith) (omega arith)
      (λ e. ground (arith, e))

readv_segment-take_example :
    let (ret, iovecs', seg') = readv_segment hdr nines working 0 vecs 3 2 (seg_at 3 1 2) in
    (ret ≡ ok 2)
    × (view hdr seg' ≡ [] ∷ ((3 ∷ 3 ∷ []) ∷ []) ∷ [])
    × (seg'.write_index ≡ 3)
    × (seg'.lines ≡ old_lines)
unfolding window backlog next_index
readv_segment-take_example =
    readv_segment-take hdr hdr-IsSmall nines 0 (omega arith) vecs 3 (omega arith) 2 (omega arith)
      {seg = seg_at 3 1 2} (seg_at-IsValid 3 1 2 (omega arith) (omega arith) (omega arith))

-- The reader stands at the last line, and one more is at the start of the ring.
readv_segment-overrun_example :
    (get_or (readv_segment hdr nines working 0 vecs 3 2 (seg_at 1 3 3)).1 1 (vec 0)).iov_base
    ≡ 9 ∷ 9 ∷ []
unfolding window backlog memcpy
readv_segment-overrun_example =
    readv_segment-overrun hdr hdr-IsSmall nines 0 (omega arith) vecs 3 (omega arith) 2 (omega arith)
      {seg = seg_at 1 3 3} (seg_at-IsValid 1 3 3 (omega arith) (omega arith) (omega arith)) 1
      (vec 0) (omega arith) (omega arith)

-- A write, a read and a write of three lines, on segments of which one reader is behind.
run-IsValidShm_example : IsValidShm (
    run (shm_at (seg_at 3 1 2)) (
      writes writer (8 ∷ []) 1 0
      ∷ reads reader working (0 ∷ 0 ∷ []) 2 1
      ∷ writevs writer vecs 3 1
      ∷ []))
run-IsValidShm_example =
    run-IsValidShm (shm_at (seg_at 3 1 2))
      (writes writer (8 ∷ []) 1 0
        ∷ reads reader working (0 ∷ 0 ∷ []) 2 1
        ∷ writevs writer vecs 3 1
        ∷ [])
      hdr-IsSmall
      (shm_at-IsValidShm (seg_at 3 1 2)
        (seg_at-IsValid 3 1 2 (omega arith) (omega arith) (omega arith)))
      (omega arith, (omega arith, ((omega arith, omega arith, vecs-Fits, omega arith), tt)))

abbrev kernel : Kernel
kernel = record {
  ftok_key = 77;
  ftok_fails = none;
  sizeof_global_hdr = 24;
  sizeof_bool = 1;
  sizeof_index = 8;
  shmget_fails = λ size. if size == 89 then none else some 22;
  shmat_fails = none;
  calloc_fails = false;
  shmdt_fails = none;
  stat_fails = none;
  rmid_fails = none;
  nattch = 0;
}

init-roundtrip_example :
    let made_memory = (init_writer true writer kernel none).memory in
    let r = init_reader true reader kernel made_memory in
    ((init_writer true writer kernel none).status ≡ success)
    × (made_memory ≡ some (made writer 77))
    × IsValidShm (made writer 77)
    × (r.status ≡ success)
    × (r.arg ≡ record reader { reader_id = 0; attached = true })
unfolding has_flag
init-roundtrip_example =
    init-roundtrip writer
      (record {
        some_size = omega arith;
        some_lines = omega arith;
        some_segments = omega arith;
        some_readers = omega arith;
        bytes_in = omega arith;
      })
      kernel (omega arith)
      (record { ftok_ok = refl; shmget_ok = refl; shmat_ok = refl; calloc_ok = refl }) reader refl
