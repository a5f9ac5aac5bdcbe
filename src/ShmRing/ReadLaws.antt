-- ===== src/ShmRing/ReadLaws.antt =====
-- Lemmas on `shmrbuf_read`, in the terms of the queue of its reader.
use fips_ipc.Prelude.{
  ℕ, suc, ◌<◌, ◌≡◌, inl, inr, ◌∙◌, true, false, ◌==◌, Option, none, some, List, [], ◌∷◌, get_or,
  set, arith, length-set, All-set, All-get_or, Bool-cases, get_or-map, map-set, ==_iff,
}
use fips_ipc.Broadcast.{split}
use fips_ipc.ShmRing.{Ret, ok, GlobalHdr, Segment, next_index}
use fips_ipc.ShmRing.Line.{memcpy}
use fips_ipc.ShmRing.Window.{backlog, window, next_index_lt}
use fips_ipc.ShmRing.Invariant.{IsValid, pending, view}
use fips_ipc.ShmRing.Read.{Mutex, min_of, read_segment}

-- A reader that is behind loses one line of its backlog by a step.
backlog_step :
    (n r w : ℕ)
    → r < n
    → w < n
    → (w == r) ≡ false
    → backlog n r w ≡ suc (backlog n (next_index n r) w)
unfolding backlog next_index
backlog_step n r w hr hw h = ground arith

backlog_self : (n r : ℕ) → backlog n r r ≡ 0
unfolding backlog
backlog_self n r = ground arith

abbrev pub advanced : GlobalHdr → ℕ → Segment → Segment
advanced hdr id seg = record seg {
  read_index = set seg.read_index id (next_index hdr.line_count (get_or seg.read_index id 0));
}

-- What `shmrbuf_read` hands out, given the split of the reader's queue.
abbrev pub delivery :
    ℕ
    → List ℕ
    → List (List (List ℕ))
    → ℕ
    → Option (List ℕ × List (List ℕ))
    → Ret × List ℕ × List (List (List ℕ))
delivery rsize rbuf qs id none = (ok 0, rbuf, qs)
delivery rsize rbuf qs id (some (line, rest)) = (ok rsize, memcpy rbuf line rsize, set qs id rest)

module _ (hdr : GlobalHdr) (id : ℕ) (known : id < hdr.reader_count) where
  reader_lt : {seg : Segment} → IsValid hdr seg → get_or seg.read_index id 0 < hdr.line_count
  reader_lt {seg} v =
      All-get_or (λ k. k < hdr.line_count) seg.read_index id 0 v.readers_in (omega arith)

  advanced-IsValid : {seg : Segment} → IsValid hdr seg → IsValid hdr (advanced hdr id seg)
  advanced-IsValid {seg} v =
      let k = next_index hdr.line_count (get_or seg.read_index id 0) in
      record {
        lines_count = v.lines_count;
        lines_size = v.lines_size;
        writer_in = v.writer_in;
        readers_count = length-set seg.read_index id k ∙ v.readers_count;
        readers_in =
            All-set (λ r. r < hdr.line_count) seg.read_index id k v.readers_in
              (next_index_lt hdr.line_count _ (reader_lt v));
      }

  -- The queue of a reader that is behind begins with the line at its index.
  pending-step :
      {seg : Segment}
      → IsValid hdr seg
      → (seg.write_index == get_or seg.read_index id 0) ≡ false
      → pending hdr seg (get_or seg.read_index id 0)
        ≡ get_or seg.lines (get_or seg.read_index id 0) []
          ∷ pending hdr seg (next_index hdr.line_count (get_or seg.read_index id 0))
  unfolding window
  pending-step {seg} v e = rw (
      backlog_step hdr.line_count (get_or seg.read_index id 0) seg.write_index (reader_lt v)
        v.writer_in e)

  pending-empty :
      (seg : Segment)
      → (seg.write_index == get_or seg.read_index id 0) ≡ true
      → pending hdr seg (get_or seg.read_index id 0) ≡ []
  unfolding window
  pending-empty seg e = rw (
    (==_iff seg.write_index (get_or seg.read_index id 0)).0 e,
    backlog_self hdr.line_count (get_or seg.read_index id 0),
  )

  pub read_segment-IsValid :
      (mutex : Mutex) (rbuf : List ℕ) (bufsize : ℕ) {seg : Segment}
      → IsValid hdr seg
      → IsValid hdr (read_segment hdr mutex id rbuf bufsize seg).2
  unfolding read_segment
  read_segment-IsValid mutex rbuf bufsize {seg} v = elim (Bool-cases mutex.lock_fails) [
    | inl e ↦ rw (e, read_segment) v
    | inr e ↦ elim (Bool-cases (seg.write_index == get_or seg.read_index id 0)) [
      | inl stay ↦ rw (e, stay, read_segment) v
      | inr go ↦ rw (e, go, read_segment) (advanced-IsValid v)
    ]
  ]

  -- With a mutex that works, on a well-formed segment, the body of `shmrbuf_read` for a known
  -- reader is the split of that reader's queue: on an empty queue it returns 0 and changes nothing;
  -- otherwise it copies the oldest line to the buffer, as many bytes as the smaller of line size
  -- and buffer size, returns that number, and leaves the reader the rest of its queue and all other
  -- readers their queues.
  pub read_segment-split :
      (rbuf : List ℕ) (bufsize : ℕ) {seg : Segment}
      → IsValid hdr seg
      → let (ret, rbuf', seg') =
          read_segment hdr
            (record { lock_fails = false; unlock_fails = false })
            id
            rbuf
            bufsize
            seg in
        (ret, rbuf', view hdr seg')
        ≡ delivery
            (min_of hdr.line_size bufsize)
            rbuf
            (view hdr seg)
            id
            (split (get_or (view hdr seg) id []))
  unfolding read_segment split
  read_segment-split rbuf bufsize {seg} v =
      let r = get_or seg.read_index id 0 in
      let q : get_or (view hdr seg) id [] ≡ pending hdr seg r =
        get_or-map (pending hdr seg) seg.read_index id 0 [] (omega arith) in
      elim (Bool-cases (seg.write_index == r)) [
        | inl e ↦ rw (q, e, pending-empty seg e)
        | inr e ↦ rw (
          q,
          e,
          pending-step v e,
          ← map-set (pending hdr seg) seg.read_index id (next_index hdr.line_count r),
        )
      ]
