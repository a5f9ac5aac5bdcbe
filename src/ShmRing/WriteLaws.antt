-- ===== src/ShmRing/WriteLaws.antt =====
-- Lemmas on `shmrbuf_write`, in the terms of the queues of the readers.
use fips_ipc.Prelude.{
  ℕ, suc, ◌-◌, ◌≤◌, ◌<◌, ◌≡◌, inl, inr, refl, ap, ap₂, ◌∙◌, Bool, false, not, ◌&&◌, ◌||◌, ◌==◌,
  if◌then◌else◌, Option, none, some, List, [], ◌∷◌, ◌++◌, map, length, get_or, set, take, All,
  arith, take_all, length-set, All-set, All-get_or, Bool-cases,
}
use fips_ipc.Broadcast.{any_full, publish}
use fips_ipc.ShmRing.{Ret, ok, err, size_err, GlobalHdr, Segment, next_index}
use fips_ipc.ShmRing.Line.{padded, put_line_lem, length-padded}
use fips_ipc.ShmRing.Window.{backlog, window-set, length-window, next_index_lt, backlog-Reaches}
use fips_ipc.ShmRing.Invariant.{IsValid, pending, view}
use fips_ipc.ShmRing.Write.{overtakes, write_segment}

-- One step ahead of the writer stands exactly a reader whose backlog is as large as can be.
or_false : (a b : Bool) → (a || b) ≡ false → (a ≡ false) × (b ≡ false)
or_false a b h = ground arith

full_iff : (n w r : ℕ) → w < n → r < n → (next_index n w == r) ≡ (backlog n r w == n - 1)
unfolding next_index backlog
full_iff n w r hw hr = ground arith

module _ (hdr : GlobalHdr) (seg : Segment) (in_range : seg.write_index < hdr.line_count) where
  overtakes-eq-any_full :
      (rs : List ℕ)
      → All (λ r. r < hdr.line_count) rs
      → overtakes (next_index hdr.line_count seg.write_index) rs
        ≡ any_full (hdr.line_count - 1) (map (pending hdr seg) rs)
  unfolding overtakes any_full
  overtakes-eq-any_full [] h = refl
  overtakes-eq-any_full (r ∷ rs) h = rw (
    full_iff hdr.line_count seg.write_index r in_range h.0,
    overtakes-eq-any_full rs h.1,
    length-window [] hdr.line_count seg.lines r (backlog hdr.line_count r seg.write_index),
  )

  backlog-next :
      (r : ℕ)
      → r < hdr.line_count
      → (next_index hdr.line_count seg.write_index == r) ≡ false
      → backlog hdr.line_count r (next_index hdr.line_count seg.write_index)
        ≡ suc (backlog hdr.line_count r seg.write_index)
  unfolding backlog next_index
  backlog-next r hr h = ground arith

  pending-write :
      (line : List ℕ) (r : ℕ)
      → length seg.lines ≡ hdr.line_count
      → r < hdr.line_count
      → (next_index hdr.line_count seg.write_index == r) ≡ false
      → pending hdr
          (record seg {
            write_index = next_index hdr.line_count seg.write_index;
            lines = set seg.lines seg.write_index line;
          })
          r
        ≡ pending hdr seg r ++ (line ∷ [])
  pending-write line r hl hr h =
      let reach = backlog-Reaches hdr.line_count r seg.write_index hr in_range in
      let grown = backlog-next r hr h in
      let room =
        backlog-Reaches hdr.line_count r (next_index hdr.line_count seg.write_index) hr
          (next_index_lt hdr.line_count seg.write_index in_range) in
      rw grown (
        window-set [] hdr.line_count seg.lines line (backlog hdr.line_count r seg.write_index) r
          seg.write_index hl hr in_range (omega (arith, room.1, grown)) reach.0)

  view-write :
      (line : List ℕ) (rs : List ℕ)
      → length seg.lines ≡ hdr.line_count
      → All (λ r. r < hdr.line_count) rs
      → overtakes (next_index hdr.line_count seg.write_index) rs ≡ false
      → map
          (pending hdr (record seg {
            write_index = next_index hdr.line_count seg.write_index;
            lines = set seg.lines seg.write_index line;
          }))
          rs
        ≡ map (λ q. q ++ (line ∷ [])) (map (pending hdr seg) rs)
  unfolding overtakes
  view-write line [] hl hr h = refl
  view-write line (r ∷ rs) hl hr h =
      let (here, there) = or_false _ _ h in
      ap₂ ◌∷◌ (pending-write line r hl hr.0 here) (view-write line rs hl hr.1 there)

-- `SIZE_ERR` and nothing done, or `line_size` and the new queues.
abbrev pub answer :
    ℕ → List (List (List ℕ)) → Option (List (List (List ℕ))) → Ret × List (List (List ℕ))
answer n qs none = (err size_err, qs)
answer n qs (some qs') = (ok n, qs')

-- The segment after a line went in at the write index.
abbrev pub written : GlobalHdr → List ℕ → Segment → Segment
written hdr line seg = record seg {
  write_index = next_index hdr.line_count seg.write_index;
  lines = set seg.lines seg.write_index line;
}

module _ (hdr : GlobalHdr) where
  pub written-IsValid :
      (line : List ℕ) {seg : Segment}
      → length line ≡ hdr.line_size
      → IsValid hdr seg
      → IsValid hdr (written hdr line seg)
  written-IsValid line {seg} size v = record {
    lines_count = length-set seg.lines seg.write_index line ∙ v.lines_count;
    lines_size =
        All-set (λ l. length l ≡ hdr.line_size) seg.lines seg.write_index line v.lines_size size;
    writer_in = next_index_lt hdr.line_count seg.write_index v.writer_in;
    readers_count = v.readers_count;
    readers_in = v.readers_in;
  }

  full : Segment → Bool
  full seg =
      not hdr.overwrite
      && overtakes (next_index hdr.line_count seg.write_index)
          (take hdr.reader_count seg.read_index)

  module _ (src : List ℕ) (wsize : ℕ) (fits : wsize ≤ length src)
      (short : wsize ≤ hdr.line_size) where
    write_segment_lem :
        {seg : Segment}
        → IsValid hdr seg
        → write_segment hdr src wsize seg ≡ (
            if full seg
            then (err size_err, seg)
            else (ok hdr.line_size, written hdr (padded hdr.line_size src wsize) seg))
    unfolding write_segment full
    write_segment_lem {seg} v = rw (
        put_line_lem hdr.line_size (get_or seg.lines seg.write_index []) src wsize
          (All-get_or (λ l. length l ≡ hdr.line_size) seg.lines seg.write_index [] v.lines_size
            (omega arith))
          fits short)

    -- `shmrbuf_write` keeps a segment well formed, whether or not it may overwrite.
    pub write_segment-IsValid :
        {seg : Segment} → IsValid hdr seg → IsValid hdr (write_segment hdr src wsize seg).1
    write_segment-IsValid {seg} v = elim (Bool-cases (full seg)) [
      | inl e ↦ rw (write_segment_lem v, e) v
      | inr e ↦
          rw (write_segment_lem v, e)
            (written-IsValid (padded hdr.line_size src wsize)
              (length-padded hdr.line_size src wsize fits short) v)
    ]

    -- For a message that fits into a line, on a well-formed segment of a ring without overwriting,
    -- the body of `shmrbuf_write` is the abstract broadcast: if the queue of any reader is full it
    -- returns the size error and every reader's queue stays as it was; otherwise it returns the
    -- line size and appends the message, padded with zeros to a line, to the queue of every reader.
    pub write_segment-publish :
        {seg : Segment}
        → IsValid hdr seg
        → hdr.overwrite ≡ false
        → let (ret, seg') = write_segment hdr src wsize seg in
          (ret, view hdr seg')
          ≡ answer hdr.line_size
              (view hdr seg)
              (publish (hdr.line_count - 1) (padded hdr.line_size src wsize) (view hdr seg))
    unfolding publish full
    write_segment-publish {seg} v strict =
        let readers : take hdr.reader_count seg.read_index ≡ seg.read_index =
          take_all hdr.reader_count seg.read_index (omega arith) in
        let same = overtakes-eq-any_full hdr seg v.writer_in seg.read_index v.readers_in in
        let line = padded hdr.line_size src wsize in
        elim (Bool-cases (overtakes (next_index hdr.line_count seg.write_index) seg.read_index)) [
          | inl e ↦ rw (write_segment_lem v, full, strict, readers, ← same, e)
          | inr e ↦
              rw (write_segment_lem v, full, strict, readers, ← same, e)
                (ap (λ (qs : List (List (List ℕ))). (ok hdr.line_size, qs))
                  (view-write hdr seg v.writer_in line seg.read_index v.lines_count v.readers_in e))
        ]
