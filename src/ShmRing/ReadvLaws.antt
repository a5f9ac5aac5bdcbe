-- ===== src/ShmRing/ReadvLaws.antt =====
-- Lemmas on the lines that `shmrbuf_readv` hands out, in the terms of the queue of its reader.
use fips_ipc.Prelude.{
  wrap_cases, ℕ, ◌+◌, ◌-◌, ◌%◌, ◌^◌, ◌≤◌, ◌<◌, ◌≡◌, inl, inr, refl, ap, ◌∙◌, sym, false, ◌==◌, ltb,
  if◌then◌else◌, List, [], ◌++◌, length, get_or, set, take, drop, min, arith, length-set, All-set,
  All-get_or, Bool-cases, length-take, le→ltb, ==_iff, map-set, get_or-map, set-get_or_self,
  get_or-append_left, get_or-take,
}
use fips_ipc.ShmRing.{ok, GlobalHdr, Segment, Iovec}
use fips_ipc.ShmRing.Line.{memcpy}
use fips_ipc.ShmRing.Window.{backlog, window, length-window, backlog-Reaches, Reaches-backlog}
use fips_ipc.ShmRing.Invariant.{IsValid, pending, view}
use fips_ipc.ShmRing.Read.{Mutex}
use fips_ipc.ShmRing.Readv.{Beyond, line_at, copy_out, readv_segment}
use fips_ipc.ShmRing.ReadvLoop.{
  fill, drop-window, take-window, copy_out-window, get_or-copy_out, length-copy_out,
}
use fips_ipc.ShmRing.WritevLaws.{IsSmall}

module _ (hdr : GlobalHdr) (beyond : Beyond) (id : ℕ) (known : id < hdr.reader_count) where
  moved-IsValid :
      {seg : Segment} (x : ℕ)
      → IsValid hdr seg
      → IsValid hdr (record seg { read_index = set seg.read_index id (x % hdr.line_count) })
  moved-IsValid {seg} x v = record {
    lines_count = v.lines_count;
    lines_size = v.lines_size;
    writer_in = v.writer_in;
    readers_count = length-set seg.read_index id (x % hdr.line_count) ∙ v.readers_count;
    readers_in =
        All-set (λ r. r < hdr.line_count) seg.read_index id (x % hdr.line_count) v.readers_in
          (omega arith);
  }

  -- `shmrbuf_readv` keeps a segment well formed, also where a mutex fails or the buffers are small.
  pub readv_segment-IsValid :
      (mutex : Mutex) (iovecs : List Iovec) (vsize bufsize : ℕ) {seg : Segment}
      → IsValid hdr seg
      → IsValid hdr (readv_segment hdr beyond mutex id iovecs vsize bufsize seg).2
  unfolding readv_segment
  readv_segment-IsValid mutex iovecs vsize bufsize {seg} v = elim (Bool-cases mutex.lock_fails) [
    | inl e ↦ rw (e, readv_segment) v
    | inr e ↦ elim (Bool-cases (seg.write_index == get_or seg.read_index id 0)) [
      | inl stay ↦ rw (e, stay, readv_segment) v
      | inr go ↦ elim (Bool-cases (ltb bufsize hdr.line_size)) [
        | inl narrow ↦ rw (e, go, narrow, readv_segment) v
        | inr wide ↦ rw (e, go, wide, readv_segment) (moved-IsValid _ v)
      ]
    ]
  ]

max_read_lem : (n r w : ℕ) → (if ltb w r then n - (r - w) else w - r) ≡ backlog n r w
unfolding backlog
max_read_lem n r w = ground arith

module _ (hdr : GlobalHdr) (small : IsSmall hdr) (beyond : Beyond) (id : ℕ)
    (known : id < hdr.reader_count) (iovecs : List Iovec) (vsize : ℕ)
    (given : vsize ≤ length iovecs) (bufsize : ℕ) (wide : hdr.line_size ≤ bufsize) where
  abbrev pub queue : Segment → List (List ℕ)
  queue seg = get_or (view hdr seg) id []

  -- How many lines a call takes.
  abbrev pub taken : Segment → ℕ
  taken seg = min vsize (length (queue seg))

  abbrev reader : Segment → ℕ
  reader seg = get_or seg.read_index id 0

  reader_lt : {seg : Segment} → IsValid hdr seg → reader seg < hdr.line_count
  reader_lt {seg} v =
      All-get_or (λ k. k < hdr.line_count) seg.read_index id 0 v.readers_in (omega arith)

  length-queue :
      {seg : Segment}
      → IsValid hdr seg
      → length (queue seg) ≡ backlog hdr.line_count (reader seg) seg.write_index
  length-queue {seg} v =
      ap length (get_or-map (pending hdr seg) seg.read_index id 0 [] (omega arith))
      ∙ length-window [] hdr.line_count seg.lines (reader seg)
          (backlog hdr.line_count (reader seg) seg.write_index)

  readv_segment_lem :
      {seg : Segment}
      → IsValid hdr seg
      → readv_segment hdr beyond
          (record { lock_fails = false; unlock_fails = false })
          id
          iovecs
          vsize
          bufsize
          seg
        ≡ (
          ok (taken seg),
          copy_out hdr beyond seg.lines (reader seg) (take (taken seg) iovecs)
              ++ drop (taken seg) iovecs,
          record seg {
            read_index = set seg.read_index id ((reader seg + taken seg) % 2 ^ 32 % hdr.line_count);
          },
        )
  unfolding readv_segment
  readv_segment_lem {seg} v =
      let size = length-queue v in
      let most : (if ltb seg.write_index (reader seg)
            then hdr.line_count - (reader seg - seg.write_index)
            else seg.write_index - reader seg)
          ≡ length (queue seg) =
        max_read_lem hdr.line_count (reader seg) seg.write_index ∙ sym size in
      let least : (if ltb (length (queue seg)) vsize then length (queue seg) else vsize)
          ≡ taken seg =
        ground arith in
      rw (most, least)
        (elim (Bool-cases (seg.write_index == reader seg)) [
          | inl e ↦
              let at_writer : seg.write_index ≡ reader seg =
                (==_iff seg.write_index (reader seg)).0 e in
              let hr = reader_lt v in
              let reach =
                backlog-Reaches hdr.line_count (reader seg) seg.write_index hr v.writer_in in
              let none_taken : taken seg ≡ 0 = omega (arith, size, reach, at_writer) in
              let stay : (reader seg + 0) % 2 ^ 32 % hdr.line_count ≡ reader seg =
                omega (
                  arith,
                  wrap_cases hdr.line_count (reader seg) 0 small.count_in hr (omega arith),
                ) in
              rw (e, none_taken, stay, set-get_or_self)
          | inr e ↦ rw (e, le→ltb bufsize hdr.line_size wide)
        ])

  -- With a mutex that works, a buffer size of a line or more and at least `vsize` iovecs, on a
  -- well-formed segment of at most 2^31 lines of less than 2^16 bytes, the body of `shmrbuf_readv`
  -- for a known reader returns the smaller of `vsize` and the length of the reader's queue, removes
  -- that many lines from the front of this queue and changes no other queue, no line and not the
  -- write index.
  pub readv_segment-take :
      {seg : Segment}
      → IsValid hdr seg
      → let (ret, iovecs', seg') =
          readv_segment hdr beyond
            (record { lock_fails = false; unlock_fails = false })
            id
            iovecs
            vsize
            bufsize
            seg in
        (ret ≡ ok (taken seg))
        × (view hdr seg' ≡ set (view hdr seg) id (drop (taken seg) (queue seg)))
        × (seg'.write_index ≡ seg.write_index)
        × (seg'.lines ≡ seg.lines)
  readv_segment-take {seg} v =
      let k = taken seg in
      let r = reader seg in
      let w = seg.write_index in
      let n = hdr.line_count in
      let new_r = (r + k) % 2 ^ 32 % n in
      let size = length-queue v in
      let hr = reader_lt v in
      let reach = backlog-Reaches n r w hr v.writer_in in
      let q : queue seg ≡ pending hdr seg r =
        get_or-map (pending hdr seg) seg.read_index id 0 [] (omega arith) in
      let new_cases = wrap_cases n r k small.count_in hr (omega (arith, size, reach)) in
      let new_lt : new_r < n = omega (arith, new_cases) in
      let left : backlog n new_r w ≡ backlog n r w - k =
        Reaches-backlog n new_r (backlog n r w - k) w new_lt v.writer_in (omega (arith, reach))
          (omega (arith, size, reach, new_cases)) in
      let split : backlog n r w ≡ k + (backlog n r w - k) = omega (arith, size) in
      let rest : drop k (queue seg) ≡ pending hdr seg new_r =
        ap (drop k) (q ∙ ap (window [] n seg.lines r) split)
        ∙ drop-window n seg.lines k (backlog n r w - k) r new_r hr new_lt
            (omega (arith, size, reach)) (omega (arith, new_cases))
        ∙ ap (window [] n seg.lines new_r) (sym left) in
      rw (readv_segment_lem v) (
        refl,
        map-set (pending hdr seg) seg.read_index id new_r ∙ ap (set (view hdr seg) id) (sym rest),
        refl,
        refl,
      )

  -- With a mutex that works, a buffer size of a line or more and at least `vsize` iovecs, on a
  -- well-formed segment of at most 2^31 lines of less than 2^16 bytes, and where the lines taken do
  -- not go round the end of the ring, the body of `shmrbuf_readv` for a known reader fills the
  -- first iovecs with the lines at the front of the reader's queue, in order, and leaves the other
  -- iovecs as they were.
  pub readv_segment-lines :
      {seg : Segment}
      → IsValid hdr seg
      → get_or seg.read_index id 0 + taken seg ≤ hdr.line_count
      → (readv_segment hdr beyond
          (record { lock_fails = false; unlock_fails = false })
          id
          iovecs
          vsize
          bufsize
          seg).1
        ≡ fill hdr.line_size iovecs (take (taken seg) (queue seg))
  readv_segment-lines {seg} v inside =
      let k = taken seg in
      let r = reader seg in
      let size = length-queue v in
      let q : queue seg ≡ pending hdr seg r =
        get_or-map (pending hdr seg) seg.read_index id 0 [] (omega arith) in
      rw (readv_segment_lem v) (
        copy_out-window hdr beyond seg.lines r k iovecs inside (omega arith)
        ∙ ap (fill hdr.line_size iovecs) (
            sym (
              ap (take k) q
              ∙ take-window hdr.line_count seg.lines k (backlog hdr.line_count r seg.write_index) r
                  (omega (arith, size)))))

  -- With a mutex that works, a buffer size of a line or more and at least `vsize` iovecs, on a
  -- well-formed segment of at most 2^31 lines of less than 2^16 bytes, an iovec of a known reader
  -- that `shmrbuf_readv` fills and whose line would lie behind the end of the ring is filled from
  -- the memory that follows the segment's last line, and not from the start of the ring.
  pub readv_segment-overrun :
      {seg : Segment}
      → IsValid hdr seg
      → (j : ℕ) (d : Iovec) → j < taken seg
      → hdr.line_count ≤ get_or seg.read_index id 0 + j
      → (get_or
          (readv_segment hdr beyond
            (record { lock_fails = false; unlock_fails = false })
            id
            iovecs
            vsize
            bufsize
            seg).1
          j
          d).iov_base
        ≡ memcpy
            (get_or iovecs j d).iov_base
            (beyond (get_or seg.read_index id 0 + j - hdr.line_count))
            hdr.line_size
  unfolding line_at
  readv_segment-overrun {seg} v j d below round =
      let k = taken seg in
      let r = reader seg in
      let copied = copy_out hdr beyond seg.lines r (take k iovecs) in
      let many : length (take k iovecs) ≡ k = omega (arith, length-take k iovecs) in
      rw (
        readv_segment_lem v,
        get_or-append_left copied (drop k iovecs) j d
            (omega (arith, many, length-copy_out hdr beyond seg.lines r (take k iovecs))),
        get_or-copy_out hdr beyond seg.lines r j (take k iovecs) d (omega (arith, many)),
        get_or-take k iovecs j d below,
        le→ltb (r + j) hdr.line_count round,
      )
