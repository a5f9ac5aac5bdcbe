-- ===== src/ShmRing/WritevPublish.antt =====
-- `shmrbuf_writev` as a whole: how many lines it stores, and what every reader then has to read.
use fips_ipc.Prelude.{
  ℕ, ◌-◌, ◌^◌, ◌≤◌, ◌<◌, ◌≡◌, inl, inr, refl, ap, ap₂, ◌∙◌, sym, true, false, ◌==◌, ltb,
  if◌then◌else◌, none, some, List, [], ◌∷◌, ◌++◌, map, length, take, min, All, arith, take_all,
  Bool-cases, append-nil, ==_iff,
}
use fips_ipc.Broadcast.{room, room-le, room-zero, room-fits}
use fips_ipc.ShmRing.{ok, GlobalHdr, Segment, Iovec}
use fips_ipc.ShmRing.Window.{backlog, length-window, backlog-Reaches}
use fips_ipc.ShmRing.Invariant.{IsValid, pending, view}
use fips_ipc.ShmRing.Writev.{dst, clamp, store_lines, writev_segment}
use fips_ipc.ShmRing.Runs.{Fits}
use fips_ipc.ShmRing.WritevLaws.{
  IsSmall, stored, before_end, copy_in_lem, after_lines, after_lines-IsValid, view-after_lines,
}

dst_lem :
    (n w r m : ℕ)
    → w < n
    → r < n
    → (if ltb (dst n w r) m then dst n w r else m) ≡ min m (n - 1 - backlog n r w)
unfolding backlog
dst_lem n w r m hw hr = ground arith

module _ (hdr : GlobalHdr) (seg : Segment) where
  -- The loop over the readers leaves what every queue has room for.
  clamp_lem :
      (rs : List ℕ) (m : ℕ)
      → seg.write_index < hdr.line_count
      → All (λ r. r < hdr.line_count) rs
      → 0 < m
      → clamp hdr.line_count seg.write_index m rs ≡ (
          if room (hdr.line_count - 1) (map (pending hdr seg) rs) m == 0
          then none
          else some (room (hdr.line_count - 1) (map (pending hdr seg) rs) m))
  unfolding clamp room
  clamp_lem [] m hw hr pos = ground arith
  clamp_lem (r ∷ rs) m hw hr pos =
      let m' = min m (hdr.line_count - 1 - backlog hdr.line_count r seg.write_index) in
      let step : room (hdr.line_count - 1) (map (pending hdr seg) (r ∷ rs)) m
          ≡ room (hdr.line_count - 1) (map (pending hdr seg) rs) m' =
        ap
          (λ k.
            room (hdr.line_count - 1) (map (pending hdr seg) rs) (min m (hdr.line_count - 1 - k)))
          (length-window [] hdr.line_count seg.lines r
            (backlog hdr.line_count r seg.write_index)) in
      rw (step, dst_lem hdr.line_count seg.write_index r m hw hr.0)
        (elim (Bool-cases (m' == 0)) [
          | inl e ↦
              rw (e, (==_iff m' 0).0 e, room-zero (hdr.line_count - 1) (map (pending hdr seg) rs))
          | inr e ↦ rw e (clamp_lem rs m' hw hr.1 (ground arith))
        ])

  pending_bound :
      (rs : List ℕ)
      → seg.write_index < hdr.line_count
      → All (λ r. r < hdr.line_count) rs
      → All (λ q. length q ≤ hdr.line_count - 1) (map (pending hdr seg) rs)
  pending_bound [] hw hr = tt
  pending_bound (r ∷ rs) hw hr =
      let size =
        length-window [] hdr.line_count seg.lines r (backlog hdr.line_count r seg.write_index) in
      (
        omega (arith, size, backlog-Reaches hdr.line_count r seg.write_index hr.0 hw),
        pending_bound rs hw hr.1,
      )

map-append_nil {ℓ} : {A : Type ℓ} (qs : List (List A)) → map (λ q. q ++ []) qs ≡ qs
map-append_nil [] = refl
map-append_nil (q ∷ qs) = ap₂ ◌∷◌ (append-nil q) (map-append_nil qs)

stored_none :
    (line_size : ℕ) (iovecs : List Iovec) (d : ℕ) → d ≡ 0 → stored line_size iovecs 0 d ≡ []
stored_none line_size iovecs d e = rw e

-- How many of `vsize` lines go in.
abbrev pub fitting : GlobalHdr → Segment → ℕ → ℕ
fitting hdr seg vsize = room (hdr.line_count - 1) (view hdr seg) (min vsize hdr.line_count)

module _ (hdr : GlobalHdr) (small : IsSmall hdr) (strict : hdr.overwrite ≡ false)
    (iovecs : List Iovec) (fits : All (Fits hdr.line_size) iovecs) (vsize : ℕ)
    (small_v : vsize < 2 ^ 16) (given : vsize ≤ length iovecs) (some_v : 0 < vsize) where
  writev_segment_lem :
      {seg : Segment}
      → IsValid hdr seg
      → writev_segment hdr iovecs vsize seg ≡ (
          if fitting hdr seg vsize == 0 then (ok 0, seg) else (
            ok (fitting hdr seg vsize),
            after_lines hdr small iovecs fits seg (fitting hdr seg vsize),
          ))
  unfolding writev_segment store_lines after_lines
  writev_segment_lem {seg} v =
      let k = fitting hdr seg vsize in
      let most = room-le (hdr.line_count - 1) (view hdr seg) (min vsize hdr.line_count) in
      let readers : take hdr.reader_count seg.read_index ≡ seg.read_index =
        take_all hdr.reader_count seg.read_index (omega arith) in
      let capped : (if ltb hdr.line_count vsize then hdr.line_count else vsize)
          ≡ min vsize hdr.line_count =
        ground arith in
      rw
        (
          strict,
          readers,
          capped,
          clamp_lem hdr seg seg.read_index (min vsize hdr.line_count) v.writer_in v.readers_in
              (omega arith),
        )
        (elim (Bool-cases (k == 0)) [
          | inl e ↦ rw e
          | inr e ↦ rw (
            e,
            copy_in_lem hdr small iovecs fits seg k v (omega (arith, most)) (omega (arith, most))
                (omega (arith, most)) (ground arith),
          )
        ])

  -- On a well-formed segment of at most 2^31 lines of less than 2^16 bytes, in a ring without
  -- overwriting, for at least `vsize` iovecs that fit into lines and a `vsize` above 0 and below
  -- 2^16, the body of `shmrbuf_writev` takes as many lines as every reader's queue has room for, at
  -- most `vsize`, returns that number and appends the same lines to every queue. The appended lines
  -- are the first iovecs up to the end of the ring, and behind it the iovecs from the first one on
  -- again.
  pub writev_segment-publish :
      {seg : Segment}
      → IsValid hdr seg
      → let (ret, seg') = writev_segment hdr iovecs vsize seg in
        let k = fitting hdr seg vsize in
        (ret ≡ ok k)
        × (view hdr seg'
            ≡ map (λ q. q ++ stored hdr.line_size iovecs k (before_end hdr seg k)) (view hdr seg))
  unfolding after_lines
  writev_segment-publish {seg} v =
      let k = fitting hdr seg vsize in
      let most = room-le (hdr.line_count - 1) (view hdr seg) (min vsize hdr.line_count) in
      let each =
        room-fits (hdr.line_count - 1) (view hdr seg) (min vsize hdr.line_count)
          (pending_bound hdr seg seg.read_index v.writer_in v.readers_in) in
      elim (Bool-cases (k == 0)) [
        | inl e ↦
            let none_in : k ≡ 0 = (==_iff k 0).0 e in
            rw (writev_segment_lem v, none_in)
              (
                refl,
                sym (map-append_nil (view hdr seg))
                    ∙ ap (λ ls. map (λ q. q ++ ls) (view hdr seg))
                        (sym
                          (stored_none hdr.line_size iovecs (before_end hdr seg 0) (omega arith))),
              )
        | inr e ↦
            rw (writev_segment_lem v, e)
              (
                refl,
                view-after_lines hdr small iovecs fits seg k seg.read_index (omega (arith, most)) v
                    v.readers_in each,
              )
      ]

-- Where overwriting is allowed, nothing is held back for the readers.
module _ (hdr : GlobalHdr) (small : IsSmall hdr) (iovecs : List Iovec)
    (fits : All (Fits hdr.line_size) iovecs) (vsize : ℕ) (small_v : vsize < 2 ^ 16)
    (given : vsize ≤ length iovecs) (some_v : 0 < vsize) where
  writev_segment_overwriting :
      {seg : Segment}
      → hdr.overwrite ≡ true
      → IsValid hdr seg
      → writev_segment hdr iovecs vsize seg ≡ (
        ok (min vsize hdr.line_count),
        after_lines hdr small iovecs fits seg (min vsize hdr.line_count),
      )
  unfolding writev_segment store_lines after_lines
  writev_segment_overwriting {seg} free v =
      let capped : (if ltb hdr.line_count vsize then hdr.line_count else vsize)
          ≡ min vsize hdr.line_count =
        ground arith in
      rw (
        free,
        capped,
        copy_in_lem hdr small iovecs fits seg (min vsize hdr.line_count) v (omega arith)
            (omega arith) (omega arith) (omega arith),
      )

  -- `shmrbuf_writev` keeps a segment well formed, whether or not it may overwrite.
  pub writev_segment-IsValid :
      {seg : Segment} → IsValid hdr seg → IsValid hdr (writev_segment hdr iovecs vsize seg).1
  writev_segment-IsValid {seg} v =
      let k = fitting hdr seg vsize in
      let most = room-le (hdr.line_count - 1) (view hdr seg) (min vsize hdr.line_count) in
      elim (Bool-cases hdr.overwrite) [
        | inl free ↦ rw (writev_segment_overwriting free v) (
            after_lines-IsValid hdr small iovecs fits seg (min vsize hdr.line_count) (omega arith)
              v)
        | inr strict ↦ elim (Bool-cases (k == 0)) [
          | inl e ↦
              rw (writev_segment_lem hdr small strict iovecs fits vsize small_v given some_v v, e) v
          | inr e ↦
              rw (writev_segment_lem hdr small strict iovecs fits vsize small_v given some_v v, e)
                (after_lines-IsValid hdr small iovecs fits seg k (omega (arith, most)) v)
        ]
      ]
