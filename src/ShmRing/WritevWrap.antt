-- ===== src/ShmRing/WritevWrap.antt =====
-- On the lines of a `shmrbuf_writev` that go round the end of the ring.
use fips_ipc.Prelude.{
  ℕ, ◌+◌, ◌-◌, ◌^◌, ◌≤◌, ◌<◌, ◌≡◌, ◌≢◌, refl, ap, ◌∙◌, sym, false, List, [], ◌∷◌, ◌++◌, map, length,
  get_or, take, All, arith, min, length-map, length-take, get_or-append_right, get_or-map,
  get_or-take,
}
use fips_ipc.Broadcast.{room-le}
use fips_ipc.ShmRing.{GlobalHdr, Segment, Iovec}
use fips_ipc.ShmRing.Invariant.{IsValid, pending, view}
use fips_ipc.ShmRing.Writev.{writev_segment}
use fips_ipc.ShmRing.Runs.{Fits, line_of}
use fips_ipc.ShmRing.WritevLaws.{IsSmall, stored, before_end}
use fips_ipc.ShmRing.WritevPublish.{fitting, writev_segment-publish}

abbrev pub no_iovec : Iovec
no_iovec = record { iov_base = []; iov_len = 0 }

module _ (line_size : ℕ) (iovecs : List Iovec) (k d : ℕ) (enough : k ≤ length iovecs)
    (below : d < k) where
  stored_at :
      get_or (stored line_size iovecs k d) d [] ≡ line_of line_size (get_or iovecs 0 no_iovec)
  stored_at =
      let first = map (line_of line_size) (take d iovecs) in
      let second = map (line_of line_size) (take (k - d) iovecs) in
      let size : length first ≡ d =
        omega (arith, length-map (line_of line_size) (take d iovecs), length-take d iovecs) in
      let here : d ≡ d + 0 = omega arith in
      ap (λ (i : ℕ). get_or (first ++ second) i []) here
      ∙ get_or-append_right first second d 0 [] size
      ∙ get_or-map (line_of line_size) (take (k - d) iovecs) 0 no_iovec []
          (omega (arith, length-take (k - d) iovecs))
      ∙ ap (line_of line_size) (get_or-take (k - d) iovecs 0 no_iovec (omega arith))

  given_at :
      get_or (map (line_of line_size) (take k iovecs)) d []
      ≡ line_of line_size (get_or iovecs d no_iovec)
  given_at =
      get_or-map (line_of line_size) (take k iovecs) d no_iovec []
        (omega (arith, length-take k iovecs))
      ∙ ap (line_of line_size) (get_or-take k iovecs d no_iovec below)

-- The queue of some reader tells two lists of added lines apart.
append_differs :
    (qs : List (List (List ℕ))) (xs ys : List (List ℕ)) (i : ℕ)
    → 0 < length qs
    → map (λ q. q ++ xs) qs ≡ map (λ q. q ++ ys) qs
    → get_or xs i [] ≡ get_or ys i []
append_differs [] xs ys i h e = absurd (omega arith)
append_differs (q ∷ qs) xs ys i h e =
    let same : q ++ xs ≡ q ++ ys = ap (λ (l : List (List (List ℕ))). get_or l 0 []) e in
    sym (get_or-append_right q xs (length q) i [] refl)
    ∙ ap (λ (l : List (List ℕ)). get_or l (length q + i) []) same
    ∙ get_or-append_right q ys (length q) i [] refl

module _ (hdr : GlobalHdr) (small : IsSmall hdr) (strict : hdr.overwrite ≡ false)
    (iovecs : List Iovec) (fits : All (Fits hdr.line_size) iovecs) (vsize : ℕ)
    (small_v : vsize < 2 ^ 16) (given : vsize ≤ length iovecs) (some_v : 0 < vsize) where
  -- Whenever `shmrbuf_writev` takes more lines than fit before the end of the ring, the first line
  -- behind the end differs from the very first line, and there is a reader, the readers' queues are
  -- not extended by the lines that were given: the second copying loop starts again at the first
  -- iovec. This is for a well-formed segment of at most 2^31 lines of less than 2^16 bytes, in a
  -- ring without overwriting, at least `vsize` iovecs that fit into lines and a `vsize` above 0 and
  -- below 2^16.
  pub writev_segment-wrap :
      {seg : Segment}
      → IsValid hdr seg
      → 0 < hdr.reader_count
      → (hdr.line_count - seg.write_index < fitting hdr seg vsize)
      → line_of hdr.line_size (get_or iovecs (hdr.line_count - seg.write_index) no_iovec)
        ≢ line_of hdr.line_size (get_or iovecs 0 no_iovec)
      → view hdr (writev_segment hdr iovecs vsize seg).1
        ≢ map
            (λ q. q ++ map (line_of hdr.line_size) (take (fitting hdr seg vsize) iovecs))
            (view hdr seg)
  writev_segment-wrap {seg} v readers round differ same =
      let k = fitting hdr seg vsize in
      let b = before_end hdr seg k in
      let most = room-le (hdr.line_count - 1) (view hdr seg) (min vsize hdr.line_count) in
      let at_end : hdr.line_count - seg.write_index ≡ b = omega arith in
      let enough : k ≤ length iovecs = omega (arith, most) in
      let below : b < k = omega arith in
      let added =
        sym (writev_segment-publish hdr small strict iovecs fits vsize small_v given some_v v).1
        ∙ same in
      differ (
        ap (λ (i : ℕ). line_of hdr.line_size (get_or iovecs i no_iovec)) at_end
        ∙ sym (given_at hdr.line_size iovecs k b enough below)
        ∙ sym (
            append_differs (view hdr seg) (stored hdr.line_size iovecs k b)
              (map (line_of hdr.line_size) (take k iovecs)) b
              (omega (arith, length-map (pending hdr seg) seg.read_index)) added)
        ∙ stored_at hdr.line_size iovecs k b enough below)
