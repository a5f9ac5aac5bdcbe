-- ===== src/ShmRing/WritevLaws.antt =====
-- Lemmas on the copying of `shmrbuf_writev`, in the terms of the queues of the readers.
use fips_ipc.Prelude.{
  ℕ, zero, suc, ◌+◌, ◌-◌, ◌%◌, ◌^◌, ◌≤◌, ◌<◌, ◌≡◌, ◌⊎◌, inl, inr, refl, ap, ap₂, ◌∙◌, true, List,
  [], ◌∷◌, ◌++◌, map, length, take, min, All, arith, length-take, length-map, le→ltb, lt→ltb,
  wrap_cases,
}
use fips_ipc.ShmRing.{GlobalHdr, Segment, Iovec}
use fips_ipc.ShmRing.Window.{
  backlog, window, set_run, length-set_run, length-window, backlog-Reaches, Reaches-backlog,
}
use fips_ipc.ShmRing.Invariant.{IsValid, pending}
use fips_ipc.ShmRing.Writev.{put_lines, copy_in}
use fips_ipc.ShmRing.Runs.{
  Fits, line_of, length-line_of, put_lines_lem, All-set_run, window-set_runs,
}

-- The bounds of the field types: `line_size` is a `uint16_t`, and an index and a count of lines do
-- not add up to more than a `uint32_t`.
pub record IsSmall (hdr : GlobalHdr) : Type 0 where
  pub size_in : hdr.line_size < 2 ^ 16
  pub count_in : hdr.line_count ≤ 2 ^ 31

take-All {ℓ κ} : {A : Type ℓ} (P : A → Type κ) (k : ℕ) (xs : List A) → All P xs → All P (take k xs)
take-All P zero xs h = tt
take-All P (suc k) [] h = tt
take-All P (suc k) (x ∷ xs) h = (h.0, take-All P k xs h.1)

All-map {ℓ κ} :
    {A B : Type ℓ} (f : A → B) (P : A → Type κ) (Q : B → Type κ)
    → ((a : A) → P a → Q (f a))
    → (xs : List A) → All P xs
    → All Q (map f xs)
All-map f P Q g [] h = tt
All-map f P Q g (x ∷ xs) h = (g x h.0, All-map f P Q g xs h.1)

-- The lines that go in: `d` up to the end of the ring, and the rest from `iovecs[0]` again.
abbrev pub stored : ℕ → List Iovec → ℕ → ℕ → List (List ℕ)
stored line_size iovecs k d =
    map (line_of line_size) (take d iovecs) ++ map (line_of line_size) (take (k - d) iovecs)

-- How many lines fit before the end of the ring.
abbrev pub before_end : GlobalHdr → Segment → ℕ → ℕ
before_end hdr seg k = min k (hdr.line_count - seg.write_index)

module _ (hdr : GlobalHdr) (small : IsSmall hdr) (iovecs : List Iovec)
    (fits : All (Fits hdr.line_size) iovecs) where
  pub run_of : ℕ → List (List ℕ)
  run_of k = map (line_of hdr.line_size) (take k iovecs)

  length-run_of : (k : ℕ) → k ≤ length iovecs → length (run_of k) ≡ k
  unfolding run_of
  length-run_of k h =
      omega (arith, length-map (line_of hdr.line_size) (take k iovecs), length-take k iovecs)

  All-run_of : (k : ℕ) → All (λ l. length l ≡ hdr.line_size) (run_of k)
  unfolding run_of
  All-run_of k =
      All-map (line_of hdr.line_size) (Fits hdr.line_size) (λ l. length l ≡ hdr.line_size)
        (length-line_of hdr.line_size) (take k iovecs) (take-All (Fits hdr.line_size) k iovecs fits)

  put_run :
      (lines : List (List ℕ)) (pos k : ℕ)
      → All (λ l. length l ≡ hdr.line_size) lines
      → k ≤ length iovecs
      → pos + k ≤ length lines
      → put_lines hdr.line_size lines pos (take k iovecs) ≡ (true, set_run [] lines pos (run_of k))
  unfolding run_of
  put_run lines pos k hl hk h =
      put_lines_lem hdr.line_size small.size_in lines pos (take k iovecs) hl
        (take-All (Fits hdr.line_size) k iovecs fits) (omega (arith, length-take k iovecs))

  -- The lines of the ring after both copying loops.
  pub after_runs : Segment → ℕ → List (List ℕ)
  after_runs seg k =
      set_run [] (set_run [] seg.lines seg.write_index (run_of (before_end hdr seg k))) 0
        (run_of (k - before_end hdr seg k))

  pub copy_in_lem :
      (seg : Segment) (k : ℕ)
      → IsValid hdr seg
      → k < 2 ^ 16
      → k ≤ length iovecs
      → k ≤ hdr.line_count
      → 0 < k
      → copy_in hdr iovecs k seg.write_index
          ((seg.write_index + k) % 2 ^ 32 % hdr.line_count)
          seg.lines
        ≡ (true, after_runs seg k)
  unfolding copy_in after_runs set_run run_of
  copy_in_lem seg k v small_k hk hn pos =
      elim (wrap_cases hdr.line_count seg.write_index k small.count_in v.writer_in hn) [
        | inl (inside, e) ↦
            let all_before : before_end hdr seg k ≡ k = omega arith in
            let none_left : k - k ≡ 0 = omega arith in
            rw
              (e, lt→ltb seg.write_index (seg.write_index + k) (omega arith), all_before, none_left)
              (put_run seg.lines seg.write_index k v.lines_size hk (omega arith))
        | inr (round, e) ↦
            let to_end : (hdr.line_count - seg.write_index) % 2 ^ 16 ≡ before_end hdr seg k =
              omega arith in
            let rest : (k + 2 ^ 16 - before_end hdr seg k) % 2 ^ 16 ≡ k - before_end hdr seg k =
              omega arith in
            let lines1 = set_run [] seg.lines seg.write_index (run_of (before_end hdr seg k)) in
            rw
              (
                e,
                le→ltb seg.write_index (seg.write_index + k - hdr.line_count) (omega arith),
                to_end,
                rest,
                put_run seg.lines seg.write_index (before_end hdr seg k) v.lines_size (omega arith)
                    (omega arith),
              )
              (put_run lines1 0 (k - before_end hdr seg k)
                (All-set_run [] (λ l. length l ≡ hdr.line_size) seg.lines seg.write_index
                  (run_of (before_end hdr seg k)) v.lines_size (All-run_of (before_end hdr seg k)))
                (omega arith)
                (omega (
                  arith,
                  length-set_run [] seg.lines seg.write_index (run_of (before_end hdr seg k)),
                )))
      ]

  -- The segment after `k` lines.
  unfoldable pub after_lines : Segment → ℕ → Segment
  after_lines seg k = record seg {
    write_index = (seg.write_index + k) % 2 ^ 32 % hdr.line_count;
    lines = after_runs seg k;
  }

  pub after_lines-IsValid :
      (seg : Segment) (k : ℕ)
      → k ≤ hdr.line_count
      → IsValid hdr seg
      → IsValid hdr (after_lines seg k)
  unfolding after_lines after_runs
  after_lines-IsValid seg k hn v =
      let first = run_of (before_end hdr seg k) in
      let second = run_of (k - before_end hdr seg k) in
      record {
        lines_count =
            length-set_run [] (set_run [] seg.lines seg.write_index first) 0 second
            ∙ length-set_run [] seg.lines seg.write_index first
            ∙ v.lines_count;
        lines_size =
            All-set_run [] (λ l. length l ≡ hdr.line_size)
              (set_run [] seg.lines seg.write_index first) 0 second
              (All-set_run [] (λ l. length l ≡ hdr.line_size) seg.lines seg.write_index first
                v.lines_size (All-run_of _))
              (All-run_of _);
        writer_in =
            omega
              (arith, wrap_cases hdr.line_count seg.write_index k small.count_in v.writer_in hn);
        readers_count = v.readers_count;
        readers_in = v.readers_in;
      }

  pending-after_lines :
      (seg : Segment) (k r : ℕ)
      → k ≤ length iovecs
      → IsValid hdr seg
      → r < hdr.line_count
      → backlog hdr.line_count r seg.write_index + k < hdr.line_count
      → pending hdr (after_lines seg k) r
        ≡ pending hdr seg r ++ stored hdr.line_size iovecs k (before_end hdr seg k)
  unfolding after_lines after_runs run_of
  pending-after_lines seg k r hk v hr room_left =
      let n = hdr.line_count in
      let w = seg.write_index in
      let b = before_end hdr seg k in
      let new_w = (w + k) % 2 ^ 32 % n in
      let reach = backlog-Reaches n r w hr v.writer_in in
      let new_w_cases = wrap_cases n w k small.count_in v.writer_in (omega arith) in
      let first = length-run_of b (omega arith) in
      let second = length-run_of (k - b) (omega arith) in
      let steps : backlog n r new_w ≡ backlog n r w + length (run_of b) + length (run_of (k - b)) =
        Reaches-backlog n r (backlog n r w + k) new_w hr (omega (arith, new_w_cases)) room_left
          (omega (arith, new_w_cases, reach.0))
        ∙ omega (arith, first, second) in
      let ends : (run_of (k - b) ≡ []) ⊎ (w + length (run_of b) ≡ n) = elim new_w_cases [
        | inl (inside, _) ↦ let none_left : k - b ≡ 0 = omega arith in inl (ap run_of none_left)
        | inr (round, _) ↦ inr (omega (arith, first))
      ] in
      ap (window [] n (after_runs seg k) r) steps
      ∙ window-set_runs [] n seg.lines (run_of b) (run_of (k - b)) (backlog n r w) r w v.lines_count
          hr (omega (arith, first)) (omega (arith, first, second)) reach.0 ends

  pub view-after_lines :
      (seg : Segment) (k : ℕ) (rs : List ℕ)
      → k ≤ length iovecs
      → IsValid hdr seg
      → All (λ r. r < hdr.line_count) rs
      → All (λ q. length q + k ≤ hdr.line_count - 1) (map (pending hdr seg) rs)
      → map (pending hdr (after_lines seg k)) rs
        ≡ map
            (λ q. q ++ stored hdr.line_size iovecs k (before_end hdr seg k))
            (map (pending hdr seg) rs)
  view-after_lines seg k [] hk v hr h = refl
  view-after_lines seg k (r ∷ rs) hk v hr h =
      let size =
        length-window [] hdr.line_count seg.lines r (backlog hdr.line_count r seg.write_index) in
      ap₂ ◌∷◌ (pending-after_lines seg k r hk v hr.0 (omega (arith, h.0, size)))
        (view-after_lines seg k rs hk v hr.1 h.1)
