-- ===== src/FipsBuf/RingLaws.antt =====
-- Lemmas on when lines are handed to a writer and to a reader, in the terms of a backlog.
use fips_ipc.Prelude.{
  ℕ, ◌+◌, ◌^◌, ◌≤◌, ◌<◌, ◌≡◌, ◌⊎◌, wrap_cases, le→ltb, lt→ltb, refl, inl, inr, true, false,
  Bool-cases, List, [], ◌∷◌, leb, arith, take, take_all, length, All,
}
use fips_ipc.ShmRing.Window.{backlog}
use fips_ipc.FipsBuf.{success, no_space, corrupted, Pointer, Header, Segment, Iovec}
use fips_ipc.FipsBuf.Ring.{
  masked, in_the_way, any_in_the_way, get_write_buffer, write, write_iovecs,
}

-- The index after `k` lines of a ring of `n`.
module _ (n h k : ℕ) (inside : h < n) (some_lines : 0 < k) (fewer : k < n) where
  in_the_way-backlog :
      (c h' : ℕ)
      → c < n
      → (h' ≡ h + k) ⊎ (h' + n ≡ h + k)
      → h' < n
      → in_the_way h h' c ≡ leb n (backlog n c h + k)
  unfolding in_the_way backlog
  in_the_way-backlog c h' hc e l = ground arith

-- A segment of a ring whose offsets lie within it.
pub record IsValid (hdr : Header) (seg : Segment) : Type 0 where
  pub lines_bound : 2 ^ hdr.line_count_exp ≤ 2 ^ 31
  pub head_in : seg.writer.head_offset < 2 ^ hdr.line_count_exp
  pub commit_in : seg.writer.commit_offset < 2 ^ hdr.line_count_exp
  pub readers_in :
      All
        (λ r. (r.head_offset < 2 ^ hdr.line_count_exp) × (r.commit_offset < 2 ^ hdr.line_count_exp))
        seg.readers
  pub attached : length seg.readers ≡ hdr.reader_count

-- Every reader has room for `k` lines: the lines that it has not returned, and these, are fewer than
-- all lines.
abbrev pub HasRoom : Header → ℕ → ℕ → List Pointer → Type 0
HasRoom hdr head k [] = Unit
HasRoom hdr head k (r ∷ rs) =
    (backlog (2 ^ hdr.line_count_exp) r.commit_offset head + k < 2 ^ hdr.line_count_exp)
    × HasRoom hdr head k rs

module _ (hdr : Header) (seg : Segment) (v : IsValid hdr seg) (k : ℕ) (some_lines : 0 < k)
    (fewer : k < 2 ^ hdr.line_count_exp) where
  abbrev n : ℕ
  n = 2 ^ hdr.line_count_exp

  abbrev h : ℕ
  h = seg.writer.head_offset

  moved :
      (i : ℕ)
      → i < n
      → ((masked hdr (i + k) ≡ i + k) ⊎ (masked hdr (i + k) + n ≡ i + k)) × (masked hdr (i + k) < n)
  moved i below = elim (wrap_cases n i k v.lines_bound below (omega arith)) [
    | inl (short, e) ↦ (inl e, omega (arith, e))
    | inr (long, e) ↦ (inr (omega (arith, e)), omega (arith, e))
  ]

  any_in_the_way-HasRoom :
      (rs : List Pointer)
      → All (λ r. (r.head_offset < n) × (r.commit_offset < n)) rs
      → ((any_in_the_way h (masked hdr (h + k)) rs ≡ false) × HasRoom hdr h k rs)
        ⊎ ((any_in_the_way h (masked hdr (h + k)) rs ≡ true) × ¬ HasRoom hdr h k rs)
  unfolding any_in_the_way
  any_in_the_way-HasRoom [] b = inl (refl, tt)
  any_in_the_way-HasRoom (r ∷ rs) b =
      let (e, l) = moved h v.head_in in
      let one =
        in_the_way-backlog n h k v.head_in some_lines fewer r.commit_offset (masked hdr (h + k))
          b.0.1 e l in
      elim (Bool-cases (leb n (backlog n r.commit_offset h + k))) [
        | inl blocked ↦ inr (rw (one, blocked) refl, λ room. ground (arith, blocked, room.0))
        | inr free ↦ elim (any_in_the_way-HasRoom rs b.1) [
          | inl (none_there, room) ↦
              inl (rw (one, free, none_there) refl, (ground (arith, free), room))
          | inr (there, no_room) ↦ inr (rw (one, free, there) refl, λ room. no_room room.1)
        ]
      ]

  abbrev pub granted : Segment
  granted = record seg { writer = record (seg.writer) { head_offset = masked hdr (h + k) } }

  -- On a segment whose offsets lie within its at most 2^31 lines, in a buffer without overwriting,
  -- for a number of lines above 0 and below the number of all lines, `fips_get_write_buffer`
  -- succeeds, hands out the lines from the writer's head on and moves the head past them exactly if
  -- every attached reader has room: the lines it has not returned, together with those wanted, are
  -- fewer than all lines. Otherwise it returns FIPS_BUF_ERROR_NO_SPACE and changes nothing.
  pub get_write_buffer-HasRoom :
      hdr.overwrite ≡ false
      → (HasRoom hdr h k seg.readers
          × ((get_write_buffer hdr k seg).0 ≡ success)
          × ((get_write_buffer hdr k seg).1 ≡ write_iovecs hdr seg.data_offset h 0 k)
          × ((get_write_buffer hdr k seg).2 ≡ granted))
        ⊎ ((¬ HasRoom hdr h k seg.readers)
            × ((get_write_buffer hdr k seg).0 ≡ no_space)
            × ((get_write_buffer hdr k seg).2 ≡ seg))
  unfolding get_write_buffer
  get_write_buffer-HasRoom strict =
      let all : take hdr.reader_count seg.readers ≡ seg.readers =
        take_all hdr.reader_count seg.readers (omega (arith, v.attached)) in
      elim (any_in_the_way-HasRoom seg.readers v.readers_in) [
        | inl (free, room) ↦ inl (
          room,
          rw (all, strict, free) refl,
          rw (all, strict, free) refl,
          rw (all, strict, free) refl,
        )
        | inr (there, no_room) ↦
            inr (no_room, rw (all, strict, there) refl, rw (all, strict, there) refl)
      ]

  -- On a segment whose offsets lie within its at most 2^31 lines, for a number of lines above 0 and
  -- below the number of all lines, and where all earlier lines are committed, `fips_buf_write` of
  -- all the lines that `fips_get_write_buffer` handed out succeeds, and the writer's commit offset
  -- is then its head.
  pub write-granted :
      (iovecs : List Iovec)
      → seg.writer.commit_offset ≡ h
      → ((write hdr iovecs k granted).0 ≡ success)
        × ((write hdr iovecs k granted).1.writer
            ≡ record { head_offset = masked hdr (h + k); commit_offset = masked hdr (h + k) })
  unfolding write
  write-granted iovecs same =
      let exact = le→ltb (masked hdr (h + k)) (masked hdr (h + k)) (omega arith) in
      rw (same, exact) (refl, refl)

  -- When the lines handed out go round the end of the buffer, `fips_buf_write` of a part of them
  -- that stays before the end is refused as corrupted, and the writer's offsets stay. This is for a
  -- segment whose offsets lie within its at most 2^31 lines, and a number of lines above 0 and
  -- below the number of all lines.
  pub write-corrupted :
      (iovecs : List Iovec)
      → h < seg.writer.commit_offset
      → seg.writer.commit_offset + k < n
      → ((write hdr iovecs k seg).0 ≡ corrupted) × ((write hdr iovecs k seg).1.writer ≡ seg.writer)
  unfolding write
  write-corrupted iovecs round partial =
      elim (wrap_cases n seg.writer.commit_offset k v.lines_bound v.commit_in (omega arith)) [
        | inl (short, e) ↦
            let past = lt→ltb h (masked hdr (seg.writer.commit_offset + k)) (omega (arith, e)) in
            rw past (refl, refl)
        | inr (long, e) ↦ absurd (omega arith)
      ]
