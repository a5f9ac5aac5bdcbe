-- ===== src/FipsBuf/ReturnsLaws.antt =====
-- `fips_buf_list_add_sqe` against the list of ranges that it stands for.
use fips_ipc.Prelude.{
  ℕ, zero, suc, ◌+◌, ◌%◌, ◌^◌, ◌≡◌, ◌≢◌, ◌<◌, ◌≤◌, refl, ap, ◌∙◌, true, false, Option, none, some,
  List, [], ◌∷◌, ◌==◌, length, map, Bool-cases, inl, inr, arith,
}
use fips_ipc.FipsBuf.{success, Pointer, Header}
use fips_ipc.FipsBuf.Ring.{Range, masked}
use fips_ipc.FipsBuf.Returns.{
  Sqe, SqeList, sqe_size, no_range, store_sqe, written, link_sqe, with_success, wait_sqe,
  commit_sqes, fips_buf_list_add_sqe,
}
use fips_ipc.FipsBuf.Waiting.{
  Cells, has, cell_start, cell_range, insert_by, map-insert_by, advance, return_range, Chain,
  Chain-frame,
}
use fips_ipc.FipsBuf.Place.{indices, place_sqe-Placed}

store_sqe_ne :
    (i j : ℕ) (sqe : Sqe) (l : SqeList) → (j == i) ≡ false → (store_sqe i sqe l).sqes j ≡ l.sqes j
unfolding store_sqe
store_sqe_ne i j sqe l out = rw out refl

-- The loop that commits ends, and commits what `advance` says.
pub commit_sqes-advance :
    (hdr : Header) (cs : Cells) (rounds : ℕ) (reader : Pointer) (l : SqeList)
    → length cs < rounds
    → Chain l.sqes l.first_offset cs
    → let (commit, waiting) = advance hdr reader.commit_offset (map cell_range cs) in
      (l' : SqeList) × (after : Cells) × (commit_sqes rounds hdr (reader, l)
        ≡ some (record reader { commit_offset = commit }, l'))
      × Chain l'.sqes l'.first_offset after
      × (map cell_range after ≡ waiting)
unfolding commit_sqes Chain store_sqe
commit_sqes-advance hdr cs zero reader l enough chain = absurd (omega arith)
commit_sqes-advance hdr [] (suc rounds) reader l enough chain =
    (l, [], simp (chain) refl, chain, refl)
commit_sqes-advance hdr ((i, r) ∷ cs) (suc rounds) reader l enough chain =
    let taken : Sqe = record { range = no_range; next_offset = none } in
    elim (Bool-cases (r.start_index == reader.commit_offset)) [
      | inl on ↦
          let reader' : Pointer = record reader {
            commit_offset = masked hdr (reader.commit_offset + r.count);
          } in
          let next = store_sqe i taken (record l {
            first_offset = (l.sqes i).next_offset;
            read_index = (l.read_index + sqe_size) % 2 ^ 64;
          }) in
          let (l', after, run, rest, left) =
            commit_sqes-advance hdr cs rounds reader' next (omega arith) (
              Chain-frame l.sqes next.sqes (l.sqes i).next_offset cs
                (λ j in_cs. store_sqe_ne i j taken l (ground arith)) chain.3) in
          (l', after, simp (chain.0, chain.1, on) run, rest, simp (on) left)
      | inr off ↦ (l, (i, r) ∷ cs, simp (chain.0, chain.1, off) refl, chain, rw off refl)
    ]

==_refl : (i : ℕ) → (i == i) ≡ true
==_refl i = ground arith

written-new :
    (tag : Range) (l : SqeList)
    → (written tag l).sqes l.write_index ≡ record { range = tag; next_offset = none }
unfolding store_sqe
written-new tag l = rw (==_refl l.write_index) refl

written-first : (tag : Range) (l : SqeList) → (written tag l).first_offset ≡ l.first_offset
unfolding store_sqe
written-first tag l = refl

indices-written :
    (tag : Range) (l : SqeList)
    → indices (written tag l) ≡ (l.capacity, l.read_index, (l.write_index + 1) % l.capacity)
unfolding store_sqe
indices-written tag l = refl

written-Chain :
    (tag : Range) (l : SqeList) (first : Option ℕ) (cs : Cells)
    → has l.write_index cs ≡ false
    → Chain l.sqes first cs
    → Chain (written tag l).sqes first cs
unfolding store_sqe
written-Chain tag l first cs fresh chain =
    Chain-frame l.sqes (written tag l).sqes first cs
      (λ j in_cs. store_sqe_ne l.write_index j _ l (ground arith)) chain

module _ (tag : Range) (l : SqeList) (rounds : ℕ) where
  wait_sqe_lem :
      (l.read_index == (l.write_index + 1) % l.capacity) ≡ false
      → wait_sqe rounds tag l
        ≡ link_sqe rounds tag.start_index l.write_index l.first_offset (written tag l)
  unfolding wait_sqe
  wait_sqe_lem free = rw free refl

  linking :
      (first : Option ℕ)
      → l.first_offset ≡ first
      → link_sqe rounds tag.start_index l.write_index l.first_offset (written tag l)
        ≡ link_sqe rounds tag.start_index l.write_index first (written tag l)
  linking first e =
      ap (λ (f : Option ℕ). link_sqe rounds tag.start_index l.write_index f (written tag l)) e

-- A range that has to wait is inserted, if there is room in the array.
pub wait_sqe-insert_by :
    (tag : Range) (l : SqeList) (cs : Cells) (rounds : ℕ)
    → length cs < suc rounds
    → l.read_index ≢ (l.write_index + 1) % l.capacity
    → has l.write_index cs ≡ false
    → Chain l.sqes l.first_offset cs
    → (l' : SqeList) × (wait_sqe rounds tag l ≡ some (success, l'))
      × Chain l'.sqes l'.first_offset (insert_by cell_start (l.write_index, tag) cs)
      × (indices l' ≡ (l.capacity, l.read_index, (l.write_index + 1) % l.capacity))
unfolding link_sqe Chain
wait_sqe-insert_by tag l [] rounds enough room fresh chain =
    let free : (l.read_index == (l.write_index + 1) % l.capacity) ≡ false = ground arith in
    (
      record (written tag l) { first_offset = some l.write_index },
      wait_sqe_lem tag l rounds free ∙ linking tag l rounds none chain,
      (
        refl,
        ap (λ (sqe : Sqe). sqe.range) (written-new tag l),
        refl,
        ap (λ (sqe : Sqe). sqe.next_offset) (written-new tag l),
      ),
      indices-written tag l,
    )
wait_sqe-insert_by tag l ((i, r) ∷ cs) rounds enough room fresh chain =
    let free : (l.read_index == (l.write_index + 1) % l.capacity) ≡ false = ground arith in
    let (l', run, placed) =
      place_sqe-Placed l.write_index tag none i r cs (written tag l) rounds (omega arith) fresh
        (λ j in_cs e. cc) (written-new tag l) (written-first tag l ∙ chain.0)
        (written-Chain tag l (some i) ((i, r) ∷ cs) fresh (refl, chain.1, chain.2, chain.3)) in
    (
      l',
      wait_sqe_lem tag l rounds free ∙ linking tag l rounds (some i) chain.0 ∙ ap with_success run,
      placed.chain,
      placed.same_indices ∙ indices-written tag l,
    )

-- The loop commits nothing when the first range does not continue the committed lines.
pub commit_sqes_stop :
    (hdr : Header) (i : ℕ) (r : Range) (cs : Cells) (rounds : ℕ) (reader : Pointer) (l : SqeList)
    → Chain l.sqes l.first_offset ((i, r) ∷ cs)
    → r.start_index ≢ reader.commit_offset
    → commit_sqes (suc rounds) hdr (reader, l) ≡ some (reader, l)
unfolding commit_sqes Chain
commit_sqes_stop hdr i r cs rounds reader l chain other =
    let off : (r.start_index == reader.commit_offset) ≡ false = ground arith in
    simp (chain.0, chain.1, off) refl

pub length-insert_by :
    {A : Type 0} (start : A → ℕ) (t : A) (rs : List A)
    → length (insert_by start t rs) ≤ length rs + 1
length-insert_by start t [] = omega arith
length-insert_by start t (r ∷ []) = ground arith
length-insert_by start t (r ∷ s ∷ rs) = ground (arith, length-insert_by start t (s ∷ rs))

-- When the entry at the write index is not in use, the read index is not the next write index, and
-- the bound on the rounds is above the number of waiting ranges and one more,
-- `fips_buf_list_add_sqe` succeeds and does on the list of entries in the array what `return_range`
-- does on the commit offset and the list of waiting ranges: a range at the commit offset is
-- committed; any other goes before the first waiting range that starts behind it, or, where ranges
-- wait and none starts behind it, takes the place of the last of them, or is the only one to wait;
-- and then the waiting ranges that continue the committed lines are committed.
pub fips_buf_list_add_sqe-return_range :
    (hdr : Header) (tag : Range) (reader : Pointer) (l : SqeList) (cs : Cells) (rounds : ℕ)
    → length cs + 1 < rounds
    → l.read_index ≢ (l.write_index + 1) % l.capacity
    → has l.write_index cs ≡ false
    → Chain l.sqes l.first_offset cs
    → let (commit, waiting) = return_range hdr tag (reader.commit_offset, map cell_range cs) in
      (l' : SqeList) × (after : Cells) × (fips_buf_list_add_sqe rounds hdr tag (reader, l)
        ≡ some (success, record reader { commit_offset = commit }, l'))
      × Chain l'.sqes l'.first_offset after
      × (map cell_range after ≡ waiting)
unfolding fips_buf_list_add_sqe return_range
fips_buf_list_add_sqe-return_range hdr tag reader l cs rounds enough room fresh chain =
    elim (Bool-cases (reader.commit_offset == tag.start_index)) [
      | inl on ↦
          let reader' : Pointer = record reader {
            commit_offset = masked hdr (reader.commit_offset + tag.count);
          } in
          let (l', after, run, rest, left) =
            commit_sqes-advance hdr cs rounds reader' l (omega arith) chain in
          (l', after, simp (on, run) refl, rest, rw on left)
      | inr off ↦
          let (placed, ran, chain', same) =
            wait_sqe-insert_by tag l cs rounds (omega arith) room fresh chain in
          let inserted = insert_by cell_start (l.write_index, tag) cs in
          let (l', after, run, rest, left) =
            commit_sqes-advance hdr inserted rounds reader placed
              (omega (arith, length-insert_by cell_start (l.write_index, tag) cs)) chain' in
          let shorter = map-insert_by cell_range (λ r. r.start_index) (l.write_index, tag) cs in
          (l', after, simp (off, ran, ← shorter, run) refl, rest, rw (off, ← shorter) left)
    ]
