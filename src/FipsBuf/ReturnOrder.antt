-- ===== src/FipsBuf/ReturnOrder.antt =====
-- What follows for `fips_buf_list_add_sqe` about the order in which ranges are returned.
use fips_ipc.Prelude.{
  ℕ, suc, ◌+◌, ◌-◌, ◌%◌, ◌≡◌, ◌≢◌, ◌<◌, ◌≤◌, ◌⊎◌, inl, inr, refl, sym, ap, false, some, List, [],
  ◌∷◌, ◌++◌, ◌==◌, ==_iff, ltb, length, length-map, map, take, All, Bool-cases, arith,
}
use fips_ipc.FipsBuf.{success, Pointer, Header}
use fips_ipc.FipsBuf.Ring.{Range, masked}
use fips_ipc.FipsBuf.Returns.{SqeList, fips_buf_list_add_sqe}
use fips_ipc.FipsBuf.Waiting.{Cells, has, cell_range, insert_by, advance, return_range, Chain}
use fips_ipc.FipsBuf.ReturnsLaws.{fips_buf_list_add_sqe-return_range}

-- The ranges follow one another from the first offset to the second.
abbrev pub Passes : Header → ℕ → List Range → ℕ → Type 0
Passes hdr commit [] end = commit ≡ end
Passes hdr commit (r ∷ rs) end =
    (r.start_index ≡ commit) × Passes hdr (masked hdr (commit + r.count)) rs end

abbrev pub Among : Range → List Range → Type 0
Among r [] = ⊥
Among r (s ∷ rs) = (r ≡ s) ⊎ Among r rs

All-weaken :
    {P Q : Range → Type 0} (rs : List Range) → ((r : Range) → P r → Q r) → All P rs → All Q rs
All-weaken [] f ps = tt
All-weaken (r ∷ rs) f ps = (f r ps.0, All-weaken rs f ps.1)

advance-Passes :
    (hdr : Header) (commit : ℕ) (rs : List Range)
    → (passed : List Range) × Passes hdr commit passed (advance hdr commit rs).0
      × All (λ r. Among r rs) passed
      × (passed ++ (advance hdr commit rs).1 ≡ rs)
advance-Passes hdr commit [] = ([], refl, tt, refl)
advance-Passes hdr commit (r ∷ rs) = elim (Bool-cases (r.start_index == commit)) [
  | inl on ↦
      let (passed, passes, among, all) = advance-Passes hdr (masked hdr (commit + r.count)) rs in
      (
        r ∷ passed,
        rw on ((==_iff _ _).0 on, passes),
        (inl refl, All-weaken passed (λ s a. inr a) among),
        rw on (ap (◌∷◌ r) all),
      )
  | inr off ↦ ([], rw off refl, tt, rw off refl)
]

Among-insert_by :
    (t r : Range) (rs : List Range)
    → Among r (insert_by (λ s. s.start_index) t rs)
    → Among r (t ∷ rs)
Among-insert_by t r [] a = a
Among-insert_by t r (s ∷ []) a = elim (Bool-cases (ltb t.start_index s.start_index)) [
  | inl e ↦ rw e at a
  | inr e ↦
      (let b : (r ≡ t) ⊎ ⊥ = rw e at a in
        elim b [ inl same ↦ inl same | inr none_left ↦ absurd none_left ])
]
Among-insert_by t r (s ∷ u ∷ rs) a = elim (Bool-cases (ltb t.start_index s.start_index)) [
  | inl e ↦ rw e at a
  | inr e ↦
      (let b : (r ≡ s) ⊎ Among r (insert_by (λ v. v.start_index) t (u ∷ rs)) = rw e at a in
        elim b [
          | inl same ↦ inr (inl same)
          | inr later ↦ elim (Among-insert_by t r (u ∷ rs) later) [
            | inl same ↦ inl same
            | inr old ↦ inr (inr old)
          ]
        ])
]

-- What is committed in one call of `return_range`.
return_range-Passes :
    (hdr : Header) (tag : Range) (commit : ℕ) (rs : List Range)
    → (passed : List Range) × Passes hdr commit passed (return_range hdr tag (commit, rs)).0
      × All (λ r. Among r (tag ∷ rs)) passed
unfolding return_range
return_range-Passes hdr tag commit rs = elim (Bool-cases (commit == tag.start_index)) [
  | inl on ↦
      let (passed, passes, among, all) = advance-Passes hdr (masked hdr (commit + tag.count)) rs in
      (
        tag ∷ passed,
        rw on (sym ((==_iff _ _).0 on), passes),
        (inl refl, All-weaken passed (λ s a. inr a) among),
      )
  | inr off ↦
      let (passed, passes, among, all) =
        advance-Passes hdr commit (insert_by (λ r. r.start_index) tag rs) in
      (passed, rw off passes, All-weaken passed (λ s a. Among-insert_by tag s rs a) among)
]

-- There is room for another entry, and the entries of the list are `cs`.
pub record Holds (l : SqeList) (cs : Cells) : Type 0 where
  pub room : l.read_index ≢ (l.write_index + 1) % l.capacity
  pub unused : has l.write_index cs ≡ false
  pub chain : Chain l.sqes l.first_offset cs

-- When the entry at the write index is not in use, the read index is not the next write index, and
-- the bound on the rounds is above the number of waiting ranges and one more,
-- `fips_buf_list_add_sqe` succeeds and moves the commit offset only over ranges that follow one
-- another from the old offset to the new one, each of which is the returned range or one that
-- waited.
pub fips_buf_list_add_sqe-Passes :
    (hdr : Header) (tag : Range) (reader : Pointer) (l : SqeList) (cs : Cells) (rounds : ℕ)
    → length cs + 1 < rounds
    → Holds l cs
    → (commit : ℕ) × (l' : SqeList) × (passed : List Range) × (fips_buf_list_add_sqe rounds hdr tag
          (reader, l)
        ≡ some (success, record reader { commit_offset = commit }, l'))
      × Passes hdr reader.commit_offset passed commit
      × All (λ r. Among r (tag ∷ map cell_range cs)) passed
fips_buf_list_add_sqe-Passes hdr tag reader l cs rounds enough h =
    let (l', after, run, chain, left) =
      fips_buf_list_add_sqe-return_range hdr tag reader l cs rounds enough h.room h.unused
        h.chain in
    let (passed, passes, among) =
      return_range-Passes hdr tag reader.commit_offset (map cell_range cs) in
    (_, l', passed, run, passes, among)

ne_eq : (a b : ℕ) → a ≢ b → (a == b) ≡ false
ne_eq a b n = ground arith

advance_stop :
    (hdr : Header) (commit : ℕ) (r : Range) (rs : List Range)
    → r.start_index ≢ commit
    → advance hdr commit (r ∷ rs) ≡ (commit, r ∷ rs)
advance_stop hdr commit r rs off = rw (ne_eq r.start_index commit off) refl

abbrev Older : Range → ℕ → Range → Type 0
Older tag commit r = (r.start_index ≤ tag.start_index) × (r.start_index ≢ commit)

insert_by-last :
    (tag : Range) (commit : ℕ) (r : Range) (rs : List Range)
    → All (Older tag commit) (r ∷ rs)
    → insert_by (λ s. s.start_index) tag (r ∷ rs) ≡ take (length rs) (r ∷ rs) ++ (tag ∷ [])
insert_by-last tag commit r [] older =
    let behind : ltb tag.start_index r.start_index ≡ false = ground arith in rw behind refl
insert_by-last tag commit r (s ∷ rs) older =
    let behind : ltb tag.start_index r.start_index ≡ false = ground arith in
    rw behind (ap (◌∷◌ r) (insert_by-last tag commit s rs older.1))

return_range-lost :
    (hdr : Header) (tag : Range) (commit : ℕ) (r : Range) (rs : List Range)
    → commit ≢ tag.start_index
    → All (Older tag commit) (r ∷ rs)
    → return_range hdr tag (commit, r ∷ rs) ≡ (commit, take (length rs) (r ∷ rs) ++ (tag ∷ []))
unfolding return_range
return_range-lost hdr tag commit r [] off older =
    rw (ne_eq commit tag.start_index off, insert_by-last tag commit r [] older)
      (advance_stop hdr commit tag [] (λ e. off (sym e)))
return_range-lost hdr tag commit r (s ∷ rs) off older =
    rw (ne_eq commit tag.start_index off, insert_by-last tag commit r (s ∷ rs) older)
      (advance_stop hdr commit r (take (length rs) (s ∷ rs) ++ (tag ∷ [])) older.0.1)

-- When the entry at the write index is not in use, the read index is not the next write index, the
-- bound on the rounds is above the number of waiting ranges and one more, and some ranges wait,
-- none of which starts behind the returned range and none at the commit offset, then a returned
-- range that does not start at the commit offset takes the place of the last that waits, the others
-- stay, and nothing is committed.
pub fips_buf_list_add_sqe-lost :
    (hdr : Header) (tag : Range) (reader : Pointer) (l : SqeList) (cs : Cells) (rounds : ℕ)
    → length cs + 1 < rounds
    → Holds l cs
    → cs ≢ []
    → reader.commit_offset ≢ tag.start_index
    → All (Older tag reader.commit_offset) (map cell_range cs)
    → (l' : SqeList) × (after : Cells) × (fips_buf_list_add_sqe rounds hdr tag (reader, l)
        ≡ some (success, reader, l'))
      × Chain l'.sqes l'.first_offset after
      × (map cell_range after ≡ take (length cs - 1) (map cell_range cs) ++ (tag ∷ []))
fips_buf_list_add_sqe-lost hdr tag reader l [] rounds enough h some_wait off older =
    absurd (some_wait refl)
fips_buf_list_add_sqe-lost hdr tag reader l (c ∷ cs) rounds enough h some_wait off older =
    let (l', after, run, chain, left) =
      fips_buf_list_add_sqe-return_range hdr tag reader l (c ∷ cs) rounds enough h.room h.unused
        h.chain in
    let lost =
      return_range-lost hdr tag reader.commit_offset (cell_range c) (map cell_range cs) off older in
    let n : suc (length cs) - 1 ≡ length (map cell_range cs) =
      omega (arith, length-map cell_range cs) in
    (l', after, rw lost at run, chain, rw n (rw lost at left))
