-- ===== src/FipsBuf/Waiting.antt =====
-- What the list of waiting ranges does, by itself: an independent description of
-- `fips_buf_list_add_sqe` on a list of ranges; and how such a list lies in the array of entries.
use fips_ipc.Prelude.{
  ℕ, ◌+◌, ◌≡◌, refl, Bool, true, false, ◌||◌, Option, none, some, List, [], ◌∷◌, ◌==◌, ltb,
  if◌then◌else◌, map, Bool-cases, inl, inr, arith,
}
use fips_ipc.FipsBuf.{Header}
use fips_ipc.FipsBuf.Ring.{Range, masked}
use fips_ipc.FipsBuf.Returns.{Sqe}

-- A new element goes before the first with a greater start. Where there is none, it takes the place
-- of the last.
module _ {A : Type 0} (start : A → ℕ) where
  abbrev pub insert_by : A → List A → List A
  insert_by t [] = t ∷ []
  insert_by t (r ∷ []) = if ltb (start t) (start r) then t ∷ r ∷ [] else t ∷ []
  insert_by t (r ∷ s ∷ rs) =
      let rest = insert_by t (s ∷ rs) in
      if ltb (start t) (start r) then t ∷ r ∷ s ∷ rs else r ∷ rest

pub map-insert_by :
    {A B : Type 0} (f : A → B) (start : B → ℕ) (t : A) (rs : List A)
    → map f (insert_by (λ a. start (f a)) t rs) ≡ insert_by start (f t) (map f rs)
map-insert_by f start t [] = refl
map-insert_by f start t (r ∷ []) = elim (Bool-cases (ltb (start (f t)) (start (f r)))) [
  | inl e ↦ rw e refl
  | inr e ↦ rw e refl
]
map-insert_by f start t (r ∷ s ∷ rs) = elim (Bool-cases (ltb (start (f t)) (start (f r)))) [
  | inl e ↦ rw e refl
  | inr e ↦ rw (e, map-insert_by f start t (s ∷ rs)) refl
]

-- The offset that is committed, and the ranges that still wait.
abbrev pub advance : Header → ℕ → List Range → ℕ × List Range
advance hdr commit [] = (commit, [])
advance hdr commit (r ∷ rs) =
    let rest = advance hdr (masked hdr (commit + r.count)) rs in
    if r.start_index == commit then rest else (commit, r ∷ rs)

unfoldable pub return_range : Header → Range → ℕ × List Range → ℕ × List Range
return_range hdr tag (commit, waiting) =
    if commit == tag.start_index
    then advance hdr (masked hdr (commit + tag.count)) waiting
    else advance hdr commit (insert_by (λ r. r.start_index) tag waiting)

-- Entries in use: the index of each in the array, and its range.
abbrev pub Cells : Type 0
Cells = List (ℕ × Range)

abbrev pub has : ℕ → Cells → Bool
has i [] = false
has i ((j, r) ∷ cs) = (i == j) || has i cs

abbrev pub cell_start : ℕ × Range → ℕ
cell_start c = c.1.start_index

abbrev pub cell_range : ℕ × Range → Range
cell_range c = c.1

-- From the offset on, the entries lead through distinct places of the array.
unfoldable pub Chain : (ℕ → Sqe) → Option ℕ → Cells → Type 0
Chain sqes first [] = first ≡ none
Chain sqes first ((i, r) ∷ cs) =
    (first ≡ some i)
    × ((sqes i).range ≡ r)
    × (has i cs ≡ false)
    × Chain sqes (sqes i).next_offset cs

pub Chain-frame :
    (sqes sqes' : ℕ → Sqe) (first : Option ℕ) (cs : Cells)
    → ((i : ℕ) → has i cs ≡ true → sqes' i ≡ sqes i)
    → Chain sqes first cs
    → Chain sqes' first cs
unfolding Chain
Chain-frame sqes sqes' first [] same chain = chain
Chain-frame sqes sqes' first ((i, r) ∷ cs) same (here, range, fresh, rest) =
    let e : sqes' i ≡ sqes i = same i (ground arith) in
    (
      here,
      rw e range,
      fresh,
      rw e (Chain-frame sqes sqes' (sqes i).next_offset cs (λ j in_cs. same j (ground arith)) rest),
    )

-- A new entry is among those that were there, or is the new one.
pub has-insert_by :
    (a i : ℕ) (t : Range) (cs : Cells)
    → has a ((i, t) ∷ cs) ≡ false
    → has a (insert_by cell_start (i, t) cs) ≡ false
has-insert_by a i t [] out = out
has-insert_by a i t ((j, r) ∷ []) out = ground arith
has-insert_by a i t ((j, r) ∷ (k, s) ∷ cs) out =
    let rest = has-insert_by a i t ((k, s) ∷ cs) in
    elim (Bool-cases (ltb t.start_index r.start_index)) [
      | inl e ↦ rw e out
      | inr e ↦ rw e (ground (arith, rest))
    ]
