-- ===== src/FipsBuf/Place.antt =====
-- How the loop of `fips_buf_list_add_sqe` that looks for the place of a new entry changes the list.
use fips_ipc.Prelude.{
  ℕ, zero, suc, ◌≡◌, ◌≢◌, ◌<◌, refl, sym, ◌∙◌, true, false, ap, Option, none, some, [], ◌∷◌, ◌==◌,
  ==_iff, ltb, length, Bool-cases, inl, inr, arith,
}
use fips_ipc.FipsBuf.Ring.{Range}
use fips_ipc.FipsBuf.Returns.{Sqe, SqeList, store_sqe, set_next_offset, link_new, place_sqe}
use fips_ipc.FipsBuf.Waiting.{Cells, has, cell_start, insert_by, Chain, Chain-frame, has-insert_by}

-- The offset that leads to the entries behind `prev`.
abbrev pub entry : Option ℕ → SqeList → Option ℕ
entry none l = l.first_offset
entry (some p) l = (l.sqes p).next_offset

-- The fields of the list that the order of the entries does not touch.
abbrev pub indices : SqeList → ℕ × ℕ × ℕ
indices l = (l.capacity, l.read_index, l.write_index)

-- `prev` is none of these entries.
abbrev pub Apart : Option ℕ → Cells → Type 0
Apart prev cs = (i : ℕ) → has i cs ≡ true → prev ≢ some i

-- `l'` is `l` with the new entry put among the entries behind `prev`.
pub record Placed (prev : Option ℕ) (new : ℕ) (tag : Range) (cs : Cells) (l l' : SqeList)
    : Type 0 where
  pub chain : Chain l'.sqes (entry prev l') (insert_by cell_start (new, tag) cs)
  pub ranges : (i : ℕ) → (l'.sqes i).range ≡ (l.sqes i).range
  pub others : (i : ℕ) → has i ((new, tag) ∷ cs) ≡ false → prev ≢ some i → l'.sqes i ≡ l.sqes i
  pub first : (p : ℕ) → prev ≡ some p → l'.first_offset ≡ l.first_offset
  pub same_indices : indices l' ≡ indices l

==_refl : (i : ℕ) → (i == i) ≡ true
==_refl i = ground arith

some_ne : (i j : ℕ) → (i == j) ≡ false → ◌≢◌ {A = Option ℕ} (some i) (some j)
some_ne i j out = ground arith

module _ (i : ℕ) (next : Option ℕ) (l : SqeList) where
  set_next_offset_same :
      (set_next_offset i next l).sqes i ≡ record (l.sqes i) { next_offset = next }
  unfolding set_next_offset store_sqe
  set_next_offset_same = rw (==_refl i) refl

  set_next_offset_ne : (j : ℕ) → (j == i) ≡ false → (set_next_offset i next l).sqes j ≡ l.sqes j
  unfolding set_next_offset store_sqe
  set_next_offset_ne j out = rw out refl

  set_next_offset_first : (set_next_offset i next l).first_offset ≡ l.first_offset
  unfolding set_next_offset store_sqe
  set_next_offset_first = refl

  indices-set_next_offset : indices (set_next_offset i next l) ≡ indices l
  unfolding set_next_offset store_sqe
  indices-set_next_offset = refl

  set_next_offset_ranges : (j : ℕ) → ((set_next_offset i next l).sqes j).range ≡ (l.sqes j).range
  set_next_offset_ranges j = elim (Bool-cases (j == i)) [
    | inl e ↦ let same : j ≡ i = (==_iff j i).0 e in rw (same, set_next_offset_same) refl
    | inr e ↦ rw (set_next_offset_ne j e) refl
  ]

  entry-set_next_offset :
      (prev : Option ℕ) → prev ≢ some i → entry prev (set_next_offset i next l) ≡ entry prev l
  entry-set_next_offset none apart = set_next_offset_first
  entry-set_next_offset (some p) apart = elim (Bool-cases (p == i)) [
    | inl e ↦ absurd (apart (ap some ((==_iff p i).0 e)))
    | inr e ↦ ap (λ (sqe : Sqe). sqe.next_offset) (set_next_offset_ne p e)
  ]

module _ (new : ℕ) (l : SqeList) where
  link_new_ranges :
      (prev : Option ℕ) (j : ℕ) → ((link_new prev new l).sqes j).range ≡ (l.sqes j).range
  unfolding link_new
  link_new_ranges none j = refl
  link_new_ranges (some p) j = set_next_offset_ranges p (some new) l j

  indices-link_new : (prev : Option ℕ) → indices (link_new prev new l) ≡ indices l
  unfolding link_new
  indices-link_new none = refl
  indices-link_new (some p) = indices-set_next_offset p (some new) l

  link_new_ne : (prev : Option ℕ) (j : ℕ) → prev ≢ some j → (link_new prev new l).sqes j ≡ l.sqes j
  unfolding link_new
  link_new_ne none j apart = refl
  link_new_ne (some p) j apart = elim (Bool-cases (j == p)) [
    | inl e ↦ absurd (apart (ap some (sym ((==_iff j p).0 e))))
    | inr e ↦ set_next_offset_ne p (some new) l j e
  ]

  entry-link_new : (prev : Option ℕ) → entry prev (link_new prev new l) ≡ some new
  unfolding link_new
  entry-link_new none = refl
  entry-link_new (some p) =
      ap (λ (sqe : Sqe). sqe.next_offset) (set_next_offset_same p (some new) l)

  link_new_first :
      (prev : Option ℕ) (p : ℕ)
      → prev ≡ some p
      → (link_new prev new l).first_offset ≡ l.first_offset
  unfolding link_new
  link_new_first none p e = cc
  link_new_first (some q) p e = set_next_offset_first q (some new) l

pub entry-kept :
    (prev : Option ℕ) (l l' : SqeList)
    → ((p : ℕ) → prev ≡ some p → l'.sqes p ≡ l.sqes p)
    → l'.first_offset ≡ l.first_offset
    → entry prev l' ≡ entry prev l
entry-kept none l l' same first = first
entry-kept (some p) l l' same first = ap (λ (sqe : Sqe). sqe.next_offset) (same p refl)

outside : (prev : Option ℕ) (p : ℕ) (cs : Cells) → Apart prev cs → prev ≡ some p → has p cs ≡ false
outside prev p cs apart e = elim (Bool-cases (has p cs)) [
  | inl in_cs ↦ absurd (apart p in_cs e)
  | inr out ↦ out
]

module _ (new : ℕ) (tag : Range) (prev : Option ℕ) (current : ℕ) (r : Range) (cs : Cells)
    (l : SqeList) where
  module _ (fresh : has new ((current, r) ∷ cs) ≡ false)
      (apart : Apart prev ((new, tag) ∷ (current, r) ∷ cs)) (holds : (l.sqes new).range ≡ tag)
      (chain : Chain l.sqes (some current) ((current, r) ∷ cs)) where
    -- The new entry in front of the next one.
    Placed-front :
        insert_by cell_start (new, tag) ((current, r) ∷ cs) ≡ (new, tag) ∷ (current, r) ∷ cs
        → Placed prev new tag
            ((current, r) ∷ cs)
            l
            (set_next_offset new (some current) (link_new prev new l))
    unfolding Chain
    Placed-front front =
        let linked = link_new prev new l in
        let kept : (j : ℕ)
            → has j ((new, tag) ∷ (current, r) ∷ cs) ≡ true
            → linked.sqes j ≡ l.sqes j =
          λ j in_cs. link_new_ne new l prev j (apart j in_cs) in
        record {
          chain = rw front (
            entry-set_next_offset new (some current) linked prev (apart new (ground arith))
                ∙ entry-link_new new l prev,
            set_next_offset_ranges new (some current) linked new
                ∙ link_new_ranges new l prev new
                ∙ holds,
            fresh,
            rw (set_next_offset_same new (some current) linked) (
                Chain-frame l.sqes (set_next_offset new (some current) linked).sqes (some current)
                  ((current, r) ∷ cs)
                  (λ j in_cs.
                    set_next_offset_ne new (some current) linked j (ground arith)
                    ∙ kept j (ground arith))
                  chain),
          );
          ranges = λ j.
              set_next_offset_ranges new (some current) linked j ∙ link_new_ranges new l prev j;
          others = λ j out other.
              set_next_offset_ne new (some current) linked j (ground arith)
              ∙ link_new_ne new l prev j other;
          first = λ p e.
              set_next_offset_first new (some current) linked ∙ link_new_first new l prev p e;
          same_indices =
              indices-set_next_offset new (some current) linked ∙ indices-link_new new l prev;
        }

    -- The new entry behind the last one, which `prev` does not lead to any more.
    Placed-last :
        insert_by cell_start (new, tag) ((current, r) ∷ cs) ≡ (new, tag) ∷ []
        → (l.sqes new).next_offset ≡ none
        → Placed prev new tag
            ((current, r) ∷ cs)
            l
            (link_new prev new (set_next_offset current (some new) l))
    unfolding Chain
    Placed-last last end =
        let before = set_next_offset current (some new) l in
        record {
          chain = rw last (
            entry-link_new new before prev,
            link_new_ranges new before prev new
                ∙ set_next_offset_ranges current (some new) l new
                ∙ holds,
            refl,
            rw
                (
                  link_new_ne new before prev new (apart new (ground arith)),
                  set_next_offset_ne current (some new) l new (ground arith),
                )
                end,
          );
          ranges = λ j.
              link_new_ranges new before prev j ∙ set_next_offset_ranges current (some new) l j;
          others = λ j out other.
              link_new_ne new before prev j other
              ∙ set_next_offset_ne current (some new) l j (ground arith);
          first = λ p e.
              link_new_first new before prev p e ∙ set_next_offset_first current (some new) l;
          same_indices =
              indices-link_new new before prev ∙ indices-set_next_offset current (some new) l;
        }

    -- The new entry among those behind the current one.
    Placed-behind :
        (l' : SqeList)
        → insert_by cell_start (new, tag) ((current, r) ∷ cs)
          ≡ (current, r) ∷ insert_by cell_start (new, tag) cs
        → entry prev l ≡ some current
        → Placed (some current) new tag cs l l'
        → Placed prev new tag ((current, r) ∷ cs) l l'
    unfolding Chain
    Placed-behind l' behind here placed =
        let kept : (p : ℕ) → prev ≡ some p → l'.sqes p ≡ l.sqes p = λ p e.
          let out = outside prev p ((new, tag) ∷ (current, r) ∷ cs) apart e in
          placed.others p (ground arith) (some_ne current p (ground arith)) in
        record {
          chain = rw behind (
            entry-kept prev l l' kept (placed.first current refl) ∙ here,
            placed.ranges current ∙ chain.1,
            has-insert_by current new tag cs (ground arith),
            placed.chain,
          );
          ranges = placed.ranges;
          others = λ j out other. placed.others j (ground arith) (some_ne current j (ground arith));
          first = λ p e. placed.first current refl;
          same_indices = placed.same_indices;
        }

-- The loop ends, and puts the new entry among those behind `prev`.
pub place_sqe-Placed :
    (new : ℕ) (tag : Range) (prev : Option ℕ) (current : ℕ) (r : Range) (cs : Cells) (l : SqeList)
    (rounds : ℕ)
    → length cs < rounds
    → has new ((current, r) ∷ cs) ≡ false
    → Apart prev ((new, tag) ∷ (current, r) ∷ cs)
    → l.sqes new ≡ record { range = tag; next_offset = none }
    → entry prev l ≡ some current
    → Chain l.sqes (some current) ((current, r) ∷ cs)
    → (l' : SqeList) × (place_sqe rounds tag.start_index new prev current l ≡ some l')
      × Placed prev new tag ((current, r) ∷ cs) l l'
unfolding place_sqe Chain
place_sqe-Placed new tag prev current r cs l zero enough fresh apart holds here chain =
    absurd (omega arith)
place_sqe-Placed new tag prev current r [] l (suc rounds) enough fresh apart holds here chain =
    let range = ap (λ (sqe : Sqe). sqe.range) holds in
    elim (Bool-cases (ltb tag.start_index r.start_index)) [
      | inl front ↦ (
        set_next_offset new (some current) (link_new prev new l),
        rw (chain.1, front) refl,
        Placed-front new tag prev current r [] l fresh apart range chain (rw front refl),
      )
      | inr behind ↦ (
        link_new prev new (set_next_offset current (some new) l),
        rw (chain.1, behind, chain.3) refl,
        Placed-last new tag prev current r [] l fresh apart range chain (rw behind refl)
            (ap (λ (sqe : Sqe). sqe.next_offset) holds),
      )
    ]
place_sqe-Placed new tag prev current r ((next, s) ∷ cs) l (suc rounds) enough fresh apart holds
      here chain =
    let range = ap (λ (sqe : Sqe). sqe.range) holds in
    elim (Bool-cases (ltb tag.start_index r.start_index)) [
      | inl front ↦ (
        set_next_offset new (some current) (link_new prev new l),
        rw (chain.1, front) refl,
        Placed-front new tag prev current r ((next, s) ∷ cs) l fresh apart range chain
            (rw front refl),
      )
      | inr behind ↦
          let on = chain.3.0 in
          let (l', run, placed) =
            place_sqe-Placed new tag (some current) next s cs l rounds (omega arith) (ground arith)
              (λ i in_cs. some_ne current i (ground arith)) holds on (rw on at chain.3) in
          (
            l',
            rw (chain.1, behind, on) run,
            Placed-behind new tag prev current r ((next, s) ∷ cs) l fresh apart range chain l'
                (rw behind refl) here placed,
          )
    ]
