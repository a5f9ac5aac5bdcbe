-- ===== src/FipsBuf/ReturnAll.antt =====
-- Ranges that are returned to a new list in the order opposite to that in which they were read.
use fips_ipc.Prelude.{
  ℕ, suc, ◌+◌, ◌%◌, ◌≡◌, ◌≢◌, ◌<◌, ◌≤◌, refl, sym, ap, ◌∙◌, true, false, Option, none, some, List,
  [], ◌∷◌, ◌==◌, ltb, length, length-map, map, All, arith,
}
use native.Mathlib.Nat.{mod-eq_of_lt}
use fips_ipc.FipsBuf.{Code, success, Pointer, Header}
use fips_ipc.FipsBuf.Ring.{Range, masked}
use fips_ipc.FipsBuf.Returns.{SqeList, fips_buf_list_add_sqe}
use fips_ipc.FipsBuf.Waiting.{
  Cells, has, cell_start, cell_range, insert_by, advance, return_range, Chain,
}
use fips_ipc.FipsBuf.Place.{indices}
use fips_ipc.FipsBuf.ReturnsLaws.{
  wait_sqe-insert_by, commit_sqes_stop, fips_buf_list_add_sqe-return_range,
}
use fips_ipc.FipsBuf.ReturnOrder.{Passes}

-- Each call has to succeed.
abbrev pub then_add :
    ℕ → Header → Range → Option (Code × Pointer × SqeList) → Option (Code × Pointer × SqeList)
then_add rounds hdr tag (some (success, reader, l)) =
    fips_buf_list_add_sqe rounds hdr tag (reader, l)
then_add rounds hdr tag failed = failed

-- The calls for the ranges of the list, the last one first.
pub add_from_last : ℕ → Header → List Range → Pointer × SqeList → Option (Code × Pointer × SqeList)
add_from_last rounds hdr [] (reader, l) = some (success, reader, l)
add_from_last rounds hdr (r ∷ rs) s = then_add rounds hdr r (add_from_last rounds hdr rs s)

-- Each range starts before all that come after it.
abbrev pub Ascending : List Range → Type 0
Ascending [] = Unit {0}
Ascending (r ∷ rs) = All (λ s. r.start_index < s.start_index) rs × Ascending rs

-- The list as `setup_shm` leaves it.
pub record IsNew (l : SqeList) : Type 0 where
  pub first : l.first_offset ≡ none
  pub read : l.read_index ≡ 0
  pub write : l.write_index ≡ 0

-- The list with the ranges waiting, in the places of the array up to their number.
record Waits (capacity : ℕ) (rs : List Range) (cs : Cells) (l : SqeList) : Type 0 where
  same : indices l ≡ (capacity, 0, length rs)
  places : (i : ℕ) → length rs ≤ i → has i cs ≡ false
  chain : Chain l.sqes l.first_offset cs
  ranges : map cell_range cs ≡ rs

==_of_eq : (a b : ℕ) → a ≡ b → (a == b) ≡ true
==_of_eq a b e = ground arith

later_ne :
    (first : Range) (commit : ℕ) (rs : List Range)
    → first.start_index ≡ commit
    → All (λ s. first.start_index < s.start_index) rs
    → All (λ s. commit ≢ s.start_index) rs
later_ne first commit [] here later = tt
later_ne first commit (r ∷ rs) here later =
    (λ e. absurd (omega (arith, later.0, e, here)), later_ne first commit rs here later.1)

insert_by-front :
    (i : ℕ) (tag : Range) (cs : Cells)
    → All (λ s. tag.start_index < s.start_index) (map cell_range cs)
    → insert_by cell_start (i, tag) cs ≡ (i, tag) ∷ cs
insert_by-front i tag [] later = refl
insert_by-front i tag (c ∷ []) later =
    let front : ltb tag.start_index (cell_start c) ≡ true = ground arith in rw front refl
insert_by-front i tag (c ∷ d ∷ cs) later =
    let front : ltb tag.start_index (cell_start c) ≡ true = ground arith in rw front refl

module _ (hdr : Header) (tag : Range) (reader : Pointer) (l : SqeList) (cs : Cells)
    (rs : List Range) (capacity rounds : ℕ) (w : Waits capacity rs cs l) where
  same_capacity : l.capacity ≡ capacity
  same_capacity = ap (λ (t : ℕ × ℕ × ℕ). t.0) w.same

  same_read : l.read_index ≡ 0
  same_read = ap (λ (t : ℕ × ℕ × ℕ). t.1) w.same

  same_write : l.write_index ≡ length rs
  same_write = ap (λ (t : ℕ × ℕ × ℕ). t.2) w.same

  next_write : length rs + 1 < capacity → (l.write_index + 1) % l.capacity ≡ suc (length rs)
  next_write room =
      rw (same_capacity, same_write)
        (mod-eq_of_lt {n = length rs + 1} {m = capacity} room ∙ omega arith)

  -- A range older than all that wait is put in front of them.
  front-Waits :
      length rs + 1 < capacity
      → length rs < rounds
      → reader.commit_offset ≢ tag.start_index
      → All (λ s. tag.start_index < s.start_index) rs
      → (l' : SqeList) × (fips_buf_list_add_sqe (suc rounds) hdr tag (reader, l)
          ≡ some (success, reader, l'))
        × Waits capacity (tag ∷ rs) ((l.write_index, tag) ∷ cs) l'
  unfolding fips_buf_list_add_sqe
  front-Waits room enough later ascending =
      let off : (reader.commit_offset == tag.start_index) ≡ false = ground arith in
      let size : length cs ≡ length rs = sym (length-map cell_range cs) ∙ ap length w.ranges in
      let next = next_write room in
      let (l', ran, chain, same) =
        wait_sqe-insert_by tag l cs (suc rounds) (omega arith)
          (λ e. absurd (omega (arith, e, next, same_read)))
          (w.places l.write_index (omega (arith, same_write))) w.chain in
      let front = insert_by-front l.write_index tag cs (rw (← w.ranges) at ascending) in
      let chain' = rw front at chain in
      let stop =
        commit_sqes_stop hdr l.write_index tag cs rounds reader l' chain' (λ e. later (sym e)) in
      (
        l',
        simp (off, ran, stop) refl,
        record {
          same = same ∙ cc (same_capacity, same_read, next);
          places = λ i above. ground (arith, w.places i, same_write);
          chain = chain';
          ranges = ap (◌∷◌ tag) w.ranges;
        },
      )

each-Waits :
    (hdr : Header) (rs : List Range) (reader : Pointer) (l : SqeList) (rounds : ℕ)
    → IsNew l
    → length rs < l.capacity
    → length rs ≤ rounds
    → All (λ s. reader.commit_offset ≢ s.start_index) rs
    → Ascending rs
    → (l' : SqeList) × (cs : Cells) × (add_from_last (suc rounds) hdr rs (reader, l)
        ≡ some (success, reader, l'))
      × Waits l.capacity rs cs l'
unfolding add_from_last Chain
each-Waits hdr [] reader l rounds new room enough later ascending = (
  l,
  [],
  refl,
  record {
    same = cc (new.read, new.write);
    places = λ i above. refl;
    chain = new.first;
    ranges = refl;
  },
)
each-Waits hdr (r ∷ rs) reader l rounds new room enough later ascending =
    let (l', cs, ran, w) =
      each-Waits hdr rs reader l rounds new (omega arith) (omega arith) later.1 ascending.1 in
    let (l'', run, w') =
      front-Waits hdr r reader l' cs rs l.capacity rounds w (omega arith) (omega arith) later.0
        ascending.0 in
    (l'', (l'.write_index, r) ∷ cs, rw ran run, w')

advance-Passes_all :
    (hdr : Header) (commit end : ℕ) (rs : List Range)
    → Passes hdr commit rs end
    → advance hdr commit rs ≡ (end, [])
advance-Passes_all hdr commit end [] passes = rw passes refl
advance-Passes_all hdr commit end (r ∷ rs) passes =
    rw (==_of_eq r.start_index commit passes.0)
      (advance-Passes_all hdr (masked hdr (commit + r.count)) end rs passes.1)

empty_first :
    (l : SqeList) (cs : Cells)
    → Chain l.sqes l.first_offset cs
    → map cell_range cs ≡ []
    → l.first_offset ≡ none
unfolding Chain
empty_first l [] chain e = chain
empty_first l (c ∷ cs) chain e = absurd (omega (arith, ap length e))

-- When ranges follow one another from the commit offset on, without going round the end of the
-- buffer, and are returned to a new list in the opposite order, with more entries in the array than
-- ranges and a bound on the rounds of at least the number of ranges, then every call succeeds, the
-- commit offset is at the end of the last range, and no range waits.
pub add_from_last-commits :
    (hdr : Header) (first : Range) (rs : List Range) (end : ℕ) (reader : Pointer) (l : SqeList)
    (rounds : ℕ)
    → IsNew l
    → length rs + 1 < l.capacity
    → length rs < rounds
    → Passes hdr reader.commit_offset (first ∷ rs) end
    → Ascending (first ∷ rs)
    → (l' : SqeList) × (add_from_last (suc rounds) hdr (first ∷ rs) (reader, l)
        ≡ some (success, record reader { commit_offset = end }, l'))
      × (l'.first_offset ≡ none)
unfolding add_from_last return_range
add_from_last-commits hdr first rs end reader l rounds new room enough passes ascending =
    let (l', cs, ran, w) =
      each-Waits hdr rs reader l rounds new (omega arith) (omega arith)
        (later_ne first reader.commit_offset rs passes.0 ascending.0) ascending.1 in
    let next = next_write hdr first reader l' cs rs l.capacity rounds w room in
    let read = same_read hdr first reader l' cs rs l.capacity rounds w in
    let write = same_write hdr first reader l' cs rs l.capacity rounds w in
    let size : length cs ≡ length rs = sym (length-map cell_range cs) ∙ ap length w.ranges in
    let (l'', after, run, chain, left) =
      fips_buf_list_add_sqe-return_range hdr first reader l' cs (suc rounds) (omega arith)
        (λ e. absurd (omega (arith, e, next, read)))
        (w.places l'.write_index (omega (arith, write))) w.chain in
    let all : return_range hdr first (reader.commit_offset, map cell_range cs) ≡ (end, []) =
      rw (w.ranges, ==_of_eq reader.commit_offset first.start_index (sym passes.0))
        (advance-Passes_all hdr (masked hdr (reader.commit_offset + first.count)) end rs
          passes.1) in
    (l'', rw ran (rw all at run), empty_first l'' after chain (rw all at left))
