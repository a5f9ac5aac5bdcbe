-- ===== src/Sf2b/UnbanList.antt =====
-- `get_unban_list` on the list of banned addresses.
use fips_ipc.Prelude.{
  ℕ, zero, suc, ◌<◌, ◌≡◌, ◌≢◌, refl, sym, ap, ◌∙◌, true, false, Option, some, [], ◌∷◌, ◌==◌,
  if◌then◌else◌, length, ==_iff, Bool-cases, inl, inr, arith,
}
use fips_ipc.LinkedList.{Ban, Node, Llist, update, set_next, get_head, set_head}
use fips_ipc.LinkedList.Chain.{Cells, has, node, Chain, Chain-update}
use fips_ipc.LinkedList.Laws.{update_self}
use fips_ipc.LinkedList.Loops.{ne_eq, load-some}
use fips_ipc.Sf2b.Unban.{expired, cut_loop, get_unban_list}

update_ne :
    (heap : ℕ → Option Node) (p a : ℕ) (cell : Option Node)
    → (a == p) ≡ false
    → update heap p cell a ≡ heap a
unfolding update
update_ne heap p a cell other = rw other refl

module _ (bantime ts : ℕ) where
  -- The entries before the first expired one, and those from it on.
  abbrev pub kept : Cells → Cells
  kept [] = []
  kept ((q, ban) ∷ cs) =
      let rest = kept cs in if expired bantime ts ban then [] else (q, ban) ∷ rest

  abbrev pub gone : Cells → Cells
  gone [] = []
  gone ((q, ban) ∷ cs) =
      let rest = gone cs in if expired bantime ts ban then (q, ban) ∷ cs else rest

  pub has-kept : (a : ℕ) (cs : Cells) → has a cs ≡ false → has a (kept cs) ≡ false
  has-kept a [] out = refl
  has-kept a ((q, ban) ∷ cs) out = let deeper = has-kept a cs (ground arith) in ground arith

  pub has-gone : (a : ℕ) (cs : Cells) → has a cs ≡ false → has a (gone cs) ≡ false
  has-gone a [] out = refl
  has-gone a ((q, ban) ∷ cs) out = let deeper = has-gone a cs (ground arith) in ground arith

  -- What cutting a chain behind its first entry gives.
  IsCut : (ℕ → Option Node) → ℕ → Ban → Cells → (ℕ → Option Node) → ℕ → Type 0
  IsCut heap p ban cs heap' cut =
      Chain heap' p ((p, ban) ∷ kept cs)
      × Chain heap' cut (gone cs)
      × ((a : ℕ) → has a ((p, ban) ∷ cs) ≡ false → heap' a ≡ heap a)

  cut_loop-Chain :
      (cs : Cells) (rounds p : ℕ) (ban : Ban) (l : Llist) (next : ℕ)
      → length cs < rounds
      → p ≢ 0
      → l.heap p ≡ some (node ban next)
      → has p cs ≡ false
      → Chain l.heap next cs
      → (heap : ℕ → Option Node) × (cut : ℕ) × (cut_loop bantime ts rounds p next l
          ≡ some (cut, record l { heap = heap }))
        × IsCut l.heap p ban cs heap cut
  unfolding cut_loop set_next Chain IsCut
  cut_loop-Chain cs zero p ban l next enough real cell fresh chain = absurd (omega arith)
  cut_loop-Chain [] (suc rounds) p ban l next enough real cell fresh chain =
      (l.heap, 0, rw chain refl, ((next, refl, real, cell, refl, chain), refl, λ a out. refl))
  cut_loop-Chain ((q, c) ∷ cs) (suc rounds) p ban l next enough real cell fresh
        (after, here, real', cell', fresh', rest) =
      elim (Bool-cases (expired bantime ts c)) [
        | inl old ↦
            let heap = update l.heap p (some (node ban 0)) in
            (
              heap,
              q,
              rw
                  (
                    here,
                    ne_eq q 0 real',
                    load-some l q (node c after) real' cell',
                    old,
                    load-some l p (node ban next) real cell,
                  )
                  refl,
              (
                rw old (0, refl, real, update_self l.heap p (some (node ban 0)), refl, refl),
                rw old (
                    Chain-update l.heap q p (some (node ban 0)) ((q, c) ∷ cs) fresh
                      (after, refl, real', cell', fresh', rest)),
                λ a out. update_ne l.heap p a (some (node ban 0)) (ground arith),
              ),
            )
        | inr young ↦
            let (heap, cut, run, (chain, cut_chain, same)) =
              cut_loop-Chain cs rounds q c l after (omega arith) real' cell' fresh' rest in
            (
              heap,
              cut,
              rw (here, ne_eq q 0 real', load-some l q (node c after) real' cell', young) run,
              (
                rw young (
                  q,
                  refl,
                  real,
                  same p fresh ∙ (rw (← here) cell),
                  (let deeper = has-kept p cs (ground arith) in ground (arith, deeper)),
                  chain,
                ),
                rw young cut_chain,
                λ a out. same a (ground arith),
              ),
            )
      ]

  -- What `get_unban_list` gives on a list.
  pub get_unban_list-Chain :
      (cs : Cells) (rounds : ℕ) (l : Llist)
      → length cs < rounds
      → Chain l.heap l.head cs
      → (after : Llist) × (cut : ℕ) × (get_unban_list false false bantime ts rounds l
          ≡ some (some cut, after))
        × Chain after.heap after.head (kept cs)
        × Chain after.heap cut (gone cs)
        × ((a : ℕ) → has a cs ≡ false → after.heap a ≡ l.heap a)
  unfolding get_unban_list get_head set_head Chain IsCut
  get_unban_list-Chain [] rounds l enough chain = (l, 0, rw chain refl, chain, refl, λ a out. refl)
  get_unban_list-Chain ((q, ban) ∷ cs) rounds l enough (next, here, real, cell, fresh, rest) =
      let real' : l.head ≢ 0 = λ e. real (sym here ∙ e) in
      let cell' : l.heap l.head ≡ some (node ban next) = ap l.heap here ∙ cell in
      let first = load-some l l.head (node ban next) real' cell' in
      elim (Bool-cases (expired bantime ts ban)) [
        | inl old ↦ (
          record l { head = 0 },
          l.head,
          rw (ne_eq l.head 0 real', first, old) refl,
          rw old refl,
          rw old (next, here, real, cell, fresh, rest),
          λ a out. refl,
        )
        | inr young ↦
            let (heap, cut, run, (chain, cut_chain, same)) =
              cut_loop-Chain cs rounds q ban l next (omega arith) real cell fresh rest in
            let cut_run = ap (λ (k : ℕ). cut_loop bantime ts rounds k next l) here ∙ run in
            let (more, same_q, real_q, cell_q, fresh_q, rest_q) = chain in
            (
              record l { heap = heap },
              cut,
              rw (ne_eq l.head 0 real', first, young, cut_run) refl,
              rw young (more, here, real_q, cell_q, fresh_q, rest_q),
              rw young cut_chain,
              same,
            )
      ]

  pub kept-gone_apart :
      (heap : ℕ → Option Node) (p a : ℕ) (cs : Cells)
      → Chain heap p cs
      → has a (kept cs) ≡ true
      → has a (gone cs) ≡ false
  unfolding Chain
  kept-gone_apart heap p a [] chain in_kept = refl
  kept-gone_apart heap p a ((q, ban) ∷ cs) (next, here, real, cell, fresh, rest) in_kept =
      elim (Bool-cases (expired bantime ts ban)) [
        | inl old ↦ ground (arith, in_kept)
        | inr young ↦ elim (Bool-cases (a == q)) [
          | inl first ↦ let e : a ≡ q = (==_iff a q).0 first in rw (young, e) (has-gone q cs fresh)
          | inr later ↦ rw young (kept-gone_apart heap next a cs rest (ground (arith, in_kept)))
        ]
      ]
