-- ===== src/LinkedList/Chain.antt =====
-- Lists of nodes on the heap, with the addresses of the nodes.
use fips_ipc.Prelude.{
  ℕ, ◌≡◌, ◌≢◌, refl, ◌∙◌, Bool, true, false, ◌||◌, Option, none, some, List, [], ◌∷◌, ◌==◌, ==_iff,
  Bool-cases, inl, inr, arith,
}
use fips_ipc.LinkedList.{Ban, Node, update}

-- The nodes of a list: address and contents.
abbrev pub Cells : Type 0
Cells = List (ℕ × Ban)

abbrev pub has : ℕ → Cells → Bool
has a [] = false
has a ((q, ban) ∷ cs) = (a == q) || has a cs

abbrev pub node : Ban → ℕ → Node
node ban next = record { ban = ban; next = next }

-- From `p` on the pointers lead through the nodes, each at an address of its own, to NULL.
unfoldable pub Chain : (ℕ → Option Node) → ℕ → Cells → Type 0
Chain heap p [] = p ≡ 0
Chain heap p ((q, ban) ∷ cs) =
    (next : ℕ) × (p ≡ q)
    × (q ≢ 0)
    × (heap q ≡ some (node ban next))
    × (has q cs ≡ false)
    × Chain heap next cs

-- A list is there as long as the cells of its nodes are.
pub Chain-frame :
    (heap heap' : ℕ → Option Node) (p : ℕ) (cs : Cells)
    → ((a : ℕ) → has a cs ≡ true → heap' a ≡ heap a)
    → Chain heap p cs
    → Chain heap' p cs
unfolding Chain
Chain-frame heap heap' p [] same chain = chain
Chain-frame heap heap' p ((q, ban) ∷ cs) same (next, here, real, cell, fresh, rest) = (
  next,
  here,
  real,
  same q (ground arith) ∙ cell,
  fresh,
  Chain-frame heap heap' next cs (λ a in_cs. same a (ground arith)) rest,
)

pub Chain-update :
    (heap : ℕ → Option Node) (p q : ℕ) (cell : Option Node) (cs : Cells)
    → has q cs ≡ false
    → Chain heap p cs
    → Chain (update heap q cell) p cs
unfolding update
Chain-update heap p q cell cs out chain =
    Chain-frame heap (update heap q cell) p cs
      (λ a in_cs. elim (Bool-cases (a == q)) [
        | inl same ↦ let e : a ≡ q = (==_iff a q).0 same in cc
        | inr other ↦ rw other refl
      ])
      chain

-- A free cell is none of a list's.
pub free-has :
    (heap : ℕ → Option Node) (p q : ℕ) (cs : Cells)
    → heap q ≡ none
    → Chain heap p cs
    → has q cs ≡ false
unfolding Chain
free-has heap p q [] free chain = refl
free-has heap p q ((r, ban) ∷ cs) free (next, here, real, cell, fresh, rest) =
    let out = free-has heap next q cs free rest in
    elim (Bool-cases (q == r)) [
      | inl same ↦ let e : q ≡ r = (==_iff q r).0 same in cc
      | inr other ↦ rw (other, out) refl
    ]
