-- ===== src/LinkedList/Loops.antt =====
-- What the commands on a node do to the heap, and the loop that destroys a list.
use fips_ipc.Prelude.{
  ℕ, zero, suc, ◌<◌, ◌≡◌, ◌≢◌, refl, ◌∙◌, false, Option, none, some, [], ◌∷◌, ◌==◌, if◌then◌else◌,
  length, arith,
}
use fips_ipc.HashTable.{ℤ}
use fips_ipc.LinkedList.{
  Ban, Node, Llist, update, load, load_cell, destroy_lnode, ip_llist_remove, destroy_loop,
  llist_success,
}
use fips_ipc.LinkedList.Chain.{Cells, has, node, Chain, Chain-update}

pub ne_eq : (p q : ℕ) → p ≢ q → (p == q) ≡ false
ne_eq p q n = ground arith

pub load-some : (l : Llist) (p : ℕ) (n : Node) → p ≢ 0 → l.heap p ≡ some n → load p l ≡ some (n, l)
unfolding load load_cell
load-some l p n real cell = rw (ne_eq p 0 real, cell) refl

pub remove-first :
    (l : Llist) (p : ℕ) (n : Node)
    → p ≢ 0
    → l.heap p ≡ some n
    → ip_llist_remove p 0 l ≡ some (llist_success, record l { heap = update l.heap p none })
unfolding ip_llist_remove destroy_lnode
remove-first l p n real cell = rw (ne_eq p 0 real, load-some l p n real cell) refl

-- The heap without the nodes of a list.
abbrev pub freed : Cells → (ℕ → Option Node) → ℕ → Option Node
freed cs heap a = if has a cs then none else heap a

pub freed-update :
    (q : ℕ) (ban : Ban) (cs : Cells) (heap : ℕ → Option Node) (a : ℕ)
    → freed cs (update heap q none) a ≡ freed ((q, ban) ∷ cs) heap a
unfolding update
freed-update q ban cs heap a = ground arith

pub destroy_loop-Chain :
    (cs : Cells) (rounds p : ℕ) (error : ℤ) (l : Llist)
    → length cs < rounds
    → Chain l.heap p cs
    → (heap : ℕ → Option Node) × (destroy_loop rounds p error l
        ≡ some (error, record l { heap = heap }))
      × ((a : ℕ) → heap a ≡ freed cs l.heap a)
unfolding destroy_loop Chain
destroy_loop-Chain cs zero p error l enough chain = absurd (omega arith)
destroy_loop-Chain [] (suc rounds) p error l enough chain = (l.heap, rw chain refl, λ a. refl)
destroy_loop-Chain ((q, ban) ∷ cs) (suc rounds) p error l enough
      (next, here, real, cell, fresh, rest) =
    let after = record l { heap = update l.heap q none } in
    let (heap, run, same) =
      destroy_loop-Chain cs rounds next error after (omega arith)
        (Chain-update l.heap next q none cs fresh rest) in
    (
      heap,
      rw
          (
            here,
            ne_eq q 0 real,
            load-some l q (node ban next) real cell,
            remove-first l q (node ban next) real cell,
          )
          run,
      λ a. same a ∙ freed-update q ban cs l.heap a,
    )
