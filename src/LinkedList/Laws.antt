-- ===== src/LinkedList/Laws.antt =====
-- `ip_llist_push` and `ip_llist_destroy` on lists of nodes.
use fips_ipc.Prelude.{
  ℕ, ◌<◌, ◌≡◌, ◌≢◌, refl, true, false, ◌||◌, Option, none, some, ◌∷◌, ◌==◌, if◌then◌else◌, length,
  ==_iff, Bool-cases, inl, inr, arith,
}
use fips_ipc.HashTable.{Domain, ℤ}
use fips_ipc.HashTable.Ops.{unknown}
use fips_ipc.LinkedList.{
  Ban, Node, Llist, Grant, update, get_head, set_head, set_next, link_front, create_lnode,
  push_node, ip_llist_push, ip_llist_destroy, llist_success, llist_mem_err, llist_mutex_err,
}
use fips_ipc.LinkedList.Chain.{Cells, has, node, Chain, Chain-update, free-has}
use fips_ipc.LinkedList.Loops.{load-some, freed, destroy_loop-Chain}

pub update_self :
    (heap : ℕ → Option Node) (p : ℕ) (cell : Option Node) → update heap p cell p ≡ cell
unfolding update
update_self heap p cell = ground arith

update_twice :
    (heap : ℕ → Option Node) (p q : ℕ) (cell cell' : Option Node)
    → update (update heap p cell) p cell' q ≡ update heap p cell' q
unfolding update
update_twice heap p q cell cell' = ground arith

-- A new node that is on the heap goes to the front.
link_front-Chain :
    (l : Llist) (new : ℕ) (ban : Ban) (cs : Cells)
    → new ≢ 0
    → has new cs ≡ false
    → l.heap new ≡ some (node ban 0)
    → Chain l.heap l.head cs
    → (after : Llist) × (link_front new l ≡ some (tt, after))
      × Chain after.heap after.head ((new, ban) ∷ cs)
unfolding link_front get_head set_head set_next Chain
link_front-Chain l new ban cs real fresh cell chain = elim (Bool-cases (l.head == 0)) [
  | inl empty ↦ (
    record l { head = new },
    rw empty refl,
    (
      l.head,
      refl,
      real,
      (let e : l.head ≡ 0 = (==_iff l.head 0).0 empty in rw e cell),
      fresh,
      chain,
    ),
  )
  | inr more ↦ (
    record { head = new; heap = update l.heap new (some (node ban l.head)) },
    rw (more, load-some l new (node ban 0) real cell) refl,
    (
      l.head,
      refl,
      real,
      update_self l.heap new (some (node ban l.head)),
      fresh,
      Chain-update l.heap l.head new (some (node ban l.head)) cs fresh chain,
    ),
  )
]

-- What a push returns, and whether it puts the node on the list.
abbrev pub push_code : Grant → ℤ
push_code grant =
    if grant.node_address == 0
    then llist_mem_err
    else if grant.lock_fails || grant.unlock_fails
    then llist_mutex_err
    else llist_success

unfoldable pub pushed : Grant → Ban → Cells → Cells
pushed grant ban cs =
    if grant.node_address == 0
    then cs
    else if grant.lock_fails
    then cs
    else (grant.node_address, ban) ∷ cs

module _ (grant : Grant) (key ts : ℕ) (domain : Domain) (known : unknown domain ≡ false)
    (key_granted : grant.key_fails ≡ false) (l : Llist)
    (free : l.heap grant.node_address ≡ none) where
  abbrev ban : Ban
  ban = record { key = key; domain = domain; timestamp = ts }

  abbrev created : Llist
  created = record l { heap = update l.heap grant.node_address (some (node ban 0)) }

  create_lnode-node :
      (grant.node_address == 0) ≡ false
      → create_lnode grant (some key) (some ts) domain l
        ≡ some ((llist_success, grant.node_address), created)
  unfolding create_lnode
  create_lnode-node real = rw (real, known, key_granted) refl

  create_lnode-none :
      (grant.node_address == 0) ≡ true
      → create_lnode grant (some key) (some ts) domain l ≡ some ((llist_mem_err, 0), l)
  unfolding create_lnode
  create_lnode-none missing = rw missing refl

  -- On a list of nodes, each at an address of its own, for a known family, when the allocation of
  -- the key succeeds and a new node is at an address that was free, `ip_llist_push` returns the
  -- error of an allocation that failed with the list as it was, or that of a lock that failed with
  -- the same nodes in the list, or puts the node at the front of the list, and then returns an
  -- error only if unlocking failed.
  pub ip_llist_push-Chain :
      (cs : Cells)
      → Chain l.heap l.head cs
      → (after : Llist) × (ip_llist_push grant (some key) (some ts) domain l
          ≡ some (push_code grant, after))
        × Chain after.heap after.head (pushed grant ban cs)
  unfolding ip_llist_push push_node pushed
  ip_llist_push-Chain cs chain = elim (Bool-cases (grant.node_address == 0)) [
    | inl missing ↦ (l, rw (create_lnode-none missing, missing) refl, rw missing chain)
    | inr real ↦
        let fresh = free-has l.heap l.head grant.node_address cs free chain in
        let kept =
          Chain-update l.heap l.head grant.node_address (some (node ban 0)) cs fresh chain in
        elim (Bool-cases grant.lock_fails) [
          | inl locked ↦
              (created, rw (create_lnode-node real, real, locked) refl, rw (real, locked) kept)
          | inr lock ↦
              let (after, linked, front) =
                link_front-Chain created grant.node_address ban cs (ground arith) fresh
                  (update_self l.heap grant.node_address (some (node ban 0))) kept in
              (after, rw (create_lnode-node real, real, lock, linked) refl, rw (real, lock) front)
        ]
  ]

-- On a list of nodes, the loop of `ip_llist_destroy` ends after as many rounds as there are nodes
-- and one more, without an access to a freed node; it returns IP_LLIST_SUCCESS, the nodes of the
-- list are freed, and no other cell has changed.
pub ip_llist_destroy-Chain :
    (rounds : ℕ) (l : Llist) (cs : Cells)
    → Chain l.heap l.head cs
    → length cs < rounds
    → (heap : ℕ → Option Node) × (ip_llist_destroy rounds l
        ≡ some (llist_success, record l { heap = heap }))
      × ((a : ℕ) → heap a ≡ freed cs l.heap a)
unfolding ip_llist_destroy get_head
ip_llist_destroy-Chain rounds l cs chain enough =
    destroy_loop-Chain cs rounds l.head llist_success l enough chain
