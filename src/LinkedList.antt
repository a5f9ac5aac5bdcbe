-- ===== src/LinkedList.antt =====
-- src/lib/ip_llist.c: nodes on a heap, and the operations of the list of banned addresses.
pub mod Chain
pub mod Loops
pub mod Laws
mod Examples
use fips_ipc.Prelude.{
  ℕ, zero, suc, Bool, true, false, ◌||◌, Option, none, some, ◌==◌, if◌then◌else◌,
}
use fips_ipc.HashTable.{Domain, ℤ, pos, negsuc}
use fips_ipc.HashTable.Ops.{unknown}

-- What a node holds besides its pointer; the key is at an allocation that only the node points to.
pub record Ban : Type 0 where
  pub key : ℕ
  pub domain : Domain
  pub timestamp : ℕ

-- `struct ip_listnode_t`; the pointer 0 is NULL.
pub record Node : Type 0 where
  pub ban : Ban
  pub next : ℕ

-- `struct ip_llist_t` with the heap.
pub record Llist : Type 0 where
  pub head : ℕ
  pub heap : ℕ → Option Node

abbrev pub llist_success : ℤ
llist_success = pos 0

abbrev pub llist_nullptr_err : ℤ
llist_nullptr_err = negsuc 1

abbrev pub llist_mem_err : ℤ
llist_mem_err = negsuc 2

abbrev pub llist_mutex_err : ℤ
llist_mutex_err = negsuc 3

-- What the operating system answers during a push: the address of the new node, 0 for none.
pub record Grant : Type 0 where
  pub node_address : ℕ
  pub key_fails : Bool
  pub lock_fails : Bool
  pub unlock_fails : Bool

-- `none` is undefined behaviour: a pointer to nothing, or a `free` of what was not allocated.
abbrev pub M : Type 0 → Type 0
M A = Llist → Option (A × Llist)

infixl 5 ◌>>=◌ ◌>>◌
abbrev pub and_then : {A B : Type 0} → Option (A × Llist) → (A → M B) → Option (B × Llist)
and_then none f = none
and_then (some (a, l)) f = f a l

abbrev pub ◌>>=◌ : {A B : Type 0} → M A → (A → M B) → M B
m >>= f = λ l. and_then (m l) f

abbrev pub ◌>>◌ : {A B : Type 0} → M A → M B → M B
m >> n = m >>= (λ a. n)

abbrev pub pure : {A : Type 0} → A → M A
pure a l = some (a, l)

abbrev pub undefined : {A : Type 0} → M A
undefined l = none

unfoldable pub update : (ℕ → Option Node) → ℕ → Option Node → ℕ → Option Node
update heap p cell q = if q == p then cell else heap q

abbrev pub store : ℕ → Option Node → M (Unit {0})
store p cell l = some (tt, record l { heap = update l.heap p cell })

unfoldable pub load_cell : Option Node → M Node
load_cell none = undefined
load_cell (some n) = pure n

-- `*p`
unfoldable pub load : ℕ → M Node
unfolding load_cell
load p l = if p == 0 then none else load_cell (l.heap p) l

unfoldable pub set_next : ℕ → ℕ → M (Unit {0})
unfolding load
set_next p next = do n ← load p; store p (some (record n { next = next }))

unfoldable pub get_head : M ℕ
get_head l = some (l.head, l)

unfoldable pub set_head : ℕ → M (Unit {0})
set_head p l = some (tt, record l { head = p })

-- `ip_llist_init` on a heap: the list, if there is memory for it.
unfoldable pub ip_llist_init : Bool → (ℕ → Option Node) → ℤ × Option Llist
ip_llist_init calloc_fails heap =
    if calloc_fails
    then (llist_mem_err, none)
    else (llist_success, some (record { head = 0; heap = heap }))

-- `create_lnode`: a result, and the node's address. Its `free(lnode)` is that of a local variable.
unfoldable pub create_lnode : Grant → Option ℕ → Option ℕ → Domain → M (ℤ × ℕ)
create_lnode grant none ts domain = pure (llist_nullptr_err, 0)
create_lnode grant (some key) none domain = pure (llist_nullptr_err, 0)
create_lnode grant (some key) (some ts) domain =
    if grant.node_address == 0
    then pure (llist_mem_err, 0)
    else if unknown domain || grant.key_fails
    then undefined
    else do
      store grant.node_address
          (some (record { ban = record { key = key; domain = domain; timestamp = ts }; next = 0 }))
      pure (llist_success, grant.node_address)

-- The part of `ip_llist_push` between the calls of the mutex.
unfoldable pub link_front : ℕ → M (Unit {0})
unfolding get_head set_head set_next
link_front new = do
  head ← get_head
  if head == 0 then set_head new else do set_next new head; set_head new

unfoldable pub push_node : Grant → ℤ × ℕ → M ℤ
unfolding link_front
push_node grant (negsuc e, new) = pure (negsuc e)
push_node grant (pos (suc e), new) = pure (pos (suc e))
push_node grant (pos zero, new) =
    if grant.lock_fails
    then pure llist_mutex_err
    else do link_front new; pure (if grant.unlock_fails then llist_mutex_err else llist_success)

-- For a list that is there.
unfoldable pub ip_llist_push : Grant → Option ℕ → Option ℕ → Domain → M ℤ
ip_llist_push grant none ts domain = pure llist_nullptr_err
ip_llist_push grant (some key) ts domain = do
  created ← create_lnode grant (some key) ts domain
  push_node grant created

-- `destroy_lnode`
unfoldable pub destroy_lnode : ℕ → M (Unit {0})
unfolding load
destroy_lnode p = if p == 0 then pure tt else do load p; store p none

-- `ip_llist_remove` of the node at an address, with 0 for no predecessor.
unfoldable pub ip_llist_remove : ℕ → ℕ → M ℤ
unfolding load set_next destroy_lnode
ip_llist_remove node prev = if node == 0 then pure llist_nullptr_err else do
  (if prev == 0 then pure tt else do n ← load node; set_next prev n.next)
  destroy_lnode node
  pure llist_success

-- The loop of `ip_llist_destroy`, with a bound on the rounds and the last error.
unfoldable pub destroy_loop : ℕ → ℕ → ℤ → M ℤ
destroy_loop zero it error = undefined
destroy_loop (suc rounds) it error = if it == 0 then pure error else do
  n ← load it
  retval ← ip_llist_remove it 0
  destroy_loop rounds n.next (elim retval [ pos r ↦ error | negsuc e ↦ negsuc e ])

-- `ip_llist_destroy` of a list that is there.
unfoldable pub ip_llist_destroy : ℕ → M ℤ
unfolding get_head
ip_llist_destroy rounds = do head ← get_head; destroy_loop rounds head llist_success
