-- ===== src/LinkedList/Examples.antt =====
-- A list with one node.
use fips_ipc.Prelude.{ℕ, ◌≡◌, refl, arith, false, Option, some, none, [], ◌∷◌, ◌==◌, if◌then◌else◌}
use fips_ipc.HashTable.{af_inet}
use fips_ipc.LinkedList.{Ban, Node, Llist, Grant, ip_llist_push, ip_llist_destroy, llist_success}
use fips_ipc.LinkedList.Chain.{Cells, node, Chain}
use fips_ipc.LinkedList.Loops.{freed}
use fips_ipc.LinkedList.Laws.{push_code, pushed, ip_llist_push-Chain, ip_llist_destroy-Chain}

abbrev first : Ban
first = record { key = 5; domain = af_inet; timestamp = 10 }

abbrev cells : Cells
cells = (4, first) ∷ []

abbrev llist : Llist
llist = record { head = 4; heap = λ a. if a == 4 then some (node first 0) else none }

llist-Chain : Chain llist.heap llist.head cells
unfolding Chain
llist-Chain = (0, refl, omega arith, refl, refl, refl)

abbrev grant : Grant
grant = record { node_address = 8; key_fails = false; lock_fails = false; unlock_fails = false }

ip_llist_push-Chain_example :
    (after : Llist) × (ip_llist_push grant (some 6) (some 20) af_inet llist
      ≡ some (push_code grant, after))
    × Chain after.heap after.head
        (pushed grant (record { key = 6; domain = af_inet; timestamp = 20 }) cells)
ip_llist_push-Chain_example =
    ip_llist_push-Chain grant 6 20 af_inet refl refl llist refl cells llist-Chain

ip_llist_destroy-Chain_example :
    (heap : ℕ → Option Node) × (ip_llist_destroy 2 llist
      ≡ some (llist_success, record llist { heap = heap }))
    × ((a : ℕ) → heap a ≡ freed cells llist.heap a)
ip_llist_destroy-Chain_example = ip_llist_destroy-Chain 2 llist cells llist-Chain (omega arith)
