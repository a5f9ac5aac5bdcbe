-- ===== src/HashTable/Ops.antt =====
-- `ip_hashtable_insert`, `ip_hashtable_remove` and `ip_hashtable_set`.
use fips_ipc.Prelude.{
  ℕ, ◌+◌, ◌-◌, ◌%◌, ◌^◌, Bool, true, false, Option, none, some, List, [], ◌∷◌, ◌++◌, ltb, ◌==◌,
  if◌then◌else◌, replicate,
}
use fips_ipc.HashTable.{
  Domain, af_inet, af_inet6, other_domain, Entry, Table, ℤ, pos, arg_err, mem_err, mutex_err,
  noexist, to_int, hash_ip, put_bin, Env,
}
use fips_ipc.HashTable.Chains.{touch, unlink}

-- What happens to the count and the time of an address that is there already.
unfoldable pub bump : ℕ → ℕ → Entry → Entry
bump search_time access_time e =
    if ltb (e.last_access + search_time) access_time
    then record e { count = 1; last_access = access_time }
    else record e { count = (e.count + 1) % 2 ^ 32 }

-- What a page from `mmap` holds.
abbrev pub zero_entry : Entry
zero_entry = record { key = 0; domain = other_domain 0; last_access = 0; count = 0 }

-- A page of new entries if the free list is empty; `none` where there is none.
unfoldable pub refill : Env → Table → Option Table
refill env t =
    if t.free_list_size == 0
    then (if env.mmap_fails
        then none
        else some (record t {
          free_list = replicate env.page_entries zero_entry ++ t.free_list;
          free_list_size = t.free_list_size + env.page_entries;
        }))
    else some t

-- The assignment to the union: an IPv4 address changes its first 4 bytes only.
unfoldable pub put_key : Domain → ℕ → ℕ → ℕ
put_key af_inet key old = old - old % 2 ^ 32 + key % 2 ^ 32
put_key af_inet6 key old = key
put_key (other_domain d) key old = key

-- The entry that a new address gets.
unfoldable pub new_entry : Domain → ℕ → ℕ → Entry → Entry
unfolding put_key
new_entry d key access_time e = record {
  key = put_key d key e.key;
  domain = d;
  last_access = access_time;
  count = 1;
}

-- The head of the free list goes to the front of the bin; `none` is the use of a null pointer.
unfoldable pub add_entry : Domain → ℕ → ℕ → Table → List Entry → Option ℤ × Table
unfolding new_entry put_bin hash_ip
add_entry d key access_time t [] = (none, t)
add_entry d key access_time t (e ∷ free) =
    let bin_index = hash_ip key d in
    (
      some (pos 1),
      put_bin (record t { free_list = free; free_list_size = t.free_list_size - 1 }) bin_index
          (new_entry d key access_time e ∷ t.hbins bin_index),
    )

unfoldable pub add_refilled : Domain → ℕ → ℕ → Table → Option Table → Option ℤ × Table
unfolding add_entry
add_refilled d key access_time t none = (some mem_err, t)
add_refilled d key access_time t (some t') = add_entry d key access_time t' t'.free_list

unfoldable pub insert_new : Env → Domain → ℕ → ℕ → Table → Option ℤ × Table
unfolding refill add_refilled
insert_new env d key access_time t =
    if env.free_lock_fails
    then (some mutex_err, t)
    else add_refilled d key access_time t (refill env t)

-- Once the bin is locked.
unfoldable pub insert_locked :
    Env → Domain → ℕ → ℕ → Table → Option (Entry × List Entry) → Option ℤ × Table
unfolding bump insert_new put_bin hash_ip
insert_locked env d key access_time t none = insert_new env d key access_time t
insert_locked env d key access_time t (some (old, es)) =
    (some (to_int (bump t.search_time access_time old).count), put_bin t (hash_ip key d) es)

-- The operations after the checks of the arguments.
unfoldable pub insert_checked : Env → Domain → ℕ → ℕ → Table → Option ℤ × Table
unfolding insert_locked touch
insert_checked env d key access_time t =
    let es = t.hbins (hash_ip key d) in
    if env.bin_lock_fails
    then (some mutex_err, t)
    else insert_locked env d key access_time t (touch (bump t.search_time access_time) d key es)

-- The entry is out of its bin even where the free list cannot be locked.
unfoldable pub remove_locked : Env → Domain → ℕ → Table → Option (Entry × List Entry) → ℤ × Table
unfolding put_bin hash_ip
remove_locked env d key t none = (noexist, t)
remove_locked env d key t (some (old, es)) =
    let t' = put_bin t (hash_ip key d) es in
    if env.free_lock_fails then (mutex_err, t') else (
      to_int old.count,
      record t' { free_list = old ∷ t'.free_list; free_list_size = t'.free_list_size + 1 },
    )

unfoldable pub remove_checked : Env → Domain → ℕ → Table → ℤ × Table
unfolding remove_locked unlink
remove_checked env d key t =
    if env.bin_lock_fails
    then (mutex_err, t)
    else remove_locked env d key t (unlink d key (t.hbins (hash_ip key d)))

unfoldable pub assign : ℕ → ℕ → Entry → Entry
assign value access_time e = record e { count = value; last_access = access_time }

unfoldable pub set_locked : Domain → ℕ → Table → Option (Entry × List Entry) → ℤ × Table
unfolding put_bin hash_ip
set_locked d key t none = (noexist, t)
set_locked d key t (some (old, es)) = (to_int old.count, put_bin t (hash_ip key d) es)

unfoldable pub set_checked : Env → Domain → ℕ → ℕ → ℕ → Table → ℤ × Table
unfolding set_locked touch assign
set_checked env d key value access_time t =
    let es = t.hbins (hash_ip key d) in
    if env.bin_lock_fails
    then (mutex_err, t)
    else set_locked d key t (touch (assign value access_time) d key es)

-- `domain != AF_INET && domain != AF_INET6`
abbrev pub unknown : Domain → Bool
unknown af_inet = false
unknown af_inet6 = false
unknown (other_domain d) = true

-- The functions of the library; `none` is a null pointer. No `Table` is left as it is by one.
unfoldable pub insert : Env → Option ℕ → Domain → ℕ → Table → Option ℤ × Table
unfolding insert_checked
insert env none d access_time t = (some arg_err, t)
insert env (some key) d access_time t =
    if unknown d then (some arg_err, t) else insert_checked env d key access_time t

unfoldable pub remove : Env → Option ℕ → Domain → Table → ℤ × Table
unfolding remove_checked
remove env none d t = (arg_err, t)
remove env (some key) d t = if unknown d then (arg_err, t) else remove_checked env d key t

unfoldable pub set_count : Env → Option ℕ → Domain → ℕ → ℕ → Table → ℤ × Table
unfolding set_checked
set_count env none d value access_time t = (arg_err, t)
set_count env (some key) d value access_time t =
    if unknown d then (arg_err, t) else set_checked env d key value access_time t
