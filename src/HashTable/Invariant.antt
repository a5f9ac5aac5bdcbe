-- ===== src/HashTable/Invariant.antt =====
-- The well-formed tables, and the operations in sequence.
use fips_ipc.Prelude.{
  ℕ, ◌⊎◌, ◌+◌, ◌-◌, ◌%◌, ◌/◌, ◌^◌, ◌<◌, ◌≡◌, refl, ap, inl, inr, Bool-cases, Option, none, some,
  List, [], ◌∷◌, ◌++◌, length, length-append, length-replicate, ltb, ◌==◌, ==_iff, arith, replicate,
  All,
}
use fips_ipc.HashTable.{
  Domain, af_inet, af_inet6, other_domain, Entry, Table, hash_ip, key_matches, put_bin, Env,
}
use fips_ipc.HashTable.Chains.{touch, unlink, behind}
use fips_ipc.HashTable.Ops.{
  bump, assign, refill, put_key, new_entry, add_entry, add_refilled, insert_new, insert_locked,
  insert_checked, insert, remove_locked, remove_checked, remove, set_locked, set_checked, set_count,
  unknown, zero_entry,
}

-- The free list is as long as its counter says, and every entry is in the bin of its address.
pub record IsValid (t : Table) : Type 0 where
  pub free_count : t.free_list_size ≡ length t.free_list
  pub homes : (i : ℕ) → All (λ e. hash_ip e.key e.domain ≡ i) (t.hbins i)

pub data Op : Type 0 where
  inserts : Env → Option ℕ → Domain → ℕ → Op
  removes : Env → Option ℕ → Domain → Op
  sets : Env → Option ℕ → Domain → ℕ → ℕ → Op

unfoldable pub step : Table → Op → Table
step t (inserts env key d access_time) = (insert env key d access_time t).1
step t (removes env key d) = (remove env key d t).1
step t (sets env key d value access_time) = (set_count env key d value access_time t).1

unfoldable pub run : Table → List Op → Table
run t [] = t
run t (op ∷ ops) = run (step t op) ops

-- The predicate holds of the chain that a loop leaves, if it leaves one.
abbrev Leaves : (Entry → Type 0) → Option (Entry × List Entry) → Type 0
Leaves P none = Unit
Leaves P (some (old, es)) = P old × All P es

behind-Leaves :
    (P : Entry → Type 0) (e : Entry) (r : Option (Entry × List Entry))
    → P e
    → Leaves P r
    → Leaves P (behind e r)
unfolding behind
behind-Leaves P e none h l = tt
behind-Leaves P e (some (old, es)) h l = (l.0, (h, l.1))

touch-Leaves :
    (P : Entry → Type 0) (change : Entry → Entry) (keeps : (e : Entry) → P e → P (change e))
    (d : Domain) (k : ℕ) (es : List Entry)
    → All P es
    → Leaves P (touch change d k es)
unfolding touch
touch-Leaves P change keeps d k [] h = tt
touch-Leaves P change keeps d k (e ∷ es) h = elim (Bool-cases (key_matches d k e)) [
  | inl hit ↦ rw hit (h.0, (keeps e h.0, h.1))
  | inr miss ↦
      rw miss (behind-Leaves P e (touch change d k es) h.0 (touch-Leaves P change keeps d k es h.1))
]

unlink-Leaves :
    (P : Entry → Type 0) (d : Domain) (k : ℕ) (es : List Entry)
    → All P es
    → Leaves P (unlink d k es)
unfolding unlink
unlink-Leaves P d k [] h = tt
unlink-Leaves P d k (e ∷ es) h = elim (Bool-cases (key_matches d k e)) [
  | inl hit ↦ rw hit h
  | inr miss ↦ rw miss (behind-Leaves P e (unlink d k es) h.0 (unlink-Leaves P d k es h.1))
]

-- An entry stays in the bin of its address under a change of count and time.
bump-home :
    (q now i : ℕ) (e : Entry)
    → hash_ip e.key e.domain ≡ i
    → hash_ip (bump q now e).key (bump q now e).domain ≡ i
unfolding bump
bump-home q now i e h = elim (Bool-cases (ltb (e.last_access + q) now)) [
  | inl old ↦ rw old h
  | inr recent ↦ rw recent h
]

new_entry-home :
    (d : Domain) (k now : ℕ) (e : Entry)
    → hash_ip (new_entry d k now e).key (new_entry d k now e).domain ≡ hash_ip k d
unfolding new_entry put_key hash_ip
new_entry-home af_inet k now e =
    let low : (e.key - e.key % 2 ^ 32 + k % 2 ^ 32) % 2 ^ 32 ≡ k % 2 ^ 32 = omega arith in
    ap (λ (m : ℕ). m / 2 ^ 16) low
new_entry-home af_inet6 k now e = refl
new_entry-home (other_domain x) k now e = refl

put_bin-IsValid :
    (t : Table) (i : ℕ) (es : List Entry)
    → IsValid t
    → All (λ e. hash_ip e.key e.domain ≡ i) es
    → IsValid (put_bin t i es)
unfolding put_bin
put_bin-IsValid t i es v h = record {
  free_count = v.free_count;
  homes = λ j. elim (Bool-cases (j == i)) [
    | inl e ↦ let same : j ≡ i = (==_iff j i).0 e in rw (e, same) h
    | inr e ↦ rw e (v.homes j)
  ];
}

-- A table with another free list, as long as the counter says.
free-IsValid :
    (t : Table) (free : List Entry) (size : ℕ)
    → IsValid t
    → size ≡ length free
    → IsValid (record t { free_list = free; free_list_size = size })
free-IsValid t free size v h = record { free_count = h; homes = v.homes }

module _ (env : Env) (d : Domain) (k now : ℕ) where
  add_entry-IsValid :
      (t : Table) (free : List Entry)
      → t.free_list ≡ free
      → IsValid t
      → IsValid (add_entry d k now t free).1
  unfolding add_entry
  add_entry-IsValid t [] h v = v
  add_entry-IsValid t (e ∷ free) h v =
      let size : t.free_list_size - 1 ≡ length free = omega (arith, v.free_count, ap length h) in
      put_bin-IsValid (record t { free_list = free; free_list_size = t.free_list_size - 1 })
        (hash_ip k d) (new_entry d k now e ∷ t.hbins (hash_ip k d))
        (free-IsValid t free (t.free_list_size - 1) v size)
        (new_entry-home d k now e, v.homes (hash_ip k d))

  pub refill_cases :
      (t : Table)
      → IsValid t
      → (refill env t ≡ none)
        ⊎ ((t' : Table) × (refill env t ≡ some t')
            × IsValid t'
            × (0 < env.page_entries → 0 < length t'.free_list))
  unfolding refill
  refill_cases t v = elim (Bool-cases (t.free_list_size == 0)) [
    | inl empty ↦ elim (Bool-cases env.mmap_fails) [
      | inl fails ↦ inl (rw (empty, fails) refl)
      | inr works ↦
          let size : t.free_list_size + env.page_entries
              ≡ length (replicate env.page_entries zero_entry ++ t.free_list) =
            omega (
              arith,
              length-append (replicate env.page_entries zero_entry) t.free_list,
              length-replicate env.page_entries zero_entry,
              v.free_count,
            ) in
          inr (
            record t {
              free_list = replicate env.page_entries zero_entry ++ t.free_list;
              free_list_size = t.free_list_size + env.page_entries;
            },
            rw (empty, works) refl,
            free-IsValid t (replicate env.page_entries zero_entry ++ t.free_list)
                (t.free_list_size + env.page_entries) v size,
            λ h. omega (arith, size),
          )
    ]
    | inr some_left ↦ inr (t, rw some_left refl, v, λ h. ground (arith, some_left, v.free_count))
  ]

  insert_new-IsValid : (t : Table) → IsValid t → IsValid (insert_new env d k now t).1
  unfolding insert_new add_refilled
  insert_new-IsValid t v = elim (Bool-cases env.free_lock_fails) [
    | inl fails ↦ rw fails v
    | inr works ↦ elim (refill_cases t v) [
      | inl e ↦ rw (works, e) v
      | inr (t', e, v', some_left) ↦ rw (works, e) (add_entry-IsValid t' t'.free_list refl v')
    ]
  ]

  insert_locked-IsValid :
      (t : Table) (r : Option (Entry × List Entry))
      → IsValid t
      → Leaves (λ e. hash_ip e.key e.domain ≡ hash_ip k d) r
      → IsValid (insert_locked env d k now t r).1
  unfolding insert_locked
  insert_locked-IsValid t none v l = insert_new-IsValid t v
  insert_locked-IsValid t (some (old, es)) v l = put_bin-IsValid t (hash_ip k d) es v l.1

  insert_checked-IsValid : (t : Table) → IsValid t → IsValid (insert_checked env d k now t).1
  unfolding insert_checked
  insert_checked-IsValid t v = elim (Bool-cases env.bin_lock_fails) [
    | inl fails ↦ rw fails v
    | inr works ↦ rw works (
        insert_locked-IsValid t (touch (bump t.search_time now) d k (t.hbins (hash_ip k d))) v (
          touch-Leaves (λ e. hash_ip e.key e.domain ≡ hash_ip k d) (bump t.search_time now)
            (bump-home t.search_time now (hash_ip k d)) d k (t.hbins (hash_ip k d))
            (v.homes (hash_ip k d))))
  ]

  remove_locked-IsValid :
      (t : Table) (r : Option (Entry × List Entry))
      → IsValid t
      → Leaves (λ e. hash_ip e.key e.domain ≡ hash_ip k d) r
      → IsValid (remove_locked env d k t r).1
  unfolding remove_locked
  remove_locked-IsValid t none v l = v
  remove_locked-IsValid t (some (old, es)) v l =
      let v' = put_bin-IsValid t (hash_ip k d) es v l.1 in
      let t' = put_bin t (hash_ip k d) es in
      elim (Bool-cases env.free_lock_fails) [
        | inl fails ↦ rw fails v'
        | inr works ↦ rw works (
            free-IsValid t' (old ∷ t'.free_list) (t'.free_list_size + 1) v'
              (omega (arith, v'.free_count)))
      ]

  remove_checked-IsValid : (t : Table) → IsValid t → IsValid (remove_checked env d k t).1
  unfolding remove_checked
  remove_checked-IsValid t v = elim (Bool-cases env.bin_lock_fails) [
    | inl fails ↦ rw fails v
    | inr works ↦ rw works (
        remove_locked-IsValid t (unlink d k (t.hbins (hash_ip k d))) v (
          unlink-Leaves (λ e. hash_ip e.key e.domain ≡ hash_ip k d) d k (t.hbins (hash_ip k d))
            (v.homes (hash_ip k d))))
  ]

  assign-home :
      (value i : ℕ) (e : Entry)
      → hash_ip e.key e.domain ≡ i
      → hash_ip (assign value now e).key (assign value now e).domain ≡ i
  unfolding assign
  assign-home value i e h = h

  set_locked-IsValid :
      (t : Table) (r : Option (Entry × List Entry))
      → IsValid t
      → Leaves (λ e. hash_ip e.key e.domain ≡ hash_ip k d) r
      → IsValid (set_locked d k t r).1
  unfolding set_locked
  set_locked-IsValid t none v l = v
  set_locked-IsValid t (some (old, es)) v l = put_bin-IsValid t (hash_ip k d) es v l.1

  set_checked-IsValid :
      (value : ℕ) (t : Table) → IsValid t → IsValid (set_checked env d k value now t).1
  unfolding set_checked
  set_checked-IsValid value t v = elim (Bool-cases env.bin_lock_fails) [
    | inl fails ↦ rw fails v
    | inr works ↦ rw works (
        set_locked-IsValid t (touch (assign value now) d k (t.hbins (hash_ip k d))) v (
          touch-Leaves (λ e. hash_ip e.key e.domain ≡ hash_ip k d) (assign value now)
            (assign-home value (hash_ip k d)) d k (t.hbins (hash_ip k d)) (v.homes (hash_ip k d))))
  ]

pub step-IsValid : (t : Table) (op : Op) → IsValid t → IsValid (step t op)
unfolding step insert remove set_count
step-IsValid t (inserts env none d now) v = v
step-IsValid t (inserts env (some k) d now) v = elim (Bool-cases (unknown d)) [
  | inl bad ↦ rw (step, bad) v
  | inr good ↦ rw (step, good) (insert_checked-IsValid env d k now t v)
]
step-IsValid t (removes env none d) v = v
step-IsValid t (removes env (some k) d) v = elim (Bool-cases (unknown d)) [
  | inl bad ↦ rw (step, bad) v
  | inr good ↦ rw (step, good) (remove_checked-IsValid env d k 0 t v)
]
step-IsValid t (sets env none d value now) v = v
step-IsValid t (sets env (some k) d value now) v = elim (Bool-cases (unknown d)) [
  | inl bad ↦ rw (step, bad) v
  | inr good ↦ rw (step, good) (set_checked-IsValid env d k now value t v)
]

-- From a table whose free list is as long as its counter says and whose entries are each in the bin
-- of their address, every sequence of inserts, removals and settings, with any arguments and any
-- failures of locks and `mmap`, ends in such a table.
pub run-IsValid : (t : Table) (ops : List Op) → IsValid t → IsValid (run t ops)
unfolding run
run-IsValid t [] v = v
run-IsValid t (op ∷ ops) v = run-IsValid (step t op) ops (step-IsValid t op v)
