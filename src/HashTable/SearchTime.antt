-- ===== src/HashTable/SearchTime.antt =====
-- `ip_hashtable_insert` leaves the search time alone.
use fips_ipc.Prelude.{
  ℕ, ◌≡◌, refl, ◌∙◌, inl, inr, Bool-cases, Option, none, some, List, [], ◌∷◌, ◌==◌,
}
use fips_ipc.HashTable.{Domain, Entry, Table, hash_ip, put_bin, Env}
use fips_ipc.HashTable.Chains.{touch}
use fips_ipc.HashTable.Ops.{
  bump, refill, add_entry, add_refilled, insert_new, insert_locked, insert_checked, insert, unknown,
}

-- A table that may be there has the same search time.
IsSameTime : Table → Option Table → Type 0
IsSameTime t none = Unit {0}
IsSameTime t (some t') = t'.search_time ≡ t.search_time

refill-IsSameTime : (env : Env) (t : Table) → IsSameTime t (refill env t)
unfolding refill IsSameTime
refill-IsSameTime env t = elim (Bool-cases (t.free_list_size == 0)) [
  | inl empty ↦ elim (Bool-cases env.mmap_fails) [
    | inl fails ↦ rw (empty, fails) tt
    | inr works ↦ rw (empty, works) refl
  ]
  | inr more ↦ rw more refl
]

module _ (d : Domain) (k now : ℕ) where
  add_entry-search_time :
      (t : Table) (free : List Entry) → (add_entry d k now t free).1.search_time ≡ t.search_time
  unfolding add_entry put_bin
  add_entry-search_time t [] = refl
  add_entry-search_time t (e ∷ free) = refl

  add_refilled-search_time :
      (t : Table) (o : Option Table)
      → IsSameTime t o
      → (add_refilled d k now t o).1.search_time ≡ t.search_time
  unfolding add_refilled IsSameTime
  add_refilled-search_time t none same = refl
  add_refilled-search_time t (some t') same = add_entry-search_time t' t'.free_list ∙ same

  module _ (env : Env) where
    insert_new-search_time : (t : Table) → (insert_new env d k now t).1.search_time ≡ t.search_time
    unfolding insert_new
    insert_new-search_time t = elim (Bool-cases env.free_lock_fails) [
      | inl fails ↦ rw fails refl
      | inr works ↦ rw works (add_refilled-search_time t (refill env t) (refill-IsSameTime env t))
    ]

    insert_locked-search_time :
        (t : Table) (r : Option (Entry × List Entry))
        → (insert_locked env d k now t r).1.search_time ≡ t.search_time
    unfolding insert_locked put_bin
    insert_locked-search_time t none = insert_new-search_time t
    insert_locked-search_time t (some (old, es)) = refl

    pub insert-search_time :
        (t : Table) → (insert env (some k) d now t).1.search_time ≡ t.search_time
    unfolding insert insert_checked
    insert-search_time t = elim (Bool-cases (unknown d)) [
      | inl bad ↦ rw bad refl
      | inr good ↦ elim (Bool-cases env.bin_lock_fails) [
        | inl fails ↦ rw (good, fails) refl
        | inr works ↦
            rw (good, works)
              (insert_locked-search_time t
                (touch (bump t.search_time now) d k (t.hbins (hash_ip k d))))
      ]
    ]
