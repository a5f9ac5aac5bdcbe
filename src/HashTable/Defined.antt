-- ===== src/HashTable/Defined.antt =====
-- On the result of `ip_hashtable_insert`, whatever fails in it.
use fips_ipc.Prelude.{
  ℕ, ◌<◌, ◌≡◌, refl, inl, inr, Bool-cases, Option, none, some, List, [], ◌∷◌, length, arith,
}
use fips_ipc.HashTable.{
  Domain, Entry, Table, ℤ, pos, to_int, arg_err, mem_err, mutex_err, hash_ip, Env,
}
use fips_ipc.HashTable.Chains.{touch}
use fips_ipc.HashTable.Ops.{
  bump, add_entry, add_refilled, insert_new, insert_locked, insert_checked, insert, unknown,
}
use fips_ipc.HashTable.Invariant.{IsValid, refill_cases}

module _ (env : Env) (some_entries : 0 < env.page_entries) (d : Domain) (k now : ℕ) where
  add_entry-defined :
      (t : Table) (free : List Entry)
      → 0 < length free
      → (r : ℤ) × ((add_entry d k now t free).0 ≡ some r)
  unfolding add_entry
  add_entry-defined t [] h = absurd (omega arith)
  add_entry-defined t (e ∷ free) h = (pos 1, refl)

  insert_new-defined : (t : Table) → IsValid t → (r : ℤ) × ((insert_new env d k now t).0 ≡ some r)
  unfolding insert_new add_refilled
  insert_new-defined t v = elim (Bool-cases env.free_lock_fails) [
    | inl fails ↦ (mutex_err, rw fails refl)
    | inr works ↦ elim (refill_cases env d k now t v) [
      | inl e ↦ (mem_err, rw (works, e) refl)
      | inr (t', e, v', some_left) ↦
          rw (works, e) (add_entry-defined t' t'.free_list (some_left some_entries))
    ]
  ]

  insert_locked-defined :
      (t : Table) (r : Option (Entry × List Entry))
      → IsValid t
      → (z : ℤ) × ((insert_locked env d k now t r).0 ≡ some z)
  unfolding insert_locked
  insert_locked-defined t none v = insert_new-defined t v
  insert_locked-defined t (some (old, es)) v = (to_int (bump t.search_time now old).count, refl)

  -- On a well-formed table and with pages that hold an entry, `ip_hashtable_insert` of any address
  -- never takes an entry from an empty free list: it returns a value, whatever locks and `mmap` do.
  pub insert-defined :
      (t : Table) → IsValid t → (r : ℤ) × ((insert env (some k) d now t).0 ≡ some r)
  unfolding insert insert_checked
  insert-defined t v = elim (Bool-cases (unknown d)) [
    | inl bad ↦ (arg_err, rw bad refl)
    | inr good ↦ elim (Bool-cases env.bin_lock_fails) [
      | inl fails ↦ (mutex_err, rw (good, fails) refl)
      | inr works ↦
          rw (good, works)
            (insert_locked-defined t (touch (bump t.search_time now) d k (t.hbins (hash_ip k d))) v)
    ]
  ]
