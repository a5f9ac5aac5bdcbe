-- ===== src/HashTable/Counters.antt =====
-- The operations of ip_hashtable.c as those of a map from addresses to counters.
use fips_ipc.Prelude.{
  ℕ, ◌+◌, ◌⊎◌, suc, ◌%◌, ◌^◌, ◌≡◌, ◌≢◌, refl, sym, ap, ◌∙◌, inl, inr, false, Bool-cases,
  Option-cases, none, some, List, [], ◌∷◌, length, ◌==◌, arith,
}
use fips_ipc.HashTable.{
  Domain, af_inet, af_inet6, Entry, Table, noexist, to_int, hash_ip, key_matches, put_bin, Env,
}
use fips_ipc.HashTable.Chains.{
  find, same_address, key_matches-differs, touch-none, find-Touched, Touched, unlink-none,
  find-Unlinked, Unlinked,
}
use fips_ipc.HashTable.Ops.{bump, assign, new_entry, unknown, insert, remove, set_count}
use fips_ipc.HashTable.Lookup.{
  lookup, Works, counter, counted, put_bin_own, others_kept, refill-Refilled, new_entry-key_matches,
  bump-key, bump-counted, insert_old, insert_new_lem,
}

-- The entry of the address in a table one of whose bins is set.
lookup-put_bin :
    (t : Table) (d : Domain) (k : ℕ) (es : List Entry)
    → lookup (put_bin t (hash_ip k d) es) d k ≡ find d k es
unfolding lookup
lookup-put_bin t d k es = ap (find d k) (put_bin_own t (hash_ip k d) es)

lookup-hbins :
    (t t' : Table) (d : Domain) (k : ℕ) → t'.hbins ≡ t.hbins → lookup t' d k ≡ lookup t d k
unfolding lookup
lookup-hbins t t' d k e = ap (λ (b : ℕ → List Entry). find d k (b (hash_ip k d))) e

find-new_entry_other :
    (d : Domain) (k k' now : ℕ) (e : Entry) (es : List Entry)
    → unknown d ≡ false
    → same_address d k k' ≡ false
    → find d k' (new_entry d k now e ∷ es) ≡ find d k' es
unfolding find
find-new_entry_other d k k' now e es known n =
    rw (key_matches-differs d k k' (new_entry d k now e) (new_entry-key_matches d k now e known) n)
      refl

find-new_entry_own :
    (d : Domain) (k now : ℕ) (e : Entry) (es : List Entry)
    → unknown d ≡ false
    → find d k (new_entry d k now e ∷ es) ≡ some (new_entry d k now e)
unfolding find
find-new_entry_own d k now e es known = rw (new_entry-key_matches d k now e known) refl

new_entry-counted :
    (d : Domain) (k now : ℕ) (e : Entry) → counter (some (new_entry d k now e)) ≡ some (1, now)
unfolding new_entry
new_entry-counted d k now e = refl

lookup-Touched :
    (change : Entry → Entry) (keeps : (e : Entry) → (change e).key ≡ e.key) (d : Domain) (k : ℕ)
    (t : Table) (old : Entry)
    → lookup t d k ≡ some old
    → Touched d k change keeps old (t.hbins (hash_ip k d))
unfolding lookup
lookup-Touched change keeps d k t old e =
    find-Touched d k change keeps (t.hbins (hash_ip k d)) old e

lookup-Unlinked :
    (d : Domain) (k : ℕ) (t : Table) (old : Entry)
    → lookup t d k ≡ some old
    → Unlinked d k old (t.hbins (hash_ip k d))
unfolding lookup
lookup-Unlinked d k t old e = find-Unlinked d k (t.hbins (hash_ip k d)) old e

assign-key : (value now : ℕ) (e : Entry) → (assign value now e).key ≡ e.key
unfolding assign
assign-key value now e = refl

assign-counted :
    (value now : ℕ) (e : Entry) → counter (some (assign value now e)) ≡ some (value, now)
unfolding assign
assign-counted value now e = refl

module _ (env : Env) (works : Works env) (d : Domain) (known : unknown d ≡ false) (k : ℕ) where
  -- For an IPv4 or IPv6 address, when locks and `mmap` succeed, a page holds an entry and the free
  -- list is as long as its counter, `ip_hashtable_insert` is an update of a map: the address's
  -- counter becomes 1 at the access time if it was absent or older than the search time, and
  -- otherwise goes up by one modulo 2^32 with its time kept; the result is the new counter as an
  -- `int`; and the entry of every other address of the same family, in whatever bin, is as before.
  pub insert-lookup :
      (now : ℕ) (t : Table)
      → t.free_list_size ≡ length t.free_list
      → let (ret, t') = insert env (some k) d now t in
        let (count, last_access) = counted t.search_time now (counter (lookup t d k)) in
        (ret ≡ some (to_int count))
        × (counter (lookup t' d k) ≡ some (count, last_access))
        × ((k' : ℕ) → same_address d k k' ≡ false → lookup t' d k' ≡ lookup t d k')
  insert-lookup now t h = elim (Option-cases (lookup t d k)) [
    | inl absent ↦
        let free = refill-Refilled env works t h in
        let (t', bins, e) = insert_new_lem env works d known k now t free absent in
        let fresh = new_entry d k now free.head in
        let es = t.hbins (hash_ip k d) in
        rw (e, absent)
          (
            refl,
            ap counter (
                  lookup-put_bin t' d k (fresh ∷ es)
                  ∙ find-new_entry_own d k now free.head es known)
                ∙ new_entry-counted d k now free.head,
            λ k' n.
                others_kept d k k' t' (fresh ∷ es) (
                  find-new_entry_other d k k' now free.head es known n
                  ∙ ap (λ (b : ℕ → List Entry). find d k' (b (hash_ip k d))) (sym bins))
                ∙ lookup-hbins t t' d k' bins,
          )
    | inr (old, present) ↦
        let touched =
          lookup-Touched (bump t.search_time now) (bump-key t.search_time now) d k t old present in
        let e = insert_old env works d known k now t old touched in
        rw (e, present)
          (
            ap (λ (c : ℕ × ℕ). some (to_int c.0)) (bump-counted t.search_time now old),
            ap counter (lookup-put_bin t d k touched.chain ∙ touched.own)
                ∙ ap some (bump-counted t.search_time now old),
            λ k' n. others_kept d k k' t touched.chain (touched.others k' n),
          )
  ]

  set_old :
      (value now : ℕ) (t : Table) (old : Entry)
      (touched : Touched d k (assign value now) (assign-key value now) old (t.hbins (hash_ip k d)))
      → set_count env (some k) d value now t
        ≡ (to_int old.count, put_bin t (hash_ip k d) touched.chain)
  unfolding set_count
  set_old value now t old touched = rw (known, works.bin_lock, touched.result) refl

  set_count-none :
      (value now : ℕ) (t : Table)
      → lookup t d k ≡ none
      → set_count env (some k) d value now t ≡ (noexist, t)
  unfolding set_count lookup
  set_count-none value now t h =
      rw
        (
          known,
          works.bin_lock,
          touch-none d k (assign value now) (assign-key value now) (t.hbins (hash_ip k d)) h,
        )
        refl

  -- For an IPv4 or IPv6 address, when the operating system grants what a call asks for,
  -- `ip_hashtable_set` either finds no entry and returns IP_HTABLE_NOEXIST with the table as it
  -- was, or returns the old counter of the address, whose counter and time are then those given,
  -- and leaves the entry of every other address of the same family as before.
  pub set_count-lookup :
      (value now : ℕ) (t : Table)
      → ((lookup t d k ≡ none) × (set_count env (some k) d value now t ≡ (noexist, t)))
        ⊎ ((old : Entry) × (lookup t d k ≡ some old)
            × ((set_count env (some k) d value now t).0 ≡ to_int old.count)
            × (counter (lookup (set_count env (some k) d value now t).1 d k) ≡ some (value, now))
            × ((k' : ℕ)
                → same_address d k k' ≡ false
                → lookup (set_count env (some k) d value now t).1 d k' ≡ lookup t d k'))
  set_count-lookup value now t = elim (Option-cases (lookup t d k)) [
    | inl absent ↦ inl (absent, set_count-none value now t absent)
    | inr (old, present) ↦
        let touched = lookup-Touched (assign value now) (assign-key value now) d k t old present in
        let e = set_old value now t old touched in
        inr (
          old,
          present,
          rw e refl,
          rw e (
              ap counter (lookup-put_bin t d k touched.chain ∙ touched.own)
              ∙ assign-counted value now old),
          λ k' n. rw e (others_kept d k k' t touched.chain (touched.others k' n)),
        )
  ]

  remove_old :
      (t : Table) (old : Entry) (unlinked : Unlinked d k old (t.hbins (hash_ip k d)))
      → (free : List Entry) × (size : ℕ) × (remove env (some k) d t ≡ (
        to_int old.count,
        record (put_bin t (hash_ip k d) unlinked.chain) { free_list = free; free_list_size = size },
      ))
        × (free ≡ old ∷ t.free_list)
        × (size ≡ t.free_list_size + 1)
  unfolding remove put_bin
  remove_old t old unlinked = (
    old ∷ t.free_list,
    t.free_list_size + 1,
    rw (known, works.bin_lock, unlinked.result, works.free_lock) refl,
    refl,
    refl,
  )

  remove-none : (t : Table) → lookup t d k ≡ none → remove env (some k) d t ≡ (noexist, t)
  unfolding remove lookup
  remove-none t h = rw (known, works.bin_lock, unlink-none d k (t.hbins (hash_ip k d)) h) refl

  -- For an IPv4 or IPv6 address, when the operating system grants what a call asks for,
  -- `ip_hashtable_remove` either finds no entry and returns IP_HTABLE_NOEXIST with the table as it
  -- was, or returns the counter of the address's entry, puts that entry on the free list, leaves
  -- one entry less in its bin, and leaves the entry of every other address of the same family as
  -- before.
  pub remove-lookup :
      (t : Table)
      → ((lookup t d k ≡ none) × (remove env (some k) d t ≡ (noexist, t)))
        ⊎ ((old : Entry) × (lookup t d k ≡ some old)
            × ((remove env (some k) d t).0 ≡ to_int old.count)
            × ((remove env (some k) d t).1.free_list ≡ old ∷ t.free_list)
            × (suc (length ((remove env (some k) d t).1.hbins (hash_ip k d)))
                ≡ length (t.hbins (hash_ip k d)))
            × ((k' : ℕ)
                → same_address d k k' ≡ false
                → lookup (remove env (some k) d t).1 d k' ≡ lookup t d k'))
  remove-lookup t = elim (Option-cases (lookup t d k)) [
    | inl absent ↦ inl (absent, remove-none t absent)
    | inr (old, present) ↦
        let u = lookup-Unlinked d k t old present in
        let (free, size, e, f, s) = remove_old t old u in
        let i = hash_ip k d in
        inr (
          old,
          present,
          rw e refl,
          rw (e, f) refl,
          rw e (ap (λ (es : List Entry). suc (length es)) (put_bin_own t i u.chain) ∙ u.size),
          λ k' n. rw e (
              lookup-hbins (put_bin t i u.chain)
                (record (put_bin t i u.chain) { free_list = free; free_list_size = size }) d k' refl
              ∙ others_kept d k k' t u.chain (u.others k' n)),
        )
  ]

-- An entry of an IPv6 address answers for the IPv4 address that is its first 4 bytes, wherever the
-- two have the same bin.
find-family :
    (k : ℕ) (es : List Entry) → find af_inet6 k es ≢ none → find af_inet (k % 2 ^ 32) es ≢ none
unfolding find key_matches
find-family k [] h = h
find-family k (e ∷ es) h = elim (Bool-cases (e.key == k)) [
  | inl hit ↦ ground (arith, hit)
  | inr miss ↦ let deeper = find-family k es (rw miss at h) in ground (arith, miss, deeper)
]

-- The entry of an IPv6 address answers for the IPv4 address made of its first 4 bytes, whenever the
-- two have the same bin: the loops compare addresses and not families.
pub lookup-families :
    (t : Table) (k : ℕ)
    → hash_ip k af_inet6 ≡ hash_ip (k % 2 ^ 32) af_inet
    → lookup t af_inet6 k ≢ none
    → lookup t af_inet (k % 2 ^ 32) ≢ none
unfolding lookup
lookup-families t k bin h = rw (← bin) (find-family k (t.hbins (hash_ip k af_inet6)) h)
