-- ===== src/HashTable/Lookup.antt =====
-- The entry of an address, and lemmas on what `ip_hashtable_insert` does to it.
use fips_ipc.Prelude.{
  ℕ, zero, suc, ◌+◌, ◌-◌, ◌%◌, ◌^◌, ◌<◌, ◌≡◌, refl, inl, inr, true, false, Bool-cases, Option, none,
  some, List, [], ◌∷◌, ◌++◌, length, ltb, ◌==◌, if◌then◌else◌, arith, replicate, ==_iff,
}
use fips_ipc.HashTable.{
  Domain, af_inet, af_inet6, other_domain, Entry, Table, to_int, hash_ip, key_matches, put_bin, Env,
}
use fips_ipc.HashTable.Chains.{find, touch-none, Touched}
use fips_ipc.HashTable.Ops.{bump, refill, new_entry, add_entry, unknown, insert, zero_entry}

-- The entry of an address.
unfoldable pub lookup : Table → Domain → ℕ → Option Entry
unfolding find hash_ip
lookup t d key = find d key (t.hbins (hash_ip key d))

-- An operating system that grants what a call asks for.
pub record Works (env : Env) : Type 0 where
  pub bin_lock : env.bin_lock_fails ≡ false
  pub free_lock : env.free_lock_fails ≡ false
  pub mmap : env.mmap_fails ≡ false
  pub some_entries : 0 < env.page_entries

abbrev pub counter : Option Entry → Option (ℕ × ℕ)
counter none = none
counter (some e) = some (e.count, e.last_access)

-- The count and the time of an address after an access: an old entry starts afresh.
abbrev pub counted : ℕ → ℕ → Option (ℕ × ℕ) → ℕ × ℕ
counted search_time access_time none = (1, access_time)
counted search_time access_time (some (count, last_access)) =
    if ltb (last_access + search_time) access_time
    then (1, access_time)
    else ((count + 1) % 2 ^ 32, last_access)

==_refl : (n : ℕ) → (n == n) ≡ true
==_refl n = (==_iff n n).1 refl

pub put_bin_own : (t : Table) (i : ℕ) (es : List Entry) → (put_bin t i es).hbins i ≡ es
unfolding put_bin
put_bin_own t i es = rw (==_refl i) refl

-- A bin that changes for one address leaves the others alone, in whatever bins they are.
pub others_kept :
    (d : Domain) (k k' : ℕ) (t : Table) (es : List Entry)
    → (find d k' es ≡ find d k' (t.hbins (hash_ip k d)))
    → lookup (put_bin t (hash_ip k d) es) d k' ≡ lookup t d k'
unfolding lookup put_bin
others_kept d k k' t es h = elim (Bool-cases (hash_ip k' d == hash_ip k d)) [
  | inl e ↦
      let same : hash_ip k' d ≡ hash_ip k d = (==_iff (hash_ip k' d) (hash_ip k d)).0 e in
      rw (e, same) h
  | inr e ↦ rw e refl
]

-- The free list has an entry after `refill`.
pub record Refilled (env : Env) (t : Table) : Type 0 where
  pub head : Entry
  pub rest : List Entry
  pub table : Table
  pub result : refill env t ≡ some table
  pub entries : table.free_list ≡ head ∷ rest
  pub bins : table.hbins ≡ t.hbins

replicate_suc :
    (n : ℕ)
    → 0 < n
    → (a : Entry) (xs : List Entry) → (r : List Entry) × (replicate n a ++ xs ≡ a ∷ r)
replicate_suc zero h a xs = absurd (omega arith)
replicate_suc (suc n) h a xs = (replicate n a ++ xs, refl)

head_of : (xs : List Entry) → 0 < length xs → (e : Entry) × (r : List Entry) × (xs ≡ e ∷ r)
head_of [] h = absurd (omega arith)
head_of (e ∷ r) h = (e, r, refl)

pub refill-Refilled :
    (env : Env) → Works env → (t : Table) → t.free_list_size ≡ length t.free_list → Refilled env t
unfolding refill
refill-Refilled env w t h = elim (Bool-cases (t.free_list_size == 0)) [
  | inl e ↦
      let (r, entries) = replicate_suc env.page_entries w.some_entries zero_entry t.free_list in
      record {
        head = zero_entry;
        rest = r;
        table = record t {
          free_list = replicate env.page_entries zero_entry ++ t.free_list;
          free_list_size = t.free_list_size + env.page_entries;
        };
        result = rw (e, w.mmap) refl;
        entries = entries;
        bins = refl;
      }
  | inr e ↦
      let (head, rest, entries) = head_of t.free_list (ground (arith, e, h)) in
      record {
        head = head;
        rest = rest;
        table = t;
        result = rw e refl;
        entries = entries;
        bins = refl;
      }
]

pub new_entry-key_matches :
    (d : Domain) (k now : ℕ) (e : Entry)
    → unknown d ≡ false
    → key_matches d k (new_entry d k now e) ≡ true
unfolding key_matches new_entry
new_entry-key_matches af_inet k now e h = ground arith
new_entry-key_matches af_inet6 k now e h = ==_refl k
new_entry-key_matches (other_domain x) k now e h = absurd (ground arith)

pub bump-key : (q now : ℕ) (e : Entry) → (bump q now e).key ≡ e.key
unfolding bump
bump-key q now e = ground arith

pub bump-counted :
    (q now : ℕ) (e : Entry)
    → ((bump q now e).count, (bump q now e).last_access)
      ≡ counted q now (some (e.count, e.last_access))
unfolding bump
bump-counted q now e = elim (Bool-cases (ltb (e.last_access + q) now)) [
  | inl h ↦ rw h refl
  | inr h ↦ rw h refl
]

module _ (env : Env) (works : Works env) (d : Domain) (known : unknown d ≡ false) (k : ℕ) where
  pub insert_old :
      (now : ℕ) (t : Table) (old : Entry)
      (touched : Touched d k
        (bump t.search_time now)
        (bump-key t.search_time now)
        old
        (t.hbins (hash_ip k d)))
      → insert env (some k) d now t
        ≡ (some (to_int (bump t.search_time now old).count), put_bin t (hash_ip k d) touched.chain)
  unfolding insert
  insert_old now t old touched = rw (known, works.bin_lock, touched.result) refl

  pub insert_new_lem :
      (now : ℕ) (t : Table) (free : Refilled env t)
      → lookup t d k ≡ none
      → (t' : Table) × (t'.hbins ≡ t.hbins)
        × (insert env (some k) d now t ≡ (
          some (to_int 1),
          put_bin t' (hash_ip k d) (new_entry d k now free.head ∷ t.hbins (hash_ip k d)),
        ))
  unfolding insert lookup to_int add_entry
  insert_new_lem now t free h = (
    record (free.table) { free_list = free.rest; free_list_size = free.table.free_list_size - 1 },
    free.bins,
    rw
        (
          known,
          works.bin_lock,
          touch-none d k (bump t.search_time now) (bump-key t.search_time now)
              (t.hbins (hash_ip k d)) h,
          works.free_lock,
          free.result,
          free.entries,
          free.bins,
        )
        refl,
  )
