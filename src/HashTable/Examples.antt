-- ===== src/HashTable/Examples.antt =====
-- A table with one address, and the theorems about the hash table at work on it.
use fips_ipc.Prelude.{
  ℕ, suc, ◌+◌, ◌^◌, ◌≡◌, ◌⊎◌, inl, inr, refl, arith, true, false, Bool-cases, some, none, [], ◌∷◌,
  ◌==◌, if◌then◌else◌, length, ==_iff,
}
use fips_ipc.HashTable.{
  af_inet, af_inet6, Entry, Table, ℤ, pos, noexist, hash_ip, key_matches, to_int, Env,
}
use fips_ipc.HashTable.Chains.{find, same_address}
use fips_ipc.HashTable.Ops.{insert, remove}
use fips_ipc.HashTable.Lookup.{lookup, Works, counter}
use fips_ipc.HashTable.Counters.{insert-lookup, remove-lookup}
use fips_ipc.HashTable.Setup.{Grants}
use fips_ipc.HashTable.Invariant.{IsValid, inserts, removes, sets, run, run-IsValid}
use fips_ipc.HashTable.Defined.{insert-defined}

abbrev env : Env
env = record {
  bin_lock_fails = false;
  free_lock_fails = false;
  mmap_fails = false;
  page_entries = 2;
}

abbrev stuck : Env
stuck = record env { free_lock_fails = true }

env-Works : Works env
env-Works = record { bin_lock = refl; free_lock = refl; mmap = refl; some_entries = omega arith }

abbrev entry : Entry
entry = record { key = 65541; domain = af_inet; last_access = 10; count = 3 }

abbrev table : Table
table = record {
  hbins = λ i. if i == 1 then entry ∷ [] else [];
  free_list = [];
  free_list_size = 0;
  search_time = 60;
}

table-IsValid : IsValid table
unfolding hash_ip lookup find key_matches
table-IsValid = record {
  free_count = refl;
  homes = λ i. elim (Bool-cases (i == 1)) [
    | inl e ↦ let same : i ≡ 1 = (==_iff i 1).0 e in rw same (refl, tt)
    | inr e ↦ rw e tt
  ];
}

-- The address is there, and its entry has not expired.
insert-lookup_example :
    let (ret, t') = insert env (some 65541) af_inet 20 table in
    (ret ≡ some (pos 4))
    × (counter (lookup t' af_inet 65541) ≡ some (4, 10))
    × ((k' : ℕ)
        → same_address af_inet 65541 k' ≡ false
        → lookup t' af_inet k' ≡ lookup table af_inet k')
unfolding lookup find hash_ip key_matches to_int
insert-lookup_example = insert-lookup env env-Works af_inet refl 65541 20 table refl

remove-lookup_example :
    ((lookup table af_inet 65541 ≡ none)
      × (remove env (some 65541) af_inet table ≡ (noexist, table)))
    ⊎ ((old : Entry) × (lookup table af_inet 65541 ≡ some old)
        × ((remove env (some 65541) af_inet table).0 ≡ to_int old.count)
        × ((remove env (some 65541) af_inet table).1.free_list ≡ old ∷ [])
        × (suc (length ((remove env (some 65541) af_inet table).1.hbins (hash_ip 65541 af_inet)))
            ≡ length (table.hbins (hash_ip 65541 af_inet)))
        × ((k' : ℕ)
            → same_address af_inet 65541 k' ≡ false
            → lookup (remove env (some 65541) af_inet table).1 af_inet k'
              ≡ lookup table af_inet k'))
remove-lookup_example = remove-lookup env env-Works af_inet refl 65541 table

-- An IPv6 address of bin 1 whose first 4 bytes are an IPv4 address of bin 1.
abbrev mixed : Table
mixed = record {
  hbins = λ i.
      if i == 1
      then record { key = 2 ^ 40 + 65537; domain = af_inet6; last_access = 10; count = 3 } ∷ []
      else [];
  free_list = [];
  free_list_size = 0;
  search_time = 60;
}

run-IsValid_example : IsValid (
    run table (
      inserts env (some 7) af_inet6 20
      ∷ removes stuck (some 65541) af_inet
      ∷ sets env (some 7) af_inet6 1 30
      ∷ []))
run-IsValid_example =
    run-IsValid table
      (inserts env (some 7) af_inet6 20
        ∷ removes stuck (some 65541) af_inet
        ∷ sets env (some 7) af_inet6 1 30
        ∷ [])
      table-IsValid

insert-defined_example : (r : ℤ) × ((insert env (some 7) af_inet6 20 table).0 ≡ some r)
insert-defined_example = insert-defined env (omega arith) af_inet6 7 20 table table-IsValid

abbrev grants : Grants
grants = record {
  table_fails = false;
  stale_bins = λ i. [];
  free_lock_fails = false;
  bin_lock_fails = λ i. false;
  entry_at = λ i. some entry;
}
