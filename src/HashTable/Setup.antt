-- ===== src/HashTable/Setup.antt =====
-- `ip_hashtable_init` and `ip_hashtable_destroy`.
use fips_ipc.Prelude.{
  ℕ, zero, suc, ◌+◌, Bool, true, false, Option, none, some, List, [], ◌∷◌, ◌++◌, length,
  if◌then◌else◌, ◌≤◌, ◌<◌, ◌==◌, ==_iff, ◌≡◌, refl, ◌∙◌, arith, inl, inr, Bool-cases,
}
use fips_ipc.HashTable.{
  Entry, Table, ℤ, pos, negsuc, success, nullptr_err, mem_err, mutex_err, nbins,
}

-- What the operating system answers: to `malloc` of the table and the initialization of the lock of
-- the free list, and for each bin, to that of its lock and to `malloc` of an entry, whose contents
-- are what the memory holds.
pub record Grants : Type 0 where
  pub table_fails : Bool
  pub stale_bins : ℕ → List Entry
  pub free_lock_fails : Bool
  pub bin_lock_fails : ℕ → Bool
  pub entry_at : ℕ → Option Entry

-- The loop over the bins, from `i` on with the rounds left.
unfoldable pub init_bins : Grants → ℕ → ℕ → Table → ℤ × Table
init_bins g zero i t = (success, t)
init_bins g (suc rounds) i t =
    let locked = record t { hbins = λ j. if i == j then [] else t.hbins j } in
    if g.bin_lock_fails i then (mutex_err, locked) else elim (g.entry_at i) [
      | none ↦ (mem_err, locked)
      | some e ↦
          init_bins g rounds (i + 1)
            (record locked { free_list = e ∷ t.free_list; free_list_size = t.free_list_size + 1 })
    ]

init_table : Grants → ℕ → Option Table → ℤ × Table → ℤ × Option Table
init_table g search_time old (negsuc e, t) = (negsuc e, old)
init_table g search_time old (pos n, t) = (success, some t)

-- From the allocation of the table on, for `bins` bins.
init_sized : ℕ → Grants → ℕ → Option Table → ℤ × Option (Option Table)
unfolding init_bins init_table
init_sized bins g search_time old =
    let made : Table = record {
      hbins = g.stale_bins;
      free_list = [];
      free_list_size = 0;
      search_time = search_time;
    } in
    let (ret, table) = init_table g search_time old (init_bins g bins 0 made) in
    if g.table_fails
    then (mem_err, some old)
    else if g.free_lock_fails
    then (mutex_err, some old)
    else (ret, some table)

-- `none` is a null pointer for `htable`; otherwise what `*htable` holds, before and after.
unfoldable pub init : Grants → ℕ → Option (Option Table) → ℤ × Option (Option Table)
unfolding init_sized
init g search_time none = (nullptr_err, none)
init g search_time (some old) = init_sized nbins g search_time old

-- The loop of `ip_hashtable_destroy`: the entries that it frees.
unfoldable pub free_bins : ℕ → ℕ → Table → List Entry
free_bins zero i t = []
free_bins (suc rounds) i t = t.hbins i ++ free_bins rounds (i + 1) t

-- The result, what is freed, and what `*htable` holds.
unfoldable pub destroy : Option (Option Table) → ℤ × List Entry × Option (Option Table)
unfolding free_bins
destroy none = (nullptr_err, [], none)
destroy (some none) = (nullptr_err, [], some none)
destroy (some (some t)) = (success, free_bins nbins 0 t ++ t.free_list, some none)

-- An operating system that grants all that `ip_hashtable_init` asks for.
pub record GrantsAll (g : Grants) : Type 0 where
  pub table_ok : g.table_fails ≡ false
  pub free_lock_ok : g.free_lock_fails ≡ false
  pub bin_lock_ok : (i : ℕ) → g.bin_lock_fails i ≡ false
  pub entry : ℕ → Entry
  pub entry_ok : (i : ℕ) → g.entry_at i ≡ some (entry i)

-- What the loop leaves: the bins of its rounds are empty, those before as they were, and one entry
-- for each round is on the free list.
pub record Filled (rounds i : ℕ) (t t' : Table) : Type 0 where
  pub cleared : (j : ℕ) → i ≤ j → j < i + rounds → t'.hbins j ≡ []
  pub kept : (j : ℕ) → j < i → t'.hbins j ≡ t.hbins j
  pub entries : length t'.free_list ≡ length t.free_list + rounds
  pub size : t'.free_list_size ≡ t.free_list_size + rounds
  pub time : t'.search_time ≡ t.search_time

==_refl : (n : ℕ) → (n == n) ≡ true
==_refl n = (==_iff n n).1 refl

module _ (g : Grants) (all : GrantsAll g) where
  init_bins-Filled :
      (rounds i : ℕ) (t : Table)
      → (t' : Table) × (init_bins g rounds i t ≡ (success, t')) × Filled rounds i t t'
  unfolding init_bins
  init_bins-Filled zero i t = (
    t,
    refl,
    record {
      cleared = λ j a b. absurd (omega arith);
      kept = λ j a. refl;
      entries = omega arith;
      size = omega arith;
      time = refl;
    },
  )
  init_bins-Filled (suc rounds) i t =
      let next : Table = record t {
        hbins = λ j. if i == j then [] else t.hbins j;
        free_list = all.entry i ∷ t.free_list;
        free_list_size = t.free_list_size + 1;
      } in
      let (t', e, f) = init_bins-Filled rounds (i + 1) next in
      (
        t',
        rw (all.bin_lock_ok i, all.entry_ok i) e,
        record {
          cleared = λ j a b. elim (Bool-cases (i == j)) [
            | inl same ↦
                let at : i ≡ j = (==_iff i j).0 same in f.kept j (omega (arith, at)) ∙ rw same refl
            | inr other ↦ f.cleared j (ground (arith, other)) (omega arith)
          ];
          kept = λ j a.
              let other : (i == j) ≡ false = ground arith in f.kept j (omega arith) ∙ rw other refl;
          entries = omega (arith, f.entries);
          size = omega (arith, f.size);
          time = f.time;
        },
      )

  init_sized-Filled :
      (bins search_time : ℕ) (old : Option Table)
      → (t : Table) × (init_sized bins g search_time old ≡ (success, some (some t)))
        × ((i : ℕ) → i < bins → t.hbins i ≡ [])
        × (length t.free_list ≡ bins)
        × (t.free_list_size ≡ bins)
        × (t.search_time ≡ search_time)
  unfolding init_sized init_table
  init_sized-Filled bins search_time old =
      let made : Table = record {
        hbins = g.stale_bins;
        free_list = [];
        free_list_size = 0;
        search_time = search_time;
      } in
      let (t, e, f) = init_bins-Filled bins 0 made in
      (
        t,
        rw (all.table_ok, all.free_lock_ok, e) refl,
        λ i h. f.cleared i (omega arith) (omega arith),
        omega (arith, f.entries),
        omega (arith, f.size),
        f.time,
      )

  -- When everything it asks for is granted, `ip_hashtable_init` succeeds with a table whose 65536
  -- bins are empty, whose free list has 65536 entries, as its counter says, and whose search time
  -- is the one given, whatever the allocated memory held before.
  pub init-Filled :
      (search_time : ℕ) (old : Option Table)
      → (t : Table) × (init g search_time (some old) ≡ (success, some (some t)))
        × ((i : ℕ) → i < nbins → t.hbins i ≡ [])
        × (length t.free_list ≡ nbins)
        × (t.free_list_size ≡ nbins)
        × (t.search_time ≡ search_time)
  unfolding init
  init-Filled search_time old = init_sized-Filled nbins search_time old

  free_bins-empty :
      (rounds i : ℕ) (t : Table)
      → ((j : ℕ) → j < i + rounds → t.hbins j ≡ [])
      → free_bins rounds i t ≡ []
  unfolding free_bins
  free_bins-empty zero i t h = refl
  free_bins-empty (suc rounds) i t h =
      rw (h i (omega arith)) (free_bins-empty rounds (i + 1) t (λ j l. h j (omega arith)))

  -- When everything is granted, `ip_hashtable_destroy` after `ip_hashtable_init` succeeds, frees
  -- exactly 65536 entries and leaves a null pointer.
  pub destroy-init :
      (search_time : ℕ) (old : Option Table)
      → let (ret, freed, left) = destroy (init g search_time (some old)).1 in
        (ret ≡ success) × (length freed ≡ nbins) × (left ≡ some none)
  unfolding destroy
  destroy-init search_time old =
      let (t, e, bins, entries, size, time) = init-Filled search_time old in
      let none_stored = free_bins-empty nbins 0 t (λ j l. bins j (omega arith)) in
      rw (e, none_stored) (refl, entries, refl)
