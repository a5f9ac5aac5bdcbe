-- ===== src/FipsBuf/Cache.antt =====
-- src/lib/fips_buf.c: `update_cached_reader_values` and `remove_cached_entries`, on the segments that
-- a reader thread keeps.
use fips_ipc.Prelude.{
  ℕ, zero, suc, ◌+◌, ◌-◌, ◌%◌, Bool, true, false, ◌≡◌, refl, Option, none, some, List, [], ◌∷◌,
  ◌++◌, ◌==◌, leb, length, if◌then◌else◌, map, take, drop, replicate, get_or,
}
use fips_ipc.FipsBuf.Assign.{Assignment}
use fips_ipc.FipsBuf.Attach.{Threads, Behind}

-- What these functions use of `fips_buf_thread_arg_t`. A slot of `current_segment` is the index of its
-- segment, or `none` for NULL; `assigned_index` has the reader of that segment in the same slot.
pub record Cache : Type 0 where
  pub current_segment : List (Option ℕ)
  pub assigned_reader_count : ℕ
  pub trailing_buffers_count : ℕ
  pub assignment_generation : ℕ

pub data CacheCode : Type 0 where
  updated unassigned corrupted : CacheCode

-- The slots in use whose writer is trailing; `none`: a slot is NULL.
unfoldable pub trailing_segments : List ℕ → List (Option ℕ) → Option (List ℕ)
trailing_segments ws [] = some []
trailing_segments ws (none ∷ slots) = none
trailing_segments ws (some k ∷ slots) = elim (trailing_segments ws slots) [
  | none ↦ none
  | some rest ↦ some (if get_or ws k 0 == 2 then k ∷ rest else rest)
]

-- The loop over the assignment, from segment `k` on with the segments still to be found, and whether
-- it found them all. Behind the array it reads one byte more, and `none` is that this byte is 1.
unfoldable pub active_segments : Behind → ℕ → ℕ → List ℕ → Option (List ℕ × Bool)
active_segments behind k zero ws = some ([], true)
active_segments behind k (suc left) [] = if behind.writer == 1 then none else some ([], false)
active_segments behind k (suc left) (w ∷ ws) =
    let passed = active_segments behind (k + 1) (suc left) ws in
    let found : Option (List ℕ × Bool) = elim (active_segments behind (k + 1) left ws) [
      | none ↦ none
      | some (segments, all) ↦ some (k ∷ segments, all)
    ] in
    if w == 1 then found else passed

-- The slots after `memset`, filled from the first one on.
abbrev pub slots : ℕ → List ℕ → List (Option ℕ)
slots segment_count segments = map some segments ++ replicate (segment_count - length segments) none

abbrev pub refreshed : Threads → ℕ → List ℕ → List ℕ × Bool → Cache → CacheCode × Cache
refreshed t count trailing (segments, true) cache = (
  updated,
  record {
    current_segment = slots t.header.segment_count (segments ++ trailing);
    assigned_reader_count = count;
    trailing_buffers_count = length trailing;
    assignment_generation = t.generation;
  },
)
refreshed t count trailing (segments, false) cache = (
  corrupted,
  record cache {
    current_segment = slots t.header.segment_count segments;
    assigned_reader_count = count;
  },
)

-- `none` is undefined behaviour. The mutex is granted, and `assert_segment_headers` holds of pointers to
-- segments.
unfoldable pub update_cached_reader_values :
    Behind → Option Assignment → Threads → Cache → Option (CacheCode × Cache)
unfolding trailing_segments active_segments
update_cached_reader_values behind none t cache = some (unassigned, cache)
update_cached_reader_values behind (some a) t cache =
    let ws = take t.header.segment_count t.writers in
    let cached_count = cache.assigned_reader_count + cache.trailing_buffers_count in
    elim (trailing_segments ws (take cached_count cache.current_segment)) [
      | none ↦ none
      | some trailing ↦
          elim (active_segments behind a.start_segment a.count (drop a.start_segment ws)) [
            | none ↦ none
            | some found ↦ some (refreshed t a.count trailing found cache)
          ]
    ]

-- The slots behind `rotation` move down by one; the last one keeps its value. `none`: there is no such
-- slot, and `memmove` gets a length below 0.
unfoldable pub remove_cached_entries : ℕ → Cache → Option Cache
remove_cached_entries rotation cache =
    let n = cache.assigned_reader_count + cache.trailing_buffers_count in
    let s = cache.current_segment in
    let moved =
      take rotation s ++ take (n - rotation - 1) (drop (rotation + 1) s) ++ drop (n - 1) s in
    if leb cache.assigned_reader_count rotation
    then (if leb n rotation
        then none
        else some (record cache {
          current_segment = moved;
          trailing_buffers_count = (cache.trailing_buffers_count + 255) % 256;
        }))
    else some cache

-- An update of a thread that counts a slot which is NULL, as one that found too few segments leaves
-- it, reads the segment behind NULL.
update_cached_reader_values_null :
    (behind : Behind) (a : Assignment) (t : Threads) (cache : Cache) (rest : List (Option ℕ))
    (k : ℕ)
    → cache.current_segment ≡ none ∷ rest
    → cache.assigned_reader_count + cache.trailing_buffers_count ≡ suc k
    → update_cached_reader_values behind (some a) t cache ≡ none
unfolding update_cached_reader_values trailing_segments
update_cached_reader_values_null behind a t cache rest k null counted =
    rw (update_cached_reader_values, null, counted) refl
