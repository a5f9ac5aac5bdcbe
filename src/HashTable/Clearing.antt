-- ===== src/HashTable/Clearing.antt =====
-- Counters that `ip_hashtable_set` puts to 0 stay there under further such calls.
use fips_ipc.Prelude.{
  ℕ, ◌≡◌, refl, ◌⊎◌, inl, inr, true, false, Bool-cases, Option, none, some, List, [], ◌∷◌, ◌==◌,
  ==_iff,
}
use fips_ipc.HashTable.{Domain, Entry, Table, hash_ip, key_matches, put_bin, Env}
use fips_ipc.HashTable.Chains.{find, behind, touch, key_matches-key}
use fips_ipc.HashTable.Ops.{assign, set_locked, set_count, unknown}
use fips_ipc.HashTable.Lookup.{lookup, Works, counter}
use fips_ipc.HashTable.Counters.{set_count-lookup}

-- An address without an entry, or with a counter that was put to 0.
abbrev pub IsCleared : ℕ → Option Entry → Type 0
IsCleared now o = (counter o ≡ none) ⊎ (counter o ≡ some (0, now))

module _ (now : ℕ) (d d' : Domain) (k k' : ℕ) where
  -- What a chain is after the loop.
  IsClearedAfter : Option (Entry × List Entry) → Type 0
  IsClearedAfter none = Unit {0}
  IsClearedAfter (some (old, chain)) = IsCleared now (find d' k' chain)

  behind-IsClearedAfter :
      (e : Entry) (o : Option (Entry × List Entry))
      → key_matches d' k' e ≡ false
      → IsClearedAfter o
      → IsClearedAfter (behind e o)
  unfolding IsClearedAfter behind find
  behind-IsClearedAfter e none miss h = tt
  behind-IsClearedAfter e (some (old, chain)) miss h = rw miss h

  behind-IsCleared :
      (e : Entry) (o : Option (Entry × List Entry))
      → key_matches d' k' e ≡ true
      → IsCleared now (some e)
      → IsClearedAfter (behind e o)
  unfolding IsClearedAfter behind find
  behind-IsCleared e none hit h = tt
  behind-IsCleared e (some (old, chain)) hit h = rw hit h

  assign-IsCleared :
      (e : Entry) (es : List Entry)
      → IsCleared now (find d' k' (e ∷ es))
      → IsCleared now (find d' k' (assign 0 now e ∷ es))
  unfolding find assign
  assign-IsCleared e es h =
      let same = key_matches-key d' k' (assign 0 now e) e refl in
      elim (Bool-cases (key_matches d' k' e)) [
        | inl hit ↦ rw (same, hit) (inr refl)
        | inr miss ↦ rw (same, miss) (rw miss at h)
      ]

  touch-IsClearedAfter :
      (es : List Entry)
      → IsCleared now (find d' k' es)
      → IsClearedAfter (touch (assign 0 now) d k es)
  unfolding touch find IsClearedAfter
  touch-IsClearedAfter [] h = tt
  touch-IsClearedAfter (e ∷ es) h = elim (Bool-cases (key_matches d k e)) [
    | inl hit ↦ rw hit (assign-IsCleared e es h)
    | inr miss ↦ elim (Bool-cases (key_matches d' k' e)) [
      | inl own ↦ rw miss (behind-IsCleared e _ own (rw own at h))
      | inr other ↦
          rw miss (behind-IsClearedAfter e _ other (touch-IsClearedAfter es (rw other at h)))
    ]
  ]

  set_locked-IsCleared :
      (t : Table) (o : Option (Entry × List Entry))
      → IsCleared now (lookup t d' k')
      → (hash_ip k' d' ≡ hash_ip k d → IsClearedAfter o)
      → IsCleared now (lookup (set_locked d k t o).1 d' k')
  unfolding set_locked IsClearedAfter lookup put_bin
  set_locked-IsCleared t none h after = h
  set_locked-IsCleared t (some (old, chain)) h after =
      elim (Bool-cases (hash_ip k' d' == hash_ip k d)) [
        | inl same ↦ rw same (after ((==_iff (hash_ip k' d') (hash_ip k d)).0 same))
        | inr other ↦ rw other h
      ]

  -- A call that puts a counter to 0 leaves any cleared address cleared.
  pub set_count-IsCleared :
      (env : Env) (t : Table)
      → IsCleared now (lookup t d' k')
      → IsCleared now (lookup (set_count env (some k) d 0 now t).1 d' k')
  unfolding set_count lookup
  set_count-IsCleared env t h = elim (Bool-cases (unknown d)) [
    | inl bad ↦ rw bad h
    | inr good ↦ elim (Bool-cases env.bin_lock_fails) [
      | inl locked ↦ rw (good, locked) h
      | inr lock ↦
          rw (good, lock)
            (set_locked-IsCleared t (touch (assign 0 now) d k (t.hbins (hash_ip k d))) h
              (λ same. touch-IsClearedAfter (t.hbins (hash_ip k d)) (rw same at h)))
    ]
  ]

-- The address itself is cleared.
pub set_count-clears :
    (env : Env) (works : Works env) (d : Domain) (known : unknown d ≡ false) (k now : ℕ) (t : Table)
    → IsCleared now (lookup (set_count env (some k) d 0 now t).1 d k)
set_count-clears env works d known k now t = elim (set_count-lookup env works d known k 0 now t) [
  | inl (absent, same) ↦ rw (same, absent) (inl refl)
  | inr (old, found, code, count, others) ↦ inr count
]
