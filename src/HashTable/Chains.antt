-- ===== src/HashTable/Chains.antt =====
-- The loops over the entries of a bin.
use fips_ipc.Prelude.{
  inl, inr, ℕ, suc, ◌≡◌, refl, ap, Bool, true, false, Bool-cases, Option, none, some, List, [], ◌∷◌,
  arith, if◌then◌else◌, length, ◌%◌, ◌^◌, ◌==◌,
}
use fips_ipc.HashTable.{Domain, af_inet, af_inet6, other_domain, Entry, key_matches}

-- The first entry that matches.
unfoldable pub find : Domain → ℕ → List Entry → Option Entry
find d key [] = none
find d key (e ∷ es) = if key_matches d key e then some e else find d key es

unfoldable pub behind : {A : Type 0} → Entry → Option (A × List Entry) → Option (A × List Entry)
behind e none = none
behind e (some (a, es)) = some (a, e ∷ es)

-- The loop of `ip_hashtable_insert` and `ip_hashtable_set`: `change` is done to the first entry
-- that matches, which is returned as it was.
unfoldable pub touch : (Entry → Entry) → Domain → ℕ → List Entry → Option (Entry × List Entry)
unfolding behind
touch change d key [] = none
touch change d key (e ∷ es) =
    let rest = touch change d key es in
    if key_matches d key e then some (e, change e ∷ es) else behind e rest

-- The loop of `ip_hashtable_remove`: the first entry that matches is taken out of the chain.
unfoldable pub unlink : Domain → ℕ → List Entry → Option (Entry × List Entry)
unfolding behind
unlink d key [] = none
unlink d key (e ∷ es) =
    let rest = unlink d key es in if key_matches d key e then some (e, es) else behind e rest

-- Whether two addresses of a family are the same.
unfoldable pub same_address : Domain → ℕ → ℕ → Bool
same_address af_inet k k' = k % 2 ^ 32 == k' % 2 ^ 32
same_address af_inet6 k k' = k == k'
same_address (other_domain d) k k' = false

-- An entry that matches an address matches no other one of its family.
pub key_matches-differs :
    (d : Domain) (k k' : ℕ) (e : Entry)
    → key_matches d k e ≡ true
    → same_address d k k' ≡ false
    → key_matches d k' e ≡ false
unfolding key_matches same_address
key_matches-differs af_inet k k' e h n = ground arith
key_matches-differs af_inet6 k k' e h n = ground arith
key_matches-differs (other_domain x) k k' e h n = refl

pub key_matches-key :
    (d : Domain) (k : ℕ) (e e' : Entry) → e.key ≡ e'.key → key_matches d k e ≡ key_matches d k e'
unfolding key_matches
key_matches-key af_inet k e e' h = rw h refl
key_matches-key af_inet6 k e e' h = rw h refl
key_matches-key (other_domain x) k e e' h = refl

module _ (d : Domain) (k : ℕ) where
  module _ (change : Entry → Entry) (keeps : (e : Entry) → (change e).key ≡ e.key) where
    pub touch-none : (es : List Entry) → find d k es ≡ none → touch change d k es ≡ none
    unfolding find touch
    touch-none [] h = refl
    touch-none (e ∷ es) h = elim (Bool-cases (key_matches d k e)) [
      | inl hit ↦ absurd (ground (arith, hit, h))
      | inr miss ↦
          let below : find d k es ≡ none = ground (arith, miss, h) in
          rw (miss, touch-none es below) refl
    ]

    -- What `touch` does to the chain, in the terms of `find`.
    pub record Touched (old : Entry) (es : List Entry) : Type 0 where
      pub chain : List Entry
      pub result : touch change d k es ≡ some (old, chain)
      pub own : find d k chain ≡ some (change old)
      pub others : (k' : ℕ) → same_address d k k' ≡ false → find d k' chain ≡ find d k' es
      pub size : length chain ≡ length es

    pub find-Touched : (es : List Entry) (old : Entry) → find d k es ≡ some old → Touched old es
    unfolding find touch
    find-Touched [] old h = absurd (ground arith)
    find-Touched (e ∷ es) old h = elim (Bool-cases (key_matches d k e)) [
      | inl hit ↦
          let same : e ≡ old = ground (arith, hit, h) in
          let kept = key_matches-key d k (change e) e (keeps e) in
          record {
            chain = change e ∷ es;
            result = rw (hit, same) refl;
            own = rw (kept, hit, same) refl;
            others = λ k' n.
                rw (key_matches-key d k' (change e) e (keeps e), key_matches-differs d k k' e hit n)
                  refl;
            size = refl;
          }
      | inr miss ↦
          let below : find d k es ≡ some old = ground (arith, miss, h) in
          let r = find-Touched es old below in
          record {
            chain = e ∷ r.chain;
            result = rw (miss, r.result) refl;
            own = rw miss r.own;
            others = λ k' n. ap (λ o. if key_matches d k' e then some e else o) (r.others k' n);
            size = ap suc r.size;
          }
    ]

  pub unlink-none : (es : List Entry) → find d k es ≡ none → unlink d k es ≡ none
  unfolding find unlink
  unlink-none [] h = refl
  unlink-none (e ∷ es) h = elim (Bool-cases (key_matches d k e)) [
    | inl hit ↦ absurd (ground (arith, hit, h))
    | inr miss ↦
        let below : find d k es ≡ none = ground (arith, miss, h) in
        rw (miss, unlink-none es below) refl
  ]

  pub record Unlinked (old : Entry) (es : List Entry) : Type 0 where
    pub chain : List Entry
    pub result : unlink d k es ≡ some (old, chain)
    pub others : (k' : ℕ) → same_address d k k' ≡ false → find d k' chain ≡ find d k' es
    pub size : suc (length chain) ≡ length es

  pub find-Unlinked : (es : List Entry) (old : Entry) → find d k es ≡ some old → Unlinked old es
  unfolding find unlink
  find-Unlinked [] old h = absurd (ground arith)
  find-Unlinked (e ∷ es) old h = elim (Bool-cases (key_matches d k e)) [
    | inl hit ↦
        let same : e ≡ old = ground (arith, hit, h) in
        record {
          chain = es;
          result = rw (hit, same) refl;
          others = λ k' n. rw (key_matches-differs d k k' e hit n) refl;
          size = refl;
        }
    | inr miss ↦
        let below : find d k es ≡ some old = ground (arith, miss, h) in
        let r = find-Unlinked es old below in
        record {
          chain = e ∷ r.chain;
          result = rw (miss, r.result) refl;
          others = λ k' n. ap (λ o. if key_matches d k' e then some e else o) (r.others k' n);
          size = ap suc r.size;
        }
  ]
