-- ===== src/Sf2b/UnbanLaws.antt =====
-- A round of `unban_thread_routine`, on a list with the newest entries first.
use fips_ipc.Prelude.{
  ℕ, ◌+◌, ◌<◌, ◌≤◌, ◌≡◌, refl, ap, ◌∙◌, inl, inr, true, false, Bool-cases, none, some, [], ◌∷◌, All,
  if◌then◌else◌, length, arith,
}
use fips_ipc.HashTable.{af_inet, Env}
use fips_ipc.HashTable.Lookup.{lookup, Works}
use fips_ipc.HashTable.Clearing.{IsCleared}
use fips_ipc.LinkedList.{Ban, Llist}
use fips_ipc.LinkedList.Chain.{Cells, has, Chain, Chain-frame}
use fips_ipc.Sf2b.{Bpf}
use fips_ipc.Sf2b.Unban.{Bans, expired, unban_found, unban_round}
use fips_ipc.Sf2b.UnbanList.{kept, gone, get_unban_list-Chain, kept-gone_apart}
use fips_ipc.Sf2b.UnbanLoop.{Deletes, In, IsFree, unban_cells, unban_loop-Chain, unban_cells-In}

-- The newest entries are in front.
unfoldable pub IsSorted : Cells → Type 0
IsSorted [] = Unit
IsSorted ((q, ban) ∷ cs) = All (λ c. c.1.timestamp ≤ ban.timestamp) cs × IsSorted cs

module _ (bantime now : ℕ) where
  -- The entries whose time has not elapsed, and the others.
  abbrev pub young : Cells → Cells
  young [] = []
  young ((q, ban) ∷ cs) =
      let rest = young cs in if expired bantime now ban then rest else (q, ban) ∷ rest

  abbrev pub old : Cells → Cells
  old [] = []
  old ((q, ban) ∷ cs) =
      let rest = old cs in if expired bantime now ban then (q, ban) ∷ rest else rest

  split-old :
      (b : ℕ) (cs : Cells)
      → b + bantime < now
      → All (λ c. c.1.timestamp ≤ b) cs
      → (young cs ≡ []) × (old cs ≡ cs)
  split-old b [] late below = (refl, refl)
  split-old b ((q, ban) ∷ cs) late (here, below) =
      let (one, two) = split-old b cs late below in
      let e : expired bantime now ban ≡ true = ground arith in rw (e, one, two) (refl, refl)

  pub split-IsSorted :
      (cs : Cells) → IsSorted cs → (kept bantime now cs ≡ young cs) × (gone bantime now cs ≡ old cs)
  unfolding IsSorted
  split-IsSorted [] sorted = (refl, refl)
  split-IsSorted ((q, ban) ∷ cs) (below, sorted) = elim (Bool-cases (expired bantime now ban)) [
    | inl late ↦
        let (one, two) = split-old ban.timestamp cs (ground arith) below in
        rw (late, one, two) (refl, refl)
    | inr early ↦ let (one, two) = split-IsSorted cs sorted in rw (early, one, two) (refl, refl)
  ]

  In-old : (c : ℕ × Ban) (cs : Cells) → In c cs → c.1.timestamp + bantime < now → In c (old cs)
  In-old c [] found late = found
  In-old c ((q, ban) ∷ cs) (inl here) late =
      let t : ban.timestamp ≡ c.1.timestamp = ap (λ (d : ℕ × Ban). d.1.timestamp) here in
      let e : expired bantime now ban ≡ true = ground arith in rw e (inl here)
  In-old c ((q, ban) ∷ cs) (inr later) late =
      let deeper = In-old c cs later late in
      elim (Bool-cases (expired bantime now ban)) [
        | inl e ↦ rw e (inr deeper)
        | inr e ↦ rw e deeper
      ]

  length-gone : (cs : Cells) → length (gone bantime now cs) ≤ length cs
  length-gone [] = omega arith
  length-gone ((q, ban) ∷ cs) = elim (Bool-cases (expired bantime now ban)) [
    | inl e ↦ rw e (omega arith)
    | inr e ↦ rw e (omega (arith, length-gone cs))
  ]

  module _ (bpf : Bpf) (env : Env) where
    -- On a list with the newest entries first, with locks that work, a round of the unbanning
    -- thread leaves a list of exactly the entries whose time has not elapsed, frees the nodes of
    -- all others, and has the effect on the table, the maps and the count of unbanning each of
    -- these in turn; its loops end within one round more than there are entries.
    pub unban_round-Chain :
        (rounds : ℕ) (bans : Bans bpf) (l : Llist) (cs : Cells)
        → Chain l.heap l.head cs
        → IsSorted cs
        → length cs < rounds
        → (after : Llist) × (unban_round bpf env false false bantime now rounds bans l
            ≡ some (some (unban_cells bpf env now (old cs) bans), after))
          × Chain after.heap after.head (young cs)
          × ((a : ℕ) → has a (old cs) ≡ true → after.heap a ≡ none)
    unfolding unban_round unban_found
    unban_round-Chain rounds bans l cs chain sorted enough =
        let (middle, cut, list_run, kept_chain, gone_chain, same) =
          get_unban_list-Chain bantime now cs rounds l enough chain in
        let (heap, loop_run, cleared) =
          unban_loop-Chain bpf env now (gone bantime now cs) rounds cut bans middle
            (omega (arith, length-gone cs)) gone_chain in
        let (one, two) = split-IsSorted cs sorted in
        let still : Chain heap middle.head (kept bantime now cs) =
          Chain-frame middle.heap heap middle.head (kept bantime now cs)
            (λ a in_kept.
              let apart = kept-gone_apart bantime now l.heap l.head a cs chain in_kept in
              cleared a ∙ (rw apart refl))
            kept_chain in
        (
          record middle { heap = heap },
          rw (list_run, loop_run, two) refl,
          (rw one at still),
          λ a in_old.
              let in_gone : has a (gone bantime now cs) ≡ true = rw two in_old in
              cleared a ∙ (rw in_gone refl),
        )

    -- When deleting a key takes it out of a map of the kernel and adds no other, and the locks of
    -- the table work, an IPv4 address on the list whose time of banning has elapsed is, after one
    -- round of the unbanning thread, not in the map of the kernel, and without a count in the table
    -- or with a count of 0 at the time of the round, whatever other entries are on the list.
    pub unban_round-expired :
        (works : Works env) (deletes : Deletes bpf) (rounds : ℕ) (bans : Bans bpf) (l : Llist)
        (cs : Cells) (q key ts : ℕ)
        → Chain l.heap l.head cs
        → IsSorted cs
        → length cs < rounds
        → In (q, record { key = key; domain = af_inet; timestamp = ts }) cs
        → ts + bantime < now
        → (final : Bans bpf) × (after : Llist) × (unban_round bpf env false false bantime now rounds
              bans l
            ≡ some (some final, after))
          × (bpf.is_in final.ipv4_map key ≡ false)
          × IsCleared now (lookup final.htable af_inet key)
    unban_round-expired works deletes rounds bans l cs q key ts chain sorted enough found late =
        let (after, run, still, cleared) = unban_round-Chain rounds bans l cs chain sorted enough in
        let final = unban_cells bpf env now (old cs) bans in
        let free : IsFree bpf env now key final =
          unban_cells-In bpf env now deletes key works q ts (old cs) bans
            (In-old _ cs found late) in
        (final, after, run, free.0, free.1)
