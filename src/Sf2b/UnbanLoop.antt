-- ===== src/Sf2b/UnbanLoop.antt =====
-- The loop of `unban_thread_routine` over a list of entries.
use fips_ipc.Prelude.{
  ℕ, zero, suc, ◌<◌, ◌≡◌, refl, ap, ◌∙◌, ◌⊎◌, inl, inr, false, Option, none, some, [], ◌∷◌, length,
  arith,
}
use fips_ipc.HashTable.{Domain, af_inet, af_inet6, other_domain, ℤ, pos, negsuc, Env}
use fips_ipc.HashTable.Ops.{set_count}
use fips_ipc.HashTable.Lookup.{lookup, Works}
use fips_ipc.HashTable.Clearing.{IsCleared, set_count-IsCleared, set_count-clears}
use fips_ipc.LinkedList.{Ban, Node, Llist, update}
use fips_ipc.LinkedList.Chain.{Cells, node, Chain, Chain-update}
use fips_ipc.LinkedList.Loops.{ne_eq, load-some, remove-first, freed, freed-update}
use fips_ipc.Sf2b.{Bpf}
use fips_ipc.Sf2b.Unban.{Bans, count_unban, unban_key, unban_loop}

-- What libbpf says of `bpf_map_delete_elem`.
pub record Deletes (bpf : Bpf) : Type 0 where
  pub own : (m : bpf.Map) (k : ℕ) → bpf.is_in ((bpf.delete_elem m k).1) k ≡ false
  pub others :
      (m : bpf.Map) (k k' : ℕ)
      → bpf.is_in m k' ≡ false
      → bpf.is_in ((bpf.delete_elem m k).1) k' ≡ false

abbrev pub In : ℕ × Ban → Cells → Type 0
In c [] = ⊥
In c (x ∷ cs) = (◌≡◌ {A = ℕ × Ban} x c) ⊎ In c cs

module _ (bpf : Bpf) (env : Env) (now : ℕ) where
  -- The effect of the entries in turn.
  unfoldable pub unban_cells : Cells → Bans bpf → Bans bpf
  unban_cells [] bans = bans
  unban_cells ((q, ban) ∷ cs) bans = unban_cells cs (unban_key bpf env now ban.domain ban.key bans)

  pub unban_loop-Chain :
      (cs : Cells) (rounds p : ℕ) (bans : Bans bpf) (l : Llist)
      → length cs < rounds
      → Chain l.heap p cs
      → (heap : ℕ → Option Node) × (unban_loop bpf env now rounds p bans l
          ≡ some (unban_cells cs bans, record l { heap = heap }))
        × ((a : ℕ) → heap a ≡ freed cs l.heap a)
  unfolding unban_loop Chain unban_cells
  unban_loop-Chain cs zero p bans l enough chain = absurd (omega arith)
  unban_loop-Chain [] (suc rounds) p bans l enough chain = (l.heap, rw chain refl, λ a. refl)
  unban_loop-Chain ((q, ban) ∷ cs) (suc rounds) p bans l enough
        (next, here, real, cell, fresh, rest) =
      let after = record l { heap = update l.heap q none } in
      let (heap, run, same) =
        unban_loop-Chain cs rounds next (unban_key bpf env now ban.domain ban.key bans) after
          (omega arith) (Chain-update l.heap next q none cs fresh rest) in
      (
        heap,
        rw
            (
              here,
              ne_eq q 0 real,
              load-some l q (node ban next) real cell,
              remove-first l q (node ban next) real cell,
            )
            run,
        λ a. same a ∙ freed-update q ban cs l.heap a,
      )

  -- An IPv4 address that is neither in the map of the kernel nor counted.
  abbrev pub IsFree : ℕ → Bans bpf → Type 0
  IsFree key bans =
      (bpf.is_in bans.ipv4_map key ≡ false) × IsCleared now (lookup bans.htable af_inet key)

  count_unban-IsFree :
      (key : ℕ) (r : ℤ) (bans : Bans bpf) → IsFree key bans → IsFree key (count_unban bpf r bans)
  unfolding count_unban
  count_unban-IsFree key (pos zero) bans h = h
  count_unban-IsFree key (pos (suc r)) bans h = h
  count_unban-IsFree key (negsuc e) bans h = h

  module _ (deletes : Deletes bpf) (key : ℕ) where
    unban_key-own :
        Works env → (bans : Bans bpf) → IsFree key (unban_key bpf env now af_inet key bans)
    unfolding unban_key
    unban_key-own works bans =
        let (retval, map) = bpf.delete_elem bans.ipv4_map key in
        let table = (set_count env (some key) af_inet 0 now bans.htable).1 in
        count_unban-IsFree key retval (record bans { ipv4_map = map; htable = table })
          (
            deletes.own bans.ipv4_map key,
            set_count-clears env works af_inet refl key now bans.htable,
          )

    unban_key-IsFree :
        (d : Domain) (k : ℕ) (bans : Bans bpf)
        → IsFree key bans
        → IsFree key (unban_key bpf env now d k bans)
    unfolding unban_key
    unban_key-IsFree af_inet k bans (out, clear) =
        let (retval, map) = bpf.delete_elem bans.ipv4_map k in
        let table = (set_count env (some k) af_inet 0 now bans.htable).1 in
        count_unban-IsFree key retval (record bans { ipv4_map = map; htable = table })
          (
            deletes.others bans.ipv4_map k key out,
            set_count-IsCleared now af_inet af_inet k key env bans.htable clear,
          )
    unban_key-IsFree af_inet6 k bans (out, clear) =
        let (retval, map) = bpf.delete_elem bans.ipv6_map k in
        let table = (set_count env (some k) af_inet6 0 now bans.htable).1 in
        count_unban-IsFree key retval (record bans { ipv6_map = map; htable = table })
          (out, set_count-IsCleared now af_inet6 af_inet k key env bans.htable clear)
    unban_key-IsFree (other_domain d) k bans h = h

    unban_cells-IsFree :
        (cs : Cells) (bans : Bans bpf) → IsFree key bans → IsFree key (unban_cells cs bans)
    unfolding unban_cells
    unban_cells-IsFree [] bans h = h
    unban_cells-IsFree ((q, ban) ∷ cs) bans h =
        unban_cells-IsFree cs (unban_key bpf env now ban.domain ban.key bans)
          (unban_key-IsFree ban.domain ban.key bans h)

    pub unban_cells-In :
        Works env
        → (q ts : ℕ) (cs : Cells) (bans : Bans bpf)
        → In (q, record { key = key; domain = af_inet; timestamp = ts }) cs
        → IsFree key (unban_cells cs bans)
    unfolding unban_cells
    unban_cells-In works q ts [] bans found = absurd found
    unban_cells-In works q ts ((r, ban) ∷ cs) bans (inl here) =
        let d : ban.domain ≡ af_inet = ap (λ (c : ℕ × Ban). c.1.domain) here in
        let k : ban.key ≡ key = ap (λ (c : ℕ × Ban). c.1.key) here in
        unban_cells-IsFree cs (unban_key bpf env now ban.domain ban.key bans)
          (rw (d, k) (unban_key-own works bans))
    unban_cells-In works q ts ((r, ban) ∷ cs) bans (inr later) =
        unban_cells-In works q ts cs (unban_key bpf env now ban.domain ban.key bans) later
