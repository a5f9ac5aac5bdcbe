-- ===== src/Sf2b/BanLimit.antt =====
-- `ban_clients` on messages about one IPv4 address, up to the limit.
use fips_ipc.Prelude.{
  ℕ, suc, ◌+◌, ◌%◌, ◌^◌, ◌<◌, ◌≤◌, ◌≡◌, ◌≢◌, refl, ap, ◌∙◌, true, false, none, some, List, [], ◌∷◌,
  All, map, length, arith,
}
use fips_ipc.HashTable.{af_inet, ℤ, pos, Env}
use fips_ipc.HashTable.Lookup.{lookup, Works, counter}
use fips_ipc.HashTable.Invariant.{IsValid}
use fips_ipc.LinkedList.{Ban, Llist, Grant, ip_llist_push, llist_success}
use fips_ipc.LinkedList.Chain.{Cells, Chain}
use fips_ipc.LinkedList.Laws.{pushed, ip_llist_push-Chain}
use fips_ipc.LinkedList.Loops.{ne_eq}
use fips_ipc.Sf2b.{Bpf}
use fips_ipc.Sf2b.Ban.{
  Limits, Message, is_whitelistv4, Server, set_table, add_elem, after_update, ban_loop, ban_clients,
}
use fips_ipc.Sf2b.BanLaws.{
  IsCounted, IsCounting, hit, table_after, insert-IsCounting, ban_client-below, ban_client-at,
}

-- What the kernel does when it takes an address into a map.
pub record Accepts (bpf : Bpf) (map : bpf.Map) (key : ℕ) : Type 0 where
  pub with_key : bpf.Map
  pub result : ◌≡◌ {A = ℤ × bpf.Map} (bpf.update_elem map key) (pos 0, with_key)
  pub listed : bpf.is_in with_key key ≡ true

-- A push that is granted what it asks for.
pub record IsGranted (grant : Grant) (l : Llist) : Type 0 where
  pub node : grant.node_address ≢ 0
  pub free : l.heap grant.node_address ≡ none
  pub key : grant.key_fails ≡ false
  pub lock : grant.lock_fails ≡ false
  pub unlock : grant.unlock_fails ≡ false

-- Times of messages, with what a push gets and the time of the round.
abbrev pub Hits : Type 0
Hits = List (ℕ × Grant × ℕ)

abbrev pub messages : ℕ → Hits → List (Message × Grant × ℕ)
messages key hits = map (λ h. (hit key h.0, h.1, h.2)) hits

-- A message within the search time and the find time from the first one on.
abbrev pub IsHit : Limits → ℕ → ℕ → Llist → ℕ × Grant × ℕ → Type 0
IsHit conf start search l h =
    (h.0 ≤ start + search) × (h.2 ≤ start + conf.findtime) × IsGranted h.1 l

-- The address is in the map and at the front of the list, and the ban is counted.
abbrev pub IsBanned : (bpf : Bpf) → ℕ → Server bpf → Cells → Server bpf → Llist → Type 0
IsBanned bpf key s cs s' l' =
    (bpf.is_in s'.bans.ipv4_map key ≡ true)
    × (s'.ban_count ≡ (s.ban_count + 1) % 2 ^ 64)
    × ((p ts : ℕ) × Chain l'.heap l'.head
          ((p, record { key = key; domain = af_inet; timestamp = ts }) ∷ cs))

module _ (bpf : Bpf) (conf : Limits) (env : Env) (works : Works env) (key start search : ℕ)
    (address : key < 2 ^ 32) where
  pushed_granted :
      (grant : Grant) (l : Llist) (ban : Ban) (cs : Cells)
      → IsGranted grant l
      → pushed grant ban cs ≡ (grant.node_address, ban) ∷ cs
  unfolding pushed
  pushed_granted grant l ban cs g = rw (ne_eq grant.node_address 0 g.node, g.lock) refl

  granted-push :
      (grant : Grant) (ts : ℕ) (l : Llist) (cs : Cells)
      → IsGranted grant l
      → Chain l.heap l.head cs
      → (l' : Llist) × (ip_llist_push grant (some key) (some ts) af_inet l
          ≡ some (llist_success, l'))
        × Chain l'.heap l'.head
            ((grant.node_address, record { key = key; domain = af_inet; timestamp = ts }) ∷ cs)
  granted-push grant ts l cs g chain =
      let (l', run, front) =
        ip_llist_push-Chain grant key ts af_inet refl g.key l g.free cs chain in
      let real = ne_eq grant.node_address 0 g.node in
      (
        l',
        run ∙ rw (real, g.lock, g.unlock) refl,
        rw (pushed_granted grant l (record { key = key; domain = af_inet; timestamp = ts }) cs g) at
            front,
      )

  module _ (listed : is_whitelistv4 key conf.whitelistv4 24 ≡ false) (bound : conf.limit < 2 ^ 31)
      (map : bpf.Map) (accepts : Accepts bpf map key) (l : Llist) (cs : Cells)
      (chain : Chain l.heap l.head cs) where
    after_update-banned :
        (now : ℕ) (s : Server bpf)
        → s.bans.ipv4_map ≡ map
        → let s' = after_update bpf conf env (hit key now) (add_elem bpf af_inet key s.bans) s in
          (bpf.is_in s'.bans.ipv4_map key ≡ true) × (s'.ban_count ≡ (s.ban_count + 1) % 2 ^ 64)
    unfolding after_update add_elem
    after_update-banned now s same =
        let taken : ◌≡◌ {A = ℤ × bpf.Map} (bpf.update_elem s.bans.ipv4_map key)
            (pos 0, accepts.with_key) =
          ap (λ (m : bpf.Map). bpf.update_elem m key) same ∙ accepts.result in
        rw taken (accepts.listed, refl)

    ban_loop-hits :
        (n now ts : ℕ) (grant : Grant) (hits : Hits) (s : Server bpf)
        → IsCounting bpf conf env works key start search address n s
        → s.bans.ipv4_map ≡ map
        → (n ≡ 0 → now ≡ start)
        → IsHit conf start search l (now, grant, ts)
        → All (IsHit conf start search l) hits
        → n + length hits + 1 ≡ conf.limit
        → (s' : Server bpf) × (l' : Llist) × (ban_loop bpf conf env start
              (messages key ((now, grant, ts) ∷ hits))
              s
              l
            ≡ some (s', l'))
          × IsBanned bpf key s cs s' l'
    unfolding ban_loop
    ban_loop-hits n now ts grant [] s c same first (late, young, g) hs total =
        let (l', push, front) = granted-push grant ts l cs g chain in
        let small : suc n < 2 ^ 31 = omega arith in
        let s0 = set_table bpf (table_after bpf conf env works key start search address now s) s in
        let s' = after_update bpf conf env (hit key now) (add_elem bpf af_inet key s0.bans) s0 in
        let run =
          ban_client-at bpf conf env works key start search address n now ts grant s l listed young
            c first late small l' (omega arith) push in
        let (in_map, count) = after_update-banned now s0 same in
        (s', l', rw run refl, (in_map, count, (grant.node_address, ts, front)))
    ban_loop-hits n now ts grant ((now', grant', ts') ∷ hits) s c same first (late, young, g)
          (h, hs) total =
        let small : suc n < 2 ^ 31 = omega arith in
        let s0 = set_table bpf (table_after bpf conf env works key start search address now s) s in
        let run =
          ban_client-below bpf conf env works key start search address n now ts grant s l listed
            young c first late small (omega arith) in
        let (ret, counting) =
          insert-IsCounting bpf conf env works key start search address n now s c first late
            small in
        let (s', l', rest, banned) =
          ban_loop-hits (suc n) now' ts' grant' hits s0 counting same (λ e. absurd (omega arith)) h
            hs (omega arith) in
        (s', l', rw run rest, banned)

    -- When as many messages as the limit name an IPv4 address that is not on the whitelist and has
    -- no count in the table, each within the find time and the search time from the first, the
    -- allocations and locks work, and the kernel accepts the address into its map, then
    -- `ban_clients` on these messages ends with the address in the map and at the front of the list
    -- of banned addresses, and has counted one ban.
    pub ban_clients-limit :
        (ts : ℕ) (grant : Grant) (hits : Hits) (s : Server bpf)
        → IsValid s.bans.htable
        → s.bans.htable.search_time ≡ search
        → lookup s.bans.htable af_inet key ≡ none
        → s.bans.ipv4_map ≡ map
        → IsHit conf start search l (start, grant, ts)
        → All (IsHit conf start search l) hits
        → length hits + 1 ≡ conf.limit
        → (s' : Server bpf) × (l' : Llist) × (ban_clients bpf conf env
              (messages key ((start, grant, ts) ∷ hits))
              s
              l
            ≡ some (s', l'))
          × IsBanned bpf key s cs s' l'
    unfolding ban_clients IsCounted
    ban_clients-limit ts grant hits s valid time absent same h hs total =
        ban_loop-hits 0 start ts grant hits s
          (record { valid = valid; search_time = time; count = ap counter absent }) same (λ e. refl)
          h hs (omega arith)
