-- ===== src/Sf2b/Ban.antt =====
-- src/programs/sf2b/string.c and main.c: `ban_clients`, in the build without GRPC.
use fips_ipc.Prelude.{
  ℕ, zero, suc, ◌+◌, ◌-◌, ◌*◌, ◌/◌, ◌%◌, ◌^◌, Bool, Option, none, some, List, [], ◌∷◌, ltb, ◌==◌,
  if◌then◌else◌,
}
use Prim.Native.Nat.{bit_and}
use fips_ipc.HashTable.{Domain, af_inet, af_inet6, other_domain, ℤ, pos, negsuc, Table, Env}
use fips_ipc.HashTable.Ops.{insert, set_count}
use fips_ipc.LinkedList.{Grant, M, ◌>>=◌, pure, undefined, ip_llist_push}
use fips_ipc.Sf2b.{Bpf}
use fips_ipc.Sf2b.Unban.{Bans}

-- What `ban_clients` reads of `config_t`.
pub record Limits : Type 0 where
  pub findtime : ℕ
  pub limit : ℕ
  pub whitelistv4 : ℕ

-- What it reads of a `hs_context_t`; an IPv4 address is the first 4 bytes of the union.
pub record Message : Type 0 where
  pub domain : Domain
  pub ip_addr : ℕ
  pub timestamp : ℕ

-- `htonl` on a machine with the low byte first.
abbrev pub htonl : ℕ → ℕ
htonl x = x % 256 * 2 ^ 24 + x / 2 ^ 8 % 256 * 2 ^ 16 + x / 2 ^ 16 % 256 * 2 ^ 8 + x / 2 ^ 24 % 256

unfoldable pub cidr_to_mask : ℕ → ℕ
cidr_to_mask cidr = htonl ((2 ^ 32 - 1) * 2 ^ (32 - cidr) % 2 ^ 32)

unfoldable pub is_whitelistv4 : ℕ → ℕ → ℕ → Bool
unfolding cidr_to_mask
is_whitelistv4 address subnet subnet_size =
    let mask = cidr_to_mask subnet_size in bit_and address mask == bit_and subnet mask

abbrev pub ipv4 : Message → ℕ
ipv4 m = m.ip_addr % 2 ^ 32

abbrev pub key : Message → ℕ
key m = elim m.domain [ af_inet ↦ ipv4 m | af_inet6 ↦ m.ip_addr | other_domain d ↦ m.ip_addr ]

module _ (bpf : Bpf) where
  -- What the thread's counts and the shared structures are, besides the list.
  pub record Server : Type 0 where
    pub bans : Bans bpf
    pub ban_count : ℕ
    pub too_old : ℕ

  abbrev pub set_table : Table → Server → Server
  set_table table s = record s { bans = record (s.bans) { htable = table } }

  -- `bpf_map_update_elem` at the map of the family.
  unfoldable pub add_elem : Domain → ℕ → Bans bpf → ℤ × Bans bpf
  add_elem af_inet k bans =
      let (retval, map) = bpf.update_elem bans.ipv4_map k in
      (retval, record bans { ipv4_map = map })
  add_elem af_inet6 k bans =
      let (retval, map) = bpf.update_elem bans.ipv6_map k in
      (retval, record bans { ipv6_map = map })
  add_elem (other_domain d) k bans = (pos 0, bans)

  module _ (conf : Limits) (env : Env) (m : Message) where
    -- `if (retval != EXIT_OK)`: the counter goes back to one below the limit.
    unfoldable pub after_update : ℤ × Bans bpf → Server → Server
    after_update (pos zero, bans) s = record s {
      bans = bans;
      ban_count = (s.ban_count + 1) % 2 ^ 64;
    }
    after_update (pos (suc r), bans) s =
        set_table
          (set_count env (some m.ip_addr) m.domain (conf.limit - 1) m.timestamp bans.htable).1
          (record s { bans = bans })
    after_update (negsuc e, bans) s =
        set_table
          (set_count env (some m.ip_addr) m.domain (conf.limit - 1) m.timestamp bans.htable).1
          (record s { bans = bans })

    unfoldable pub after_push : ℤ → Server → Server
    after_push (negsuc e) s = s
    after_push (pos r) s = after_update (add_elem m.domain (key m) s.bans) s

    -- The answer of the table: `none` is the use of a null pointer in it.
    unfoldable pub after_insert : Grant → ℕ → Option ℤ → Server → M Server
    after_insert grant ts none s = undefined
    after_insert grant ts (some (negsuc e)) s = pure s
    after_insert grant ts (some (pos zero)) s = pure s
    after_insert grant ts (some (pos (suc r))) s =
        if suc r == conf.limit
        then (do
          retval ← ip_llist_push grant (some (key m)) (some ts) m.domain
          pure (after_push retval s))
        else pure s

    unfoldable pub count_client : Grant → ℕ → Server → M Server
    count_client grant ts s =
        let (retval, table) = insert env (some (key m)) m.domain m.timestamp s.bans.htable in
        after_insert grant ts retval (set_table table s)

    unfoldable pub count_known : Grant → ℕ → Domain → Server → M Server
    count_known grant ts af_inet s =
        if is_whitelistv4 (ipv4 m) conf.whitelistv4 24 then pure s else count_client grant ts s
    count_known grant ts af_inet6 s = count_client grant ts s
    count_known grant ts (other_domain d) s = pure s

    -- A round of the loop at a time; `first` is the time of the first message, to which the test
    -- of the age looks whatever the round is.
    unfoldable pub ban_client : ℕ → Grant → ℕ → Server → M Server
    ban_client first grant ts s =
        if ltb (first + conf.findtime) ts
        then pure (record s { too_old = (s.too_old + 1) % 2 ^ 64 })
        else count_known grant ts m.domain s

  -- The loop, with the answers for each round and its time.
  unfoldable pub ban_loop : Limits → Env → ℕ → List (Message × Grant × ℕ) → Server → M Server
  ban_loop conf env first [] s = pure s
  ban_loop conf env first ((m, grant, ts) ∷ ms) s = do
    s' ← ban_client conf env m first grant ts s
    ban_loop conf env first ms s'

  unfoldable pub ban_clients : Limits → Env → List (Message × Grant × ℕ) → Server → M Server
  ban_clients conf env [] s = pure s
  ban_clients conf env ((m, grant, ts) ∷ ms) s =
      ban_loop conf env m.timestamp ((m, grant, ts) ∷ ms) s
