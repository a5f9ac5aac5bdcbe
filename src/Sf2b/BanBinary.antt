-- ===== src/Sf2b/BanBinary.antt =====
-- src/programs/sf2b/binary.c: `ban_clients` on binary messages, in the build without GRPC.
use fips_ipc.Prelude.{
  ℕ, zero, suc, ◌+◌, ◌-◌, ◌%◌, ◌^◌, Option, none, some, List, [], ◌∷◌, ltb, ◌==◌, if◌then◌else◌,
}
use fips_ipc.HashTable.{Domain, af_inet, af_inet6, other_domain, ℤ, pos, negsuc, Env}
use fips_ipc.HashTable.Ops.{insert, set_count}
use fips_ipc.LinkedList.{Grant, M, ◌>>=◌, pure, undefined, ip_llist_push}
use fips_ipc.Sf2b.{Bpf}
use fips_ipc.Sf2b.Unban.{Bans}
use fips_ipc.Sf2b.Ban.{Limits, is_whitelistv4, Server, set_table, add_elem}

-- `fips_bin_message_t`; an IPv4 address is the first 4 bytes of the union.
pub record BinMessage : Type 0 where
  pub timestamp : ℕ
  pub address_len : ℕ
  pub address : ℕ

abbrev pub address4 : BinMessage → ℕ
address4 m = m.address % 2 ^ 32

-- The family and the address that the first and the last `switch` name, by the length.
abbrev pub family : ℕ → Option Domain
family address_len =
    if address_len == 4 then some af_inet else if address_len == 16 then some af_inet6 else none

-- The middle `switch`: its second label is AF_INET6, which is 10.
abbrev pub banned_family : ℕ → Option Domain
banned_family address_len =
    if address_len == 4 then some af_inet else if address_len == 10 then some af_inet6 else none

abbrev pub address_of : Domain → BinMessage → ℕ
address_of af_inet m = address4 m
address_of af_inet6 m = m.address
address_of (other_domain d) m = m.address

module _ (bpf : Bpf) (conf : Limits) (env : Env) (m : BinMessage) where
  unfoldable pub bin_reset : Option Domain → Server bpf → Server bpf
  bin_reset none s = s
  bin_reset (some d) s =
      set_table bpf
        (set_count env (some (address_of d m)) d (conf.limit - 1) m.timestamp s.bans.htable).1 s

  unfoldable pub bin_after_update : ℤ × Bans bpf → Server bpf → Server bpf
  bin_after_update (pos zero, bans) s = record s {
    bans = bans;
    ban_count = (s.ban_count + 1) % 2 ^ 64;
  }
  bin_after_update (pos (suc r), bans) s =
      bin_reset (family m.address_len) (record s { bans = bans })
  bin_after_update (negsuc e, bans) s = bin_reset (family m.address_len) (record s { bans = bans })

  unfoldable pub bin_after_push : Domain → ℤ → Server bpf → Server bpf
  bin_after_push d (negsuc e) s = s
  bin_after_push d (pos r) s = bin_after_update (add_elem bpf d (address_of d m) s.bans) s

  unfoldable pub bin_ban : Grant → ℕ → Option Domain → Server bpf → M (Server bpf)
  bin_ban grant ts none s = pure s
  bin_ban grant ts (some d) s = do
    retval ← ip_llist_push grant (some (address_of d m)) (some ts) d
    pure (bin_after_push d retval s)

  unfoldable pub bin_after_insert : Grant → ℕ → Option ℤ → Server bpf → M (Server bpf)
  bin_after_insert grant ts none s = undefined
  bin_after_insert grant ts (some (negsuc e)) s = pure s
  bin_after_insert grant ts (some (pos zero)) s = pure s
  bin_after_insert grant ts (some (pos (suc r))) s =
      if suc r == conf.limit then bin_ban grant ts (banned_family m.address_len) s else pure s

  unfoldable pub bin_count : Grant → ℕ → Option Domain → Server bpf → M (Server bpf)
  bin_count grant ts none s = pure s
  bin_count grant ts (some af_inet) s =
      if is_whitelistv4 (address4 m) conf.whitelistv4 24
      then pure s
      else (let (retval, table) =
            insert env (some (address4 m)) af_inet m.timestamp s.bans.htable in
          bin_after_insert grant ts retval (set_table bpf table s))
  bin_count grant ts (some af_inet6) s =
      let (retval, table) = insert env (some m.address) af_inet6 m.timestamp s.bans.htable in
      bin_after_insert grant ts retval (set_table bpf table s)
  bin_count grant ts (some (other_domain d)) s = pure s

  -- A round of the loop at a time; `too_old++` moves a local pointer and counts nothing.
  unfoldable pub ban_bin_client : Grant → ℕ → Server bpf → M (Server bpf)
  ban_bin_client grant ts s =
      if ltb (m.timestamp + conf.findtime) ts
      then pure s
      else bin_count grant ts (family m.address_len) s

unfoldable pub ban_bin_clients :
    (bpf : Bpf) → Limits → Env → List (BinMessage × Grant × ℕ) → Server bpf → M (Server bpf)
ban_bin_clients bpf conf env [] s = pure s
ban_bin_clients bpf conf env ((m, grant, ts) ∷ ms) s = do
  s' ← ban_bin_client bpf conf env m grant ts s
  ban_bin_clients bpf conf env ms s'
