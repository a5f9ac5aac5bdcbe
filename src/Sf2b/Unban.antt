-- ===== src/Sf2b/Unban.antt =====
-- src/programs/sf2b/main.c: `get_unban_list` and the loop of `unban_thread_routine`.
use fips_ipc.Prelude.{
  ℕ, zero, suc, ◌+◌, ◌%◌, ◌^◌, Bool, Option, none, some, ltb, ◌==◌, if◌then◌else◌,
}
use fips_ipc.HashTable.{Domain, af_inet, af_inet6, other_domain, ℤ, pos, negsuc, Table, Env}
use fips_ipc.HashTable.Ops.{set_count}
use fips_ipc.LinkedList.{
  Ban, M, ◌>>=◌, ◌>>◌, pure, undefined, load, set_next, get_head, set_head, ip_llist_remove,
}
use fips_ipc.Sf2b.{Bpf}

-- `(ts - iterator->timestamp) > server.config.bantime`
abbrev pub expired : ℕ → ℕ → Ban → Bool
expired bantime ts ban = ltb (ban.timestamp + bantime) ts

-- The loop behind the first entry, with a bound on the rounds.
unfoldable pub cut_loop : ℕ → ℕ → ℕ → ℕ → ℕ → M ℕ
cut_loop bantime ts zero prev iterator = undefined
cut_loop bantime ts (suc rounds) prev iterator = if iterator == 0 then pure 0 else do
  n ← load iterator
  if expired bantime ts n.ban
      then (do set_next prev 0; pure iterator)
      else cut_loop bantime ts rounds iterator n.next

-- `get_unban_list`: `none` for `(void *)-1`, or the first entry to be unbanned, 0 for none.
unfoldable pub get_unban_list : Bool → Bool → ℕ → ℕ → ℕ → M (Option ℕ)
unfolding get_head set_head
get_unban_list lock_fails unlock_fails bantime ts rounds = if lock_fails then pure none else do
  head ← get_head
  if head == 0 then pure (if unlock_fails then none else some 0) else (do
    first ← load head
    if expired bantime ts first.ban
        then (do set_head 0; pure (if unlock_fails then none else some head))
        else (if unlock_fails
            then pure none
            else do cut ← cut_loop bantime ts rounds head first.next; pure (some cut)))

module _ (bpf : Bpf) where
  -- What the unbanning of an entry changes besides the list.
  pub record Bans : Type 0 where
    pub htable : Table
    pub ipv4_map : bpf.Map
    pub ipv6_map : bpf.Map
    pub unban_count : ℕ

  unfoldable pub count_unban : ℤ → Bans → Bans
  count_unban (pos zero) bans = record bans { unban_count = (bans.unban_count + 1) % 2 ^ 64 }
  count_unban (pos (suc r)) bans = bans
  count_unban (negsuc e) bans = bans

  -- The `switch` and the count for an entry, at a time.
  unfoldable pub unban_key : Env → ℕ → Domain → ℕ → Bans → Bans
  unban_key env now af_inet key bans =
      let (retval, map) = bpf.delete_elem bans.ipv4_map key in
      count_unban retval (record bans {
        ipv4_map = map;
        htable = (set_count env (some key) af_inet 0 now bans.htable).1;
      })
  unban_key env now af_inet6 key bans =
      let (retval, map) = bpf.delete_elem bans.ipv6_map key in
      count_unban retval (record bans {
        ipv6_map = map;
        htable = (set_count env (some key) af_inet6 0 now bans.htable).1;
      })
  unban_key env now (other_domain d) key bans = bans

  -- The loop over the entries, with a bound on the rounds.
  unfoldable pub unban_loop : Env → ℕ → ℕ → ℕ → Bans → M Bans
  unban_loop env now zero iterator bans = undefined
  unban_loop env now (suc rounds) iterator bans = if iterator == 0 then pure bans else do
    n ← load iterator
    retval ← ip_llist_remove iterator 0
    unban_loop env now rounds n.next (unban_key env now n.ban.domain n.ban.key bans)

  unfoldable pub unban_found : Env → ℕ → ℕ → Bans → Option ℕ → M (Option Bans)
  unban_found env now rounds bans none = pure none
  unban_found env now rounds bans (some iterator) = do
    after ← unban_loop env now rounds iterator bans
    pure (some after)

  -- One round of the event loop; `none` is the return with EXIT_FAIL.
  unfoldable pub unban_round : Env → Bool → Bool → ℕ → ℕ → ℕ → Bans → M (Option Bans)
  unban_round env lock_fails unlock_fails bantime now rounds bans = do
    list ← get_unban_list lock_fails unlock_fails bantime now rounds
    unban_found env now rounds bans list
