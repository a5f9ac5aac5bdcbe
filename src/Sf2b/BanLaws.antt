-- ===== src/Sf2b/BanLaws.antt =====
-- A round of `ban_clients` on a message about an IPv4 address.
use fips_ipc.Prelude.{
  ℕ, zero, suc, ◌+◌, ◌%◌, ◌^◌, ◌<◌, ◌≤◌, ◌≡◌, ◌≢◌, refl, ap, ◌∙◌, true, false, Option, none, some,
  ltb, ◌==◌, arith,
}
use native.Mathlib.Nat.{mod-eq_of_lt}
use fips_ipc.HashTable.{af_inet, pos, Table, Env, to_int}
use fips_ipc.HashTable.Ops.{insert}
use fips_ipc.HashTable.Lookup.{lookup, Works, counter, counted}
use fips_ipc.HashTable.Counters.{insert-lookup}
use fips_ipc.HashTable.Invariant.{IsValid, step, inserts, step-IsValid}
use fips_ipc.HashTable.SearchTime.{insert-search_time}
use fips_ipc.LinkedList.{Llist, Grant, ip_llist_push, llist_success}
use fips_ipc.LinkedList.Loops.{ne_eq}
use fips_ipc.Sf2b.{Bpf}
use fips_ipc.Sf2b.Ban.{
  Limits, Message, is_whitelistv4, Server, set_table, add_elem, after_update, after_push,
  after_insert, count_client, count_known, ban_client,
}

-- The counter of an address that was seen `n` times from `start` on.
unfoldable pub IsCounted : ℕ → ℕ → Option (ℕ × ℕ) → Type 0
IsCounted zero start o = o ≡ none
IsCounted (suc n) start o = o ≡ some (suc n, start)

counted-next :
    (n start search now : ℕ) (o : Option (ℕ × ℕ))
    → IsCounted n start o
    → (n ≡ 0 → now ≡ start)
    → now ≤ start + search
    → suc n < 2 ^ 31
    → ◌≡◌ {A = ℕ × ℕ} (counted search now o) (suc n, start)
unfolding IsCounted
counted-next zero start search now o h first late small = rw (h, first refl) refl
counted-next (suc n) start search now o h first late small =
    let early : ltb (start + search) now ≡ false = ground arith in
    let plain : (suc n + 1) % 2 ^ 32 ≡ suc (suc n) = omega arith in rw (h, early, plain) refl

to_int-small : (n : ℕ) → n < 2 ^ 31 → to_int n ≡ pos n
unfolding to_int
to_int-small n small = ground arith

-- A message about an IPv4 address.
abbrev pub hit : ℕ → ℕ → Message
hit key now = record { domain = af_inet; ip_addr = key; timestamp = now }

module _ (bpf : Bpf) (conf : Limits) (env : Env) (works : Works env) (key start search : ℕ)
    (address : key < 2 ^ 32) where
  plain : key % 2 ^ 32 ≡ key
  plain = mod-eq_of_lt address

  -- The state after `n` messages.
  pub record IsCounting (n : ℕ) (s : Server bpf) : Type 0 where
    pub valid : IsValid s.bans.htable
    pub search_time : s.bans.htable.search_time ≡ search
    pub count : IsCounted n start (counter (lookup s.bans.htable af_inet key))

  abbrev pub table_after : ℕ → Server bpf → Table
  table_after now s = (insert env (some key) af_inet now s.bans.htable).1

  pub insert-IsCounting :
      (n now : ℕ) (s : Server bpf)
      → IsCounting n s
      → (n ≡ 0 → now ≡ start)
      → now ≤ start + search
      → suc n < 2 ^ 31
      → ((insert env (some key) af_inet now s.bans.htable).0 ≡ some (pos (suc n)))
        × IsCounting (suc n) (set_table bpf (table_after now s) s)
  unfolding IsCounted step
  insert-IsCounting n now s c first late small =
      let t = s.bans.htable in
      let same : t.search_time ≡ search = c.search_time in
      let next =
        counted-next n start t.search_time now (counter (lookup t af_inet key)) c.count first
          (omega arith) small in
      let (ret, count, others) =
        insert-lookup env works af_inet refl key now t c.valid.free_count in
      (
        ret ∙ rw (next, to_int-small (suc n) small) refl,
        record {
          valid = step-IsValid t (inserts env (some key) af_inet now) c.valid;
          search_time = insert-search_time af_inet key now env t ∙ c.search_time;
          count = count ∙ rw next refl;
        },
      )

  -- A message that is neither too old nor from the whitelist.
  module _ (n now ts : ℕ) (grant : Grant) (s : Server bpf) (l : Llist)
      (listed : is_whitelistv4 key conf.whitelistv4 24 ≡ false) (young : ts ≤ start + conf.findtime)
      (c : IsCounting n s) (first : n ≡ 0 → now ≡ start) (late : now ≤ start + search)
      (small : suc n < 2 ^ 31) where
    abbrev pub next : Server bpf
    next = set_table bpf (table_after now s) s

    count_client_lem :
        count_client bpf conf env (hit key now) grant ts s l
        ≡ after_insert bpf conf env
            (hit key now)
            grant
            ts
            ((insert env (some key) af_inet now s.bans.htable).0)
            next
            l
    unfolding count_client
    count_client_lem = rw plain refl

    after_push_lem :
        after_push bpf conf env (hit key now) llist_success next
        ≡ after_update bpf conf env (hit key now) (add_elem bpf af_inet key next.bans) next
    unfolding after_push
    after_push_lem = rw plain refl

    pub ban_client-below :
        suc n ≢ conf.limit
        → ban_client bpf conf env (hit key now) start grant ts s l ≡ some (next, l)
    unfolding ban_client count_known after_insert
    ban_client-below below =
        let fresh : ltb (start + conf.findtime) ts ≡ false = ground arith in
        let (ret, counting) = insert-IsCounting n now s c first late small in
        let other : (suc n == conf.limit) ≡ false = ne_eq (suc n) conf.limit below in
        rw (fresh, plain, listed, count_client_lem, ret, other) refl

    pub ban_client-at :
        (l' : Llist)
        → suc n ≡ conf.limit
        → ip_llist_push grant (some key) (some ts) af_inet l ≡ some (llist_success, l')
        → ban_client bpf conf env (hit key now) start grant ts s l
          ≡ some (
            after_update bpf conf env (hit key now) (add_elem bpf af_inet key next.bans) next,
            l',
          )
    unfolding ban_client count_known after_insert
    ban_client-at l' here push =
        let fresh : ltb (start + conf.findtime) ts ≡ false = ground arith in
        let (ret, counting) = insert-IsCounting n now s c first late small in
        let this : (suc n == conf.limit) ≡ true = ground arith in
        rw (fresh, plain, listed, count_client_lem, ret, this, plain, push)
          (ap (λ (after : Server bpf). some (after, l')) after_push_lem)
