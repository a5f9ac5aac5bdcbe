-- ===== src/Sf2b/Examples.antt =====
-- A server with one banned address, and the configuration.
use fips_ipc.Prelude.{
  ℕ, ◌+◌, ◌*◌, ◌^◌, ◌≡◌, ◌<◌, ◌≤◌, ◌⊎◌, inl, inr, refl, arith, Bool, Bool-cases, true, false,
  Option, some, none, List, [], ◌∷◌, ◌==◌, if◌then◌else◌,
}
use fips_ipc.HashTable.{af_inet, key_matches, to_int, Table, pos, negsuc, Env}
use fips_ipc.HashTable.Ops.{insert}
use fips_ipc.HashTable.Lookup.{lookup, Works}
use fips_ipc.HashTable.Chains.{find}
use fips_ipc.HashTable.Clearing.{IsCleared}
use fips_ipc.HashTable.Invariant.{IsValid}
use fips_ipc.LinkedList.{Ban, Llist, Grant, ip_llist_push, create_lnode, push_node, update}
use fips_ipc.LinkedList.Chain.{Cells, node, has, Chain}
use fips_ipc.Sf2b.{Bpf}
use fips_ipc.Sf2b.Unban.{Bans, unban_round}
use fips_ipc.Sf2b.UnbanLoop.{Deletes, unban_cells}
use fips_ipc.Sf2b.UnbanLaws.{IsSorted, young, old, unban_round-Chain, unban_round-expired}
use fips_ipc.Sf2b.Ban.{Limits, Server, is_whitelistv4, add_elem}
use fips_ipc.Sf2b.BanBinary.{
  BinMessage, ban_bin_client, ban_bin_clients, bin_count, bin_after_insert, bin_ban, bin_after_push,
  bin_after_update, bin_reset,
}
use fips_ipc.Prelude.{length, take}
use fips_ipc.Sf2b.Parse.{Match, Text, Context, DateCache, parse_str}
use fips_ipc.Sf2b.ParseLaws.{IsAccepted, IsFresh, parse_str-IsAccepted}
use fips_ipc.Sf2b.BanThread.{BanThread, lines, ban_round}
use fips_ipc.Sf2b.BanThreadLaws.{Names, ban_round-limit}
use fips_ipc.Sf2b.BanLimit.{Accepts, IsGranted, IsBanned}
use fips_ipc.Sf2b.Segments.{init_thread_ipc, init_thread_ipc-partition}
use fips_ipc.Sf2b.Args.{Parser, Key, disk, key_t, key_s, key_w, parse_args}
use fips_ipc.Sf2b.ArgsLaws.{IsUsable, IsConsistent, parse_args-IsUsable}

-- A map of the kernel as the set of its keys.
abbrev bpf : Bpf
bpf = record {
  Map = ℕ → Bool;
  is_in = λ m k. m k;
  update_elem = λ m k. (if m k then negsuc 16 else pos 0, λ j. if j == k then true else m j);
  delete_elem = λ m k. (if m k then pos 0 else negsuc 1, λ j. if j == k then false else m j);
}

bpf-Deletes : Deletes bpf
bpf-Deletes = record {
  own = λ m k. ground arith;
  others = λ m k k' out. elim (Bool-cases (k' == k)) [ inl e ↦ rw e refl | inr e ↦ rw e out ];
}

abbrev env : Env
env = record {
  bin_lock_fails = false;
  free_lock_fails = false;
  mmap_fails = false;
  page_entries = 2;
}

env-Works : Works env
env-Works = record { bin_lock = refl; free_lock = refl; mmap = refl; some_entries = omega arith }

abbrev table : Table
table = record { hbins = λ i. []; free_list = []; free_list_size = 0; search_time = 30 }

abbrev bans : Bans bpf
bans = record { htable = table; ipv4_map = λ k. k == 5; ipv6_map = λ k. false; unban_count = 0 }

abbrev first : Ban
first = record { key = 5; domain = af_inet; timestamp = 10 }

abbrev cells : Cells
cells = (4, first) ∷ []

abbrev llist : Llist
llist = record { head = 4; heap = λ a. if a == 4 then some (node first 0) else none }

llist-Chain : Chain llist.heap llist.head cells
unfolding Chain
llist-Chain = (0, refl, omega arith, refl, refl, refl)

cells-IsSorted : IsSorted cells
unfolding IsSorted
cells-IsSorted = (tt, tt)

unban_round-Chain_example :
    (after : Llist) × (unban_round bpf env false false 30 100 2 bans llist
      ≡ some (some (unban_cells bpf env 100 (old 30 100 cells) bans), after))
    × Chain after.heap after.head (young 30 100 cells)
    × ((a : ℕ) → has a (old 30 100 cells) ≡ true → after.heap a ≡ none)
unban_round-Chain_example =
    unban_round-Chain 30 100 bpf env 2 bans llist cells llist-Chain cells-IsSorted (omega arith)

unban_round-expired_example :
    (final : Bans bpf) × (after : Llist) × (unban_round bpf env false false 30 100 2 bans llist
      ≡ some (some final, after))
    × (bpf.is_in final.ipv4_map 5 ≡ false)
    × IsCleared 100 (lookup final.htable af_inet 5)
unban_round-expired_example =
    unban_round-expired 30 100 bpf env env-Works bpf-Deletes 2 bans llist cells 4 5 10 llist-Chain
      cells-IsSorted (omega arith) (inl refl) (omega arith)

abbrev limits : Limits
limits = record { findtime = 30; limit = 2; whitelistv4 = 1966858 }

abbrev server : Server bpf
server = record { bans = bans; ban_count = 0; too_old = 0 }

abbrev grant : Grant
grant = record { node_address = 8; key_fails = false; lock_fails = false; unlock_fails = false }

-- 192.0.2.7
abbrev client : ℕ
client = 117571776

client_outside : is_whitelistv4 client 1966858 24 ≡ false
unfolding is_whitelistv4
client_outside = refl

-- 10.3.30.9
client_inside : is_whitelistv4 (1966858 + 9 * 2 ^ 24) 1966858 24 ≡ true
unfolding is_whitelistv4
client_inside = refl

map-Accepts : Accepts bpf (λ k. k == 5) client
map-Accepts = record {
  with_key = λ j. if j == client then true else j == 5;
  result = refl;
  listed = refl;
}

grant-IsGranted : IsGranted grant llist
grant-IsGranted = record { node = omega arith; free = refl; key = refl; lock = refl; unlock = refl }

table-IsValid : IsValid table
table-IsValid = record { free_count = refl; homes = λ i. tt }

nothing_counted : lookup table af_inet client ≡ none
unfolding lookup find
nothing_counted = refl

init_thread_ipc-partition_example :
    (i lo hi : ℕ) × (i < 3)
    × (init_thread_ipc 8 3 i ≡ some (lo, hi))
    × (lo ≤ 6)
    × (6 < hi)
    × ((j lo' hi' : ℕ)
        → j < 3
        → init_thread_ipc 8 3 j ≡ some (lo', hi')
        → lo' ≤ 6
        → 6 < hi'
        → j ≡ i)
init_thread_ipc-partition_example =
    init_thread_ipc-partition 8 3 (omega arith) (omega arith) 6 (omega arith)

abbrev parser : Parser ℕ
parser = record {
  config = record {
    ipc_type = disk;
    thread_count = 1;
    bantime = 30;
    limit = 3;
    findtime = 30;
    matching = false;
    verbose = false;
    wload_stealing = false;
    shm_key = 0;
    logfile = 0;
    regex = 0;
    interface = 0;
  };
  ipc_set = false;
  grpc_ip = 0;
}

abbrev keys : List (Key ℕ)
keys = key_t (some 260) ∷ key_w ∷ key_s none ∷ []

-- Strings are numbers here.
parse_args-IsUsable_example :
    let r = parse_args (λ n. n) (λ n. false) 0 0 16 keys 1 parser in
    (r ≡ none) ⊎ ((q : Parser ℕ) × (r ≡ some q) × IsUsable q.config × IsConsistent q.config)
parse_args-IsUsable_example =
    parse_args-IsUsable (λ n. n) (λ n. false) 0 0 16 keys 1 parser
      (
        (omega arith, omega arith),
        (omega arith, omega arith),
        (omega arith, omega arith),
        (omega arith, omega arith),
      )

-- Two binary messages of an address with the limit 2, from a granted list.
abbrev binary_messages : ℕ → ℕ → List (BinMessage × Grant × ℕ)
binary_messages address_len address =
    let m : BinMessage = record { timestamp = 40; address_len = address_len; address = address } in
    (m, grant, 50) ∷ (m, grant, 50) ∷ []

abbrev ban_count_after : Option (Server bpf × Llist) → Option (ℕ × ℕ)
ban_count_after none = none
ban_count_after (some (s, l)) = some (s.ban_count, l.head)

binary_ipv4 :
    ban_count_after (ban_bin_clients bpf limits env (binary_messages 4 client) server llist)
    ≡ some (1, 8)
unfolding ban_bin_clients ban_bin_client bin_count bin_after_insert bin_ban bin_after_push
    bin_after_update bin_reset add_elem insert ip_llist_push is_whitelistv4 key_matches to_int
    create_lnode push_node update
binary_ipv4 = refl

-- An IPv6 address that reaches the limit is not banned.
binary_ipv6 :
    ban_count_after (ban_bin_clients bpf limits env (binary_messages 16 client) server llist)
    ≡ some (0, 4)
unfolding ban_bin_clients ban_bin_client bin_count bin_after_insert bin_ban bin_after_push
    bin_after_update bin_reset add_elem insert ip_llist_push is_whitelistv4 key_matches to_int
binary_ipv6 = refl

-- A message "17 #" of which the expression for the rate limit and that for IPv4 addresses report a
-- match, and the texts "17" that is an address and "17 #" that begins with the date 5.
abbrev text : Text
text = record {
  hs_scan =
      λ s. some (record { id = 3; from = 0; to = 2 } ∷ record { id = 1; from = 0; to = 3 } ∷ []);
  inet_pton = λ d s. if length s == 2 then some 17 else none;
  read_date = λ s. if length (take 21 s) == 0 then none else some 5;
}

abbrev logstr : List ℕ
logstr = b'1' ∷ b'7' ∷ b'#' ∷ b' ' ∷ []

abbrev old_context : Context
old_context = record {
  domain = none;
  matched = true;
  rate_limit_match = true;
  logstr = [];
  ip_addr = 0;
  from = 0;
  timestamp = 0;
}

abbrev no_dates : DateCache
no_dates = record { timestamp_str_cache = []; timestamp_cache = 0 }

abbrev parsed_context : Context
parsed_context = (parse_str text 9 logstr old_context no_dates).1

parsed :
    parse_str text 9 logstr old_context no_dates
    ≡ (pos 0, parsed_context, (parse_str text 9 logstr old_context no_dates).2)
unfolding parse_str
parsed = refl

parse_str-IsAccepted_example :
    (ms : List Match) × (text.hs_scan logstr ≡ some ms)
    × IsAccepted text ms parsed_context
    × ((d : ℕ) → text.read_date logstr ≡ some d → parsed_context.timestamp ≡ d)
    × IsFresh text (parse_str text 9 logstr old_context no_dates).2
parse_str-IsAccepted_example =
    parse_str-IsAccepted text 9 logstr old_context parsed_context no_dates
      (parse_str text 9 logstr old_context no_dates).2 refl (λ d e. cc) parsed

-- Two lines with the date 50 about the client, for a thread whose array has room for two contexts.
abbrev client_text : Text
client_text = record text {
  inet_pton = λ d s. if length s == 2 then some client else none;
  read_date = λ s. if length (take 21 s) == 0 then none else some 50;
}

logstr-Names : Names client_text client 50 logstr
logstr-Names = record {
  limit_from = 0;
  limit_to = 2;
  from = 0;
  to = 3;
  scan = refl;
  address = refl;
  date = refl;
  short = refl;
}

abbrev thread : BanThread
thread = record { contexts = old_context ∷ old_context ∷ []; dates = no_dates; rcv_count = 7 }

ban_round-limit_example :
    (t' : BanThread) × (s' : Server bpf) × (l' : Llist) × (ban_round client_text bpf limits env
        (lines ((logstr, 60) ∷ (logstr, 60) ∷ []) ((grant, 60) ∷ (grant, 60) ∷ []))
        thread
        server
        llist
      ≡ some (some (t', s'), l'))
    × (t'.rcv_count ≡ 9)
    × IsBanned bpf client server cells s' l'
ban_round-limit_example =
    ban_round-limit client_text client (omega arith) bpf limits env env-Works 30 client_outside
      (omega arith) (λ k. k == 5) map-Accepts llist cells llist-Chain (50, logstr, 60, grant, 60)
      ((50, logstr, 60, grant, 60) ∷ []) thread server (logstr-Names, (logstr-Names, tt))
      (
        (omega arith, omega arith, grant-IsGranted),
        ((omega arith, omega arith, grant-IsGranted), tt),
      )
      refl (omega arith) (omega arith, (omega arith, tt)) (λ d e. cc) table-IsValid refl
      nothing_counted refl
