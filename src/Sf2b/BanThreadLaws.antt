-- ===== src/Sf2b/BanThreadLaws.antt =====
-- A round of the banning thread on lines about one IPv4 address, up to the limit.
use fips_ipc.Prelude.{
  ℕ, ◌+◌, ◌-◌, ◌%◌, ◌^◌, ◌<◌, ◌≤◌, ◌≡◌, refl, ap, ◌∙◌, false, none, some, List, [], ◌∷◌, ◌++◌, All,
  All-set, All-get_or, map, length, length-map, length-set, get_or, set, take, drop, arith,
  append-nil, append_assoc, take-set_self,
}
use fips_ipc.HashTable.{af_inet, ℤ, pos, Env}
use fips_ipc.HashTable.Lookup.{lookup, Works}
use fips_ipc.HashTable.Invariant.{IsValid}
use fips_ipc.LinkedList.{Llist, Grant}
use fips_ipc.LinkedList.Chain.{Cells, Chain}
use fips_ipc.Sf2b.{Bpf}
use fips_ipc.Sf2b.Ban.{Limits, is_whitelistv4, Server}
use fips_ipc.Sf2b.BanLaws.{hit}
use fips_ipc.Sf2b.BanLimit.{Accepts, Hits, messages, IsHit, IsBanned, ban_clients-limit}
use fips_ipc.Sf2b.Parse.{
  Text, Context, DateCache, c_string, after_scan, regex_match_handler, handle_matches,
  read_timestamp, parse_str,
}
use fips_ipc.Sf2b.ParseLaws.{IsFresh, read_timestamp-IsFresh}
use fips_ipc.Sf2b.BanThread.{
  lines, BanThread, no_context, count_parsed, parse_lines, message_of, with_answers, ban_round,
}

-- A line in which the expressions for the rate limit and for IPv4 addresses match in this order, with
-- this address, and with this date in its first 21 bytes.
pub record Names (text : Text) (key time : ℕ) (logstr : List ℕ) : Type 0 where
  pub limit_from : ℕ
  pub limit_to : ℕ
  pub from : ℕ
  pub to : ℕ
  pub scan :
      text.hs_scan logstr
      ≡ some (
          record { id = 3; from = limit_from; to = limit_to }
          ∷ record { id = 1; from = from; to = to }
          ∷ [])
  pub address :
      text.inet_pton af_inet (c_string (drop (from % 2 ^ 32) (set logstr (to - 1) 0))) ≡ some key
  pub date : text.read_date logstr ≡ some time
  pub short : text.read_date logstr ≡ text.read_date (take 21 logstr)

-- The contexts of IPv4 addresses, or of none, leave the other bytes of the union 0.
abbrev pub IsShort : Context → Type 0
IsShort c = c.ip_addr < 2 ^ 32

-- The context names the address and the time.
abbrev pub Hit : ℕ → ℕ → Context → Type 0
Hit key time c = (message_of c ≡ hit key time) × IsShort c

module _ (text : Text) (key : ℕ) (bound : key < 2 ^ 32) where
  address_kept : (x : ℕ) → x < 2 ^ 32 → x - x % 2 ^ 32 + key % 2 ^ 32 ≡ key
  address_kept x small = omega arith

  after_scan-Names :
      (time now : ℕ) (logstr : List ℕ) (c : Context)
      → (n : Names text key now logstr) → IsShort c
      → let start : Context = record c {
        matched = false;
        domain = none;
        logstr = logstr;
        rate_limit_match = false;
        timestamp = time;
      } in
        let (code, c') = after_scan text start (text.hs_scan logstr) in
        (code ≡ pos 0) × Hit key time c'
  unfolding handle_matches regex_match_handler
  after_scan-Names time now logstr c n short =
      let first = address_kept c.ip_addr short in
      rw (n.scan, n.address, n.address)
        (refl, (rw (first, address_kept key bound) refl, rw (first, address_kept key bound) bound))

  parse_str-Names :
      (time now : ℕ) (logstr : List ℕ) (c : Context) (dates : DateCache)
      → Names text key time logstr
      → IsShort c
      → IsFresh text dates
      → let (code, c', dates') = parse_str text now logstr c dates in
        (code ≡ pos 0) × Hit key time c' × IsFresh text dates'
  unfolding parse_str
  parse_str-Names time now logstr c dates n short fresh =
      let read = read_timestamp text now logstr dates in
      let (still, dated) = read_timestamp-IsFresh text now logstr dates n.short fresh in
      let (ok, found) = after_scan-Names read.timestamp_cache time logstr c n short in
      (ok, (found.0 ∙ ap (hit key) (dated time n.date), found.1), still)

  -- A line with its date and the time of its parsing, and the answers for its message.
  abbrev pub Entry : Type 0
  Entry = ℕ × List ℕ × ℕ × Grant × ℕ

  abbrev pub lines_of : List Entry → List (List ℕ × ℕ)
  lines_of es = map (λ (e : Entry). (e.1, e.2)) es

  abbrev pub answers_of : List Entry → List (Grant × ℕ)
  answers_of es = map (λ (e : Entry). (e.3, e.4)) es

  abbrev pub hits_of : List Entry → Hits
  hits_of es = map (λ (e : Entry). (e.0, e.3, e.4)) es

  abbrev AllHit : List Context → List Entry → Type 0
  AllHit [] [] = Unit {0}
  AllHit [] (e ∷ es) = ⊥
  AllHit (c ∷ cs) [] = ⊥
  AllHit (c ∷ cs) (e ∷ es) = Hit key e.0 c × AllHit cs es

  with_answers-AllHit :
      (cs : List Context) (es : List Entry)
      → AllHit cs es
      → with_answers cs (answers_of es) ≡ messages key (hits_of es)
  with_answers-AllHit [] [] h = refl
  with_answers-AllHit [] (e ∷ es) h = absurd h
  with_answers-AllHit (c ∷ cs) [] h = absurd h
  with_answers-AllHit (c ∷ cs) (e ∷ es) ((same, short), h) =
      rw (same, with_answers-AllHit cs es h) refl

  parse_lines-AllHit :
      (es : List Entry) (k : ℕ) (contexts : List Context) (dates : DateCache)
      → All (λ (e : Entry). Names text key e.0 e.1) es
      → k + length es ≤ length contexts
      → All IsShort contexts
      → IsFresh text dates
      → let (parsed_lines, contexts', dates') = parse_lines text (lines_of es) k contexts dates in
        (cs : List Context) × (take parsed_lines contexts' ≡ take k contexts ++ cs) × AllHit cs es
  unfolding parse_lines
  parse_lines-AllHit [] k contexts dates names room short fresh = ([], rw append-nil refl, tt)
  parse_lines-AllHit (e ∷ es) k contexts dates names room short fresh =
      let c = get_or contexts k no_context in
      let (ok, found, still) =
        parse_str-Names e.0 e.2 e.1 c dates names.0
          (All-get_or IsShort contexts k no_context short (omega arith)) fresh in
      let c' = (parse_str text e.2 e.1 c dates).1 in
      let (cs, taken, hits) =
        parse_lines-AllHit es (k + 1) (set contexts k c') (parse_str text e.2 e.1 c dates).2 names.1
          (rw (length-set contexts k c') (omega arith))
          (All-set IsShort contexts k c' short found.1) still in
      let run : parse_lines text (lines_of (e ∷ es)) k contexts dates
          ≡ parse_lines text (lines_of es) (k + 1) (set contexts k c')
              (parse_str text e.2 e.1 c dates).2 =
        ap
          (λ (code : ℤ).
            parse_lines text (lines_of es) (count_parsed code k) (set contexts k c')
              (parse_str text e.2 e.1 c dates).2)
          ok in
      (
        c' ∷ cs,
        rw run (
            taken
            ∙ ap (λ (front : List Context). front ++ cs) (take-set_self k c' contexts (omega arith))
            ∙ append_assoc (take k contexts) (c' ∷ []) cs),
        (found, hits),
      )

  hits_in_time :
      (l : Llist) (start search : ℕ) (es : List Entry) (conf : Limits)
      → All (λ (e : Entry). IsHit conf start search l (e.0, e.3, e.4)) es
      → All (IsHit conf start search l) (hits_of es)
  hits_in_time l start search [] conf h = tt
  hits_in_time l start search (e ∷ es) conf h = (h.0, hits_in_time l start search es conf h.1)

  hits_count : (es : List Entry) → length (hits_of es) ≡ length es
  hits_count es = length-map {B = ℕ × Grant × ℕ} (λ (e : Entry). (e.0, e.3, e.4)) es

  lines_count : (es : List Entry) → length (lines_of es) ≡ length es
  lines_count es = length-map (λ (e : Entry). (e.1, e.2)) es

  module _ (bpf : Bpf) (conf : Limits) (env : Env) (works : Works env) (search : ℕ)
      (listed : is_whitelistv4 key conf.whitelistv4 24 ≡ false) (limit : conf.limit < 2 ^ 31)
      (map' : bpf.Map) (accepts : Accepts bpf map' key) (l : Llist) (cs : Cells)
      (chain : Chain l.heap l.head cs) where
    -- When a round of the banning thread receives as many lines as the limit, at most as many as
    -- there are contexts, in each of which the expressions for the rate limit and for an IPv4
    -- address match in this order, with the same address, that is not on the whitelist and has no
    -- count in the table, and with a date in the first 21 bytes, each date and time within the
    -- search time and the find time from the first date, the contexts have only held IPv4
    -- addresses, the cache of dates is right, the allocations and locks work, and the kernel
    -- accepts the address into its map, then the round ends with the address in the map and at the
    -- front of the list of banned addresses, one ban more is counted, and the count of lines has
    -- grown by their number.
    pub ban_round-limit :
        (first : Entry) (es : List Entry) (t : BanThread) (s : Server bpf)
        → All (λ (e : Entry). Names text key e.0 e.1) (first ∷ es)
        → All (λ (e : Entry). IsHit conf first.0 search l (e.0, e.3, e.4)) (first ∷ es)
        → length (first ∷ es) ≡ conf.limit
        → length (first ∷ es) ≤ length t.contexts
        → All IsShort t.contexts
        → IsFresh text t.dates
        → IsValid s.bans.htable
        → s.bans.htable.search_time ≡ search
        → lookup s.bans.htable af_inet key ≡ none
        → s.bans.ipv4_map ≡ map'
        → (t' : BanThread) × (s' : Server bpf) × (l' : Llist) × (ban_round text bpf conf env
              (lines (lines_of (first ∷ es)) (answers_of (first ∷ es)))
              t
              s
              l
            ≡ some (some (t', s'), l'))
          × (t'.rcv_count ≡ (t.rcv_count + conf.limit) % 2 ^ 64)
          × IsBanned bpf key s cs s' l'
    unfolding ban_round
    ban_round-limit first es t s names in_time total room short fresh valid time absent same =
        let (found, taken, hits) =
          parse_lines-AllHit (first ∷ es) 0 t.contexts t.dates names (omega arith) short fresh in
        let given =
          ap (λ (c : List Context). with_answers c (answers_of (first ∷ es))) taken
          ∙ with_answers-AllHit found (first ∷ es) hits in
        let (s', l', run, banned) =
          ban_clients-limit bpf conf env works key first.0 search bound listed limit map' accepts l
            cs chain first.4 first.3 (hits_of es) s valid time absent same in_time.0
            (hits_in_time l first.0 search es conf in_time.1)
            (omega (arith, total, hits_count es)) in
        let parsed = parse_lines text (lines_of (first ∷ es)) 0 t.contexts t.dates in
        let t' : BanThread = record {
          contexts = parsed.1;
          dates = parsed.2;
          rcv_count = (t.rcv_count + length (lines_of (first ∷ es))) % 2 ^ 64;
        } in
        (t', s', l', rw (given, run) refl, rw (lines_count es, total) refl, banned)
