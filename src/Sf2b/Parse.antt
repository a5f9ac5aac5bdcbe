-- ===== src/Sf2b/Parse.antt =====
-- src/programs/sf2b/string.c: `regex_match_handler` and `parse_str`.
use fips_ipc.Prelude.{
  ℕ, ◌+◌, ◌-◌, ◌%◌, ◌^◌, Bool, true, false, ◌&&◌, Option, none, some, List, [], ◌∷◌, ◌==◌,
  if◌then◌else◌, take, drop, set, bytes_eq,
}
use fips_ipc.HashTable.{Domain, af_inet, af_inet6, ℤ, pos, negsuc}

-- A match that Hyperscan reports: the id of the expression, and where it starts and ends.
pub record Match : Type 0 where
  pub id : ℕ
  pub from : ℕ
  pub to : ℕ

-- What the source calls: `hs_scan` with the compiled expressions, as the matches it reports in turn or
-- `none` for an error; `inet_pton` on the text; and `strptime` with `mktime`, or `none` where there is
-- no date.
pub record Text : Type 0 where
  pub hs_scan : List ℕ → Option (List Match)
  pub inet_pton : Domain → List ℕ → Option ℕ
  pub read_date : List ℕ → Option ℕ

-- `struct hs_context_t`; `domain` is `none` for -1.
pub record Context : Type 0 where
  pub domain : Option Domain
  pub matched : Bool
  pub rate_limit_match : Bool
  pub logstr : List ℕ
  pub ip_addr : ℕ
  pub from : ℕ
  pub timestamp : ℕ

abbrev pub ip4_regex_id : ℕ
ip4_regex_id = 1

abbrev pub ip6_regex_id : ℕ
ip6_regex_id = 2

abbrev pub rate_limit_regex_id : ℕ
rate_limit_regex_id = 3

-- The bytes of a string in front of its end.
abbrev pub c_string : List ℕ → List ℕ
c_string [] = []
c_string (c ∷ cs) = let rest = c ∷ c_string cs in if c == 0 then [] else rest

abbrev pub text_at : Context → List ℕ
text_at c = c_string (drop c.from c.logstr)

-- An IPv4 address takes the first 4 bytes of the union.
abbrev pub set_ipv4 : ℕ → Context → Context
set_ipv4 a c = record c {
  ip_addr = c.ip_addr - c.ip_addr % 2 ^ 32 + a % 2 ^ 32;
  domain = some af_inet;
}

abbrev pub set_ipv6 : ℕ → Context → Context
set_ipv6 a c = record c { ip_addr = a; domain = some af_inet6 }

-- `context->logstr[i] = ch`
abbrev pub put_char : ℕ → ℕ → Context → Context
put_char i ch c = record c { logstr = set c.logstr i ch }

-- The end of the match is cut off, and the start kept.
abbrev pub cut_match : Match → Context → Context
cut_match m c = put_char (m.to - 1) 0 (record c { matched = true; from = m.from % 2 ^ 32 })

abbrev pub stops : Bool → ℕ
stops b = if b then 1 else 0

-- The static variables of a thread: the first 21 bytes of the last message, and its time.
pub record DateCache : Type 0 where
  pub timestamp_str_cache : List ℕ
  pub timestamp_cache : ℕ

abbrev pub date_or : ℕ → Option ℕ → ℕ
date_or now none = now
date_or now (some d) = d

-- The conversion at the end, with the result: the family is tried anew.
abbrev pub convert : Context → Option ℕ → Option ℕ → ℤ × Context
convert c (some a) other = (pos 0, set_ipv4 a c)
convert c none (some a) = (pos 0, set_ipv6 a c)
convert c none none = (negsuc 2, c)

abbrev pub has_domain : Option Domain → Bool
has_domain none = false
has_domain (some d) = true

module _ (text : Text) where
  abbrev pub ipv4_match : Match → Context → Option ℕ → ℕ × Context
  ipv4_match m c (some a) = (stops c.rate_limit_match, set_ipv4 a c)
  ipv4_match m c none = (0, put_char m.to 32 (record c { domain = none }))

  abbrev pub ipv6_match : Match → Context → Option ℕ → ℕ × Context
  ipv6_match m c (some a) = (stops c.rate_limit_match, put_char (m.to + 1) 32 (set_ipv6 a c))
  ipv6_match m c none = (0, put_char (m.to + 1) 32 (record c { domain = none }))

  -- Returns 1 for Hyperscan to stop.
  unfoldable pub regex_match_handler : Match → Context → ℕ × Context
  regex_match_handler m c =
      let cut = cut_match m c in
      if m.id == rate_limit_regex_id
      then (stops c.matched, record c { rate_limit_match = true })
      else if m.id == ip4_regex_id
      then ipv4_match m cut (text.inet_pton af_inet (text_at cut))
      else if m.id == ip6_regex_id
      then ipv6_match m cut (text.inet_pton af_inet6 (text_at cut))
      else (1, c)

  -- Hyperscan calls the handler for each match until it returns 1.
  unfoldable pub handle_matches : List Match → Context → Context
  unfolding regex_match_handler
  handle_matches [] c = c
  handle_matches (m ∷ ms) c =
      let (stop, c') = regex_match_handler m c in
      let rest = handle_matches ms c' in if stop == 0 then rest else c'

  unfoldable pub read_timestamp : ℕ → List ℕ → DateCache → DateCache
  read_timestamp now logstr cache =
      if bytes_eq (take 21 logstr) cache.timestamp_str_cache then cache else record {
        timestamp_str_cache = take 21 logstr;
        timestamp_cache = date_or now (text.read_date logstr);
      }

  abbrev pub after_scan : Context → Option (List Match) → ℤ × Context
  after_scan c none = (negsuc 0, c)
  after_scan c (some ms) =
      let c' = handle_matches ms c in
      if c'.matched && has_domain c'.domain && c'.rate_limit_match
      then convert c' (text.inet_pton af_inet (text_at c')) (text.inet_pton af_inet6 (text_at c'))
      else (negsuc 1, c')

  -- The context is an element of an array, and keeps what is not set here.
  unfoldable pub parse_str : ℕ → List ℕ → Context → DateCache → ℤ × Context × DateCache
  unfolding handle_matches read_timestamp
  parse_str now logstr c cache =
      let cache' = read_timestamp now logstr cache in
      let c' : Context = record c {
        matched = false;
        domain = none;
        logstr = logstr;
        rate_limit_match = false;
        timestamp = cache'.timestamp_cache;
      } in
      let (code, after) = after_scan c' (text.hs_scan logstr) in (code, after, cache')
