-- ===== src/Sf2b/ParseLaws.antt =====
-- What `parse_str` accepts, and that its cache of dates changes no result.
use fips_ipc.Prelude.{
  ℕ, ◌%◌, ◌^◌, ◌≡◌, ◌⊎◌, inl, inr, refl, sym, ap, ◌∙◌, Bool, true, false, ◌&&◌, Bool-cases, Option,
  none, some, Option-cases, List, [], ◌∷◌, ◌==◌, ==_iff, take, bytes_eq, eq_of_bytes_eq, arith,
}
use fips_ipc.HashTable.{af_inet, af_inet6, ℤ, pos, negsuc}
use fips_ipc.Sf2b.Parse.{
  Match, Text, Context, DateCache, ip4_regex_id, ip6_regex_id, rate_limit_regex_id, text_at,
  cut_match, ipv4_match, ipv6_match, regex_match_handler, handle_matches, has_domain, convert,
  after_scan, read_timestamp, date_or, parse_str,
}

-- An expression with this id has matched.
abbrev pub Reported : ℕ → List Match → Type 0
Reported id [] = ⊥
Reported id (m ∷ ms) = (m.id ≡ id) ⊎ Reported id ms

-- What the flags of `c'` say, where those of `c` are the flags before these matches.
record Flags (ms : List Match) (c c' : Context) : Type 0 where
  rate : c'.rate_limit_match ≡ true → (c.rate_limit_match ≡ true) ⊎ Reported rate_limit_regex_id ms
  matched :
      c'.matched ≡ true → (c.matched ≡ true) ⊎ (Reported ip4_regex_id ms ⊎ Reported ip6_regex_id ms)
  timestamp : c'.timestamp ≡ c.timestamp

true_ne_false : (b : Bool) → b ≡ true → b ≡ false → ⊥
true_ne_false b e f = ground arith

both_flags : (a b d : Bool) → (a && d && b) ≡ true → (a ≡ true) × (b ≡ true)
both_flags a b d h = ground arith

refused_ne : (n : ℕ) (c after : Context) → ◌≡◌ {A = ℤ × Context} (negsuc n, c) (pos 0, after) → ⊥
refused_ne n c after e = ground (arith, ap (λ (t : ℤ × Context). t.0) e)

module _ (text : Text) where
  kept-ipv4 :
      (m : Match) (c : Context) (o : Option ℕ)
      → let c' = (ipv4_match text m c o).1 in
        (c'.rate_limit_match ≡ c.rate_limit_match) × (c'.timestamp ≡ c.timestamp)
  kept-ipv4 m c none = (refl, refl)
  kept-ipv4 m c (some a) = (refl, refl)

  kept-ipv6 :
      (m : Match) (c : Context) (o : Option ℕ)
      → let c' = (ipv6_match text m c o).1 in
        (c'.rate_limit_match ≡ c.rate_limit_match) × (c'.timestamp ≡ c.timestamp)
  kept-ipv6 m c none = (refl, refl)
  kept-ipv6 m c (some a) = (refl, refl)

  handler-Flags :
      (m : Match) (ms : List Match) (c : Context)
      → Flags (m ∷ ms) c (regex_match_handler text m c).1
  unfolding regex_match_handler
  handler-Flags m ms c =
      let cut = cut_match m c in
      elim (Bool-cases (m.id == rate_limit_regex_id)) [
        | inl rate ↦ record {
          rate = λ h. inr (inl ((==_iff _ _).0 rate));
          matched = λ h. inl (rw rate at h);
          timestamp = rw rate refl;
        }
        | inr other ↦ elim (Bool-cases (m.id == ip4_regex_id)) [
          | inl four ↦
              let (rate, time) = kept-ipv4 m cut (text.inet_pton af_inet (text_at cut)) in
              record {
                rate = λ h. inl (sym rate ∙ (rw (other, four) at h));
                matched = λ h. inr (inl (inl ((==_iff _ _).0 four)));
                timestamp = rw (other, four) time;
              }
          | inr not_four ↦ elim (Bool-cases (m.id == ip6_regex_id)) [
            | inl six ↦
                let (rate, time) = kept-ipv6 m cut (text.inet_pton af_inet6 (text_at cut)) in
                record {
                  rate = λ h. inl (sym rate ∙ (rw (other, not_four, six) at h));
                  matched = λ h. inr (inr (inl ((==_iff _ _).0 six)));
                  timestamp = rw (other, not_four, six) time;
                }
            | inr not_six ↦ record {
              rate = λ h. inl (rw (other, not_four, not_six) at h);
              matched = λ h. inl (rw (other, not_four, not_six) at h);
              timestamp = rw (other, not_four, not_six) refl;
            }
          ]
        ]
      ]

  then-Flags :
      (m : Match) (ms : List Match) (c c' c'' : Context)
      → Flags (m ∷ ms) c c'
      → Flags ms c' c''
      → Flags (m ∷ ms) c c''
  then-Flags m ms c c' c'' one rest = record {
    rate = λ h. elim (rest.rate h) [ inl before ↦ one.rate before | inr later ↦ inr (inr later) ];
    matched = λ h. elim (rest.matched h) [
      | inl before ↦ one.matched before
      | inr (inl four) ↦ inr (inl (inr four))
      | inr (inr six) ↦ inr (inr (inr six))
    ];
    timestamp = rest.timestamp ∙ one.timestamp;
  }

  handle_matches-Flags : (ms : List Match) (c : Context) → Flags ms c (handle_matches text ms c)
  unfolding handle_matches
  handle_matches-Flags [] c = record { rate = λ h. inl h; matched = λ h. inl h; timestamp = refl }
  handle_matches-Flags (m ∷ ms) c =
      let (stop, c') = regex_match_handler text m c in
      let one = handler-Flags m ms c in
      elim (Bool-cases (stop == 0)) [
        | inl on ↦
            rw on
              (then-Flags m ms c c' (handle_matches text ms c') one (handle_matches-Flags ms c'))
        | inr done ↦ rw done one
      ]

  -- The address of a context is what `inet_pton` reads at the start of the match, as IPv4 if it can.
  abbrev pub IsAddress : Context → Type 0
  IsAddress c =
      ((a : ℕ) × (text.inet_pton af_inet (text_at c) ≡ some a)
        × (c.domain ≡ some af_inet)
        × (c.ip_addr % 2 ^ 32 ≡ a % 2 ^ 32))
      ⊎ ((a : ℕ) × (text.inet_pton af_inet (text_at c) ≡ none)
          × (text.inet_pton af_inet6 (text_at c) ≡ some a)
          × (c.domain ≡ some af_inet6)
          × (c.ip_addr ≡ a))

  abbrev pub IsAccepted : List Match → Context → Type 0
  IsAccepted ms c =
      Reported rate_limit_regex_id ms
      × (Reported ip4_regex_id ms ⊎ Reported ip6_regex_id ms)
      × IsAddress c

  convert-IsAddress :
      (c after : Context) (four six : Option ℕ)
      → text.inet_pton af_inet (text_at c) ≡ four
      → text.inet_pton af_inet6 (text_at c) ≡ six
      → convert c four six ≡ (pos 0, after)
      → IsAddress after × (after.timestamp ≡ c.timestamp)
  convert-IsAddress c after (some a) six four_read six_read e =
      rw (← ap (λ (t : ℤ × Context). t.1) e) (inl (a, four_read, refl, omega arith), refl)
  convert-IsAddress c after none (some a) four_read six_read e =
      rw (← ap (λ (t : ℤ × Context). t.1) e) (inr (a, four_read, six_read, refl, refl), refl)
  convert-IsAddress c after none none four_read six_read e = absurd (refused_ne 2 c after e)

  after_scan-IsAccepted :
      (ms : List Match) (c after : Context)
      → c.matched ≡ false
      → c.rate_limit_match ≡ false
      → after_scan text c (some ms) ≡ (pos 0, after)
      → IsAccepted ms after × (after.timestamp ≡ c.timestamp)
  after_scan-IsAccepted ms c after fresh unlimited e =
      let c' = handle_matches text ms c in
      let flags = handle_matches-Flags ms c in
      elim (Bool-cases (c'.matched && has_domain c'.domain && c'.rate_limit_match)) [
        | inl all ↦
            let (matched, limited) =
              both_flags c'.matched c'.rate_limit_match (has_domain c'.domain) all in
            let (address, time) = convert-IsAddress c' after _ _ refl refl (rw all at e) in
            (
              (
                elim (flags.rate limited) [
                  | inl before ↦ absurd (true_ne_false c.rate_limit_match before unlimited)
                  | inr reported ↦ reported
                ],
                elim (flags.matched matched) [
                  | inl before ↦ absurd (true_ne_false c.matched before fresh)
                  | inr reported ↦ reported
                ],
                address,
              ),
              time ∙ flags.timestamp,
            )
        | inr missing ↦ absurd (refused_ne 1 c' after (rw missing at e))
      ]

  -- The cached time is the date at the start of the cached text, if there is one.
  abbrev pub IsFresh : DateCache → Type 0
  IsFresh cache =
      (d : ℕ) → text.read_date cache.timestamp_str_cache ≡ some d → cache.timestamp_cache ≡ d

  pub read_timestamp-IsFresh :
      (now : ℕ) (logstr : List ℕ) (cache : DateCache)
      → text.read_date logstr ≡ text.read_date (take 21 logstr)
      → IsFresh cache
      → let cache' = read_timestamp text now logstr cache in
        IsFresh cache' × ((d : ℕ) → text.read_date logstr ≡ some d → cache'.timestamp_cache ≡ d)
  unfolding read_timestamp
  read_timestamp-IsFresh now logstr cache short fresh =
      elim (Bool-cases (bytes_eq (take 21 logstr) cache.timestamp_str_cache)) [
        | inl hit ↦
            let same = eq_of_bytes_eq (take 21 logstr) cache.timestamp_str_cache hit in
            rw hit (fresh, λ d e. fresh d (ap text.read_date (sym same) ∙ sym short ∙ e))
        | inr miss ↦
            let date : (d : ℕ)
                → text.read_date logstr ≡ some d
                → date_or now (text.read_date logstr) ≡ d =
              λ d e. rw e refl in
            rw miss (λ d e. date d (short ∙ e), date)
      ]

  -- When the date of the message stands in its first 21 bytes, and the cached time is the date at
  -- the start of the cached text if there is one, and `parse_str` returns 0, then Hyperscan has
  -- reported a match of the expression for the rate limit and one of an expression for addresses,
  -- the address of the context is what `inet_pton` reads at the start of the match, as an IPv4
  -- address if it is one and as an IPv6 address otherwise, the time of the context is the date of
  -- the message if it has one, and the new cached time is again the date at the start of the cached
  -- text if there is one.
  pub parse_str-IsAccepted :
      (now : ℕ) (logstr : List ℕ) (c after : Context) (cache cache' : DateCache)
      → text.read_date logstr ≡ text.read_date (take 21 logstr)
      → IsFresh cache
      → parse_str text now logstr c cache ≡ (pos 0, after, cache')
      → (ms : List Match) × (text.hs_scan logstr ≡ some ms)
        × IsAccepted ms after
        × ((d : ℕ) → text.read_date logstr ≡ some d → after.timestamp ≡ d)
        × IsFresh cache'
  unfolding parse_str
  parse_str-IsAccepted now logstr c after cache cache' short fresh e =
      let read = read_timestamp text now logstr cache in
      let (still, date) = read_timestamp-IsFresh now logstr cache short fresh in
      let start : Context = record c {
        matched = false;
        domain = none;
        logstr = logstr;
        rate_limit_match = false;
        timestamp = read.timestamp_cache;
      } in
      let same : read ≡ cache' = ap (λ (t : ℤ × Context × DateCache). t.2) e in
      let scanned : after_scan text start (text.hs_scan logstr) ≡ (pos 0, after) =
        ap (λ (t : ℤ × Context × DateCache). (t.0, t.1)) e in
      elim (Option-cases (text.hs_scan logstr)) [
        | inl failed ↦ absurd (refused_ne 0 start after (rw failed at scanned))
        | inr (ms, reported) ↦
            let (accepted, time) =
              after_scan-IsAccepted ms start after refl refl (rw reported at scanned) in
            (ms, reported, accepted, λ d found. time ∙ date d found, rw (← same) still)
      ]
