-- ===== src/Xdp/Verdicts.antt =====
-- `xdp_prog` on frames written out.
use fips_ipc.Prelude.{
  bytes_eq, bytes_eq_refl, ℕ, ◌+◌, ◌*◌, ◌≤◌, ◌≡◌, refl, sym, ap, ◌∙◌, Bool, true, false, ltb,
  if◌then◌else◌, Option, none, some, List, [], ◌∷◌, ◌++◌, length, length-append, append_assoc,
  arith,
}
use fips_ipc.Xdp.{Maps, Map, add_one, ◌>>=◌, bytes_at, incremented, xdp_drop, xdp_pass}
use fips_ipc.Xdp.Eth.{parse_eth}
use fips_ipc.Xdp.Filter.{
  count_local, drop_v4, parse_ipv4, handle_eth_protocol, stats_action_verdict, count_verdict,
  xdp_prog,
}
use fips_ipc.Xdp.Reads.{bytes_at-append}
use fips_ipc.Xdp.Frames.{Tag, tagged, frame, length-tagged, parse_eth-frame}

abbrev pub blacklisted : Option ℕ → Bool
blacklisted none = false
blacklisted (some value) = true

tagged-append : (tags : List Tag) (xs ys : List ℕ) → tagged tags (xs ++ ys) ≡ tagged tags xs ++ ys
unfolding tagged
tagged-append [] xs ys = refl
tagged-append (tag ∷ tags) xs ys = let rest = tagged-append tags xs ys in rw rest refl

pub xdp_prog-l3 :
    (packet : List ℕ) (maps after : Maps) (eth_proto l3_offset action : ℕ)
    → parse_eth packet ≡ some (5, eth_proto, l3_offset)
    → handle_eth_protocol packet eth_proto l3_offset maps ≡ some (action, after)
    → xdp_prog packet maps ≡ some (action, stats_action_verdict action after)
unfolding xdp_prog count_verdict
xdp_prog-l3 packet maps after eth_proto l3_offset action e f = rw (e, ◌>>=◌, f) refl

module _ (addresses : List ℕ) (tags : List Tag) (hi lo : ℕ) (twelve : length addresses ≡ 12) where
  -- What stands before the packet in the frame.
  abbrev pub l2 : List ℕ
  l2 = addresses ++ tagged tags (hi ∷ lo ∷ [])

  pub length-l2 : length l2 ≡ 14 + 4 * length tags
  length-l2 = omega (
    arith,
    twelve,
    length-append addresses (tagged tags (hi ∷ lo ∷ [])),
    length-tagged tags (hi ∷ lo ∷ []),
  )

  pub frame-l2 : (payload : List ℕ) → frame addresses tags hi lo payload ≡ l2 ++ payload
  frame-l2 payload =
      ap (◌++◌ addresses) (tagged-append tags (hi ∷ lo ∷ []) payload)
      ∙ sym (append_assoc addresses (tagged tags (hi ∷ lo ∷ [])) payload)

stats-blacklistv4 :
    (action : ℕ) (maps : Maps) → (stats_action_verdict action maps).blacklistv4 ≡ maps.blacklistv4
unfolding stats_action_verdict
stats-blacklistv4 action maps = ground arith

-- An IPv4 header: 12 bytes, the source, and at least the destination.
module _ (before src rest : List ℕ) (maps : Maps) (start : length before ≡ 12)
    (four : length src ≡ 4) (more : 4 ≤ length rest) where
  -- The verdict and the count of the source.
  IsIpv4Verdict : Option (ℕ × Maps) → Type 0
  IsIpv4Verdict r =
      (after : Maps) × (r
        ≡ some (if blacklisted (maps.blacklistv4 src) then xdp_drop else xdp_pass, after))
      × (after.blacklistv4 src ≡ incremented (maps.blacklistv4 src))

  drop_v4-verdict :
      (value : Option ℕ) (counted : Maps)
      → maps.blacklistv4 src ≡ value
      → counted.blacklistv4 ≡ maps.blacklistv4
      → IsIpv4Verdict (some (drop_v4 src value counted))
  unfolding drop_v4 IsIpv4Verdict
  drop_v4-verdict none counted e same =
      let here : counted.blacklistv4 src ≡ maps.blacklistv4 src =
        ap (λ (m : Map (List ℕ)). m src) same in
      (counted, rw e refl, rw (here, e) refl)
  drop_v4-verdict (some value) counted e same =
      let here : counted.blacklistv4 src ≡ maps.blacklistv4 src =
        ap (λ (m : Map (List ℕ)). m src) same in
      (
        record counted { blacklistv4 = add_one bytes_eq counted.blacklistv4 src },
        rw e refl,
        rw (bytes_eq_refl src, here) refl,
      )

  count_local-blacklistv4 : (count_local src maps).blacklistv4 ≡ maps.blacklistv4
  unfolding count_local
  count_local-blacklistv4 = ground arith

  parse_ipv4-header :
      (xs : List ℕ) (o : ℕ)
      → length xs ≡ o
      → IsIpv4Verdict (parse_ipv4 (xs ++ (before ++ (src ++ rest))) o maps)
  unfolding parse_ipv4
  parse_ipv4-header xs o e =
      let packet = xs ++ (before ++ (src ++ rest)) in
      let one = length-append xs (before ++ (src ++ rest)) in
      let two = length-append before (src ++ rest) in
      let three = length-append src rest in
      let long : ltb (length packet) (o + 20) ≡ false = ground arith in
      let read : bytes_at packet (o + 12) 4 ≡ some src =
        ap (λ (p : List ℕ). bytes_at p (o + 12) 4) (sym (append_assoc xs before (src ++ rest)))
        ∙ bytes_at-append (xs ++ before) src rest (o + 12) 4
            (omega (arith, start, e, length-append xs before)) four in
      rw (long, read, ◌>>=◌)
        (drop_v4-verdict (maps.blacklistv4 src) (count_local src maps) refl count_local-blacklistv4)

  -- For an Ethernet frame with up to two VLAN tags that holds an IPv4 packet with at least a header
  -- of 20 bytes, `xdp_prog` returns `XDP_DROP` if the source is in `blacklistv4`, where its count
  -- goes up by one, and otherwise `XDP_PASS`, whatever the protocol, the ports and `port_blacklist`
  -- are.
  pub xdp_prog-ipv4 :
      (addresses : List ℕ) (tags : List Tag)
      → length addresses ≡ 12
      → length tags ≤ 2
      → (after : Maps) × (xdp_prog (frame addresses tags 8 0 (before ++ (src ++ rest))) maps
          ≡ some (if blacklisted (maps.blacklistv4 src) then xdp_drop else xdp_pass, after))
        × (after.blacklistv4 src ≡ incremented (maps.blacklistv4 src))
  unfolding IsIpv4Verdict handle_eth_protocol
  xdp_prog-ipv4 addresses tags twelve few =
      let payload = before ++ (src ++ rest) in
      let packet = frame addresses tags 8 0 payload in
      let o = 14 + 4 * length tags in
      let action = if blacklisted (maps.blacklistv4 src) then xdp_drop else xdp_pass in
      let (after, e, count) =
        parse_ipv4-header (l2 addresses tags 8 0 twelve) o (length-l2 addresses tags 8 0 twelve) in
      let run : parse_ipv4 packet o maps ≡ some (action, after) =
        ap (λ (p : List ℕ). parse_ipv4 p o maps) (frame-l2 addresses tags 8 0 twelve payload) ∙ e in
      (
        stats_action_verdict action after,
        xdp_prog-l3 packet maps after 2048 o action
            (parse_eth-frame addresses 8 0 payload twelve tags few (omega arith) refl) run,
        ap (λ (m : Map (List ℕ)). m src) (stats-blacklistv4 action after) ∙ count,
      )
