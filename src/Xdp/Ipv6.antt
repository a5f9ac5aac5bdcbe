-- ===== src/Xdp/Ipv6.antt =====
-- `xdp_prog` on frames that hold an IPv6 packet with a chain of extension headers.
use fips_ipc.Prelude.{
  bytes_eq, ℕ, ◌+◌, ◌*◌, ◌≤◌, ◌≡◌, refl, sym, ap, ap₂, ◌∙◌, inl, inr, Bool, true, false, ltb,
  if◌then◌else◌, Option, none, some, List, [], ◌∷◌, ◌++◌, All, length, get_elem?, length-append,
  append_assoc, Bool-cases, arith,
}
use fips_ipc.Xdp.{Maps, ◌>>=◌, be16, bytes_at, add_one, xdp_drop, xdp_pass}
use fips_ipc.Xdp.Filter.{
  is_extension, port_blocked, check_port, drop_counted, parse_port, parse_l4, drop_v6, extensions,
  parse_ipv6, handle_eth_protocol, stats_action_verdict, xdp_prog,
}
use fips_ipc.Xdp.Reads.{get_elem?-append, bytes_at-append}
use fips_ipc.Xdp.Frames.{Tag, frame, parse_eth-frame}
use fips_ipc.Xdp.Chain.{Extension, IsExtension, IsLast, first, chain, extensions-chain, ending}
use fips_ipc.Xdp.Verdicts.{blacklisted, xdp_prog-l3, l2, length-l2, frame-l2}

-- The bytes of a UDP or of a TCP header, and the bit for it in `port_blacklist`.
abbrev pub header_size : Bool → ℕ
header_size udp = if udp then 8 else 20

abbrev pub protocol_number : Bool → ℕ
protocol_number udp = if udp then 17 else 6

abbrev pub filter_bit : Bool → ℕ
filter_bit udp = if udp then 1 else 0

parse_port-read :
    (udp : Bool) (packet : List ℕ) (o dport : ℕ) (maps : Maps)
    → o + header_size udp ≤ length packet
    → be16 packet (o + 2) ≡ some dport
    → parse_port packet (protocol_number udp) o maps ≡ some (check_port (filter_bit udp) dport maps)
unfolding parse_port
parse_port-read true packet o dport maps fits read =
    let long : ltb (length packet) (o + 8) ≡ false = ground arith in rw (long, read, ◌>>=◌) refl
parse_port-read false packet o dport maps fits read =
    let long : ltb (length packet) (o + 20) ≡ false = ground arith in rw (long, read, ◌>>=◌) refl

protocol_number-IsLast : (udp : Bool) → IsLast (protocol_number udp)
unfolding is_extension
protocol_number-IsLast true = (omega arith, omega arith, refl)
protocol_number-IsLast false = (omega arith, omega arith, refl)

module _ (xs start src dst tail : List ℕ) (n h : ℕ) where
  regroup_src :
      xs ++ ((start ++ (n ∷ h ∷ (src ++ dst))) ++ tail)
      ≡ (xs ++ (start ++ (n ∷ h ∷ []))) ++ (src ++ (dst ++ tail))
  regroup_src = simp append_assoc

  regroup_next :
      xs ++ ((start ++ (n ∷ h ∷ (src ++ dst))) ++ tail)
      ≡ (xs ++ start) ++ (n ∷ h ∷ ((src ++ dst) ++ tail))
  regroup_next = simp append_assoc

-- An IPv6 packet: 6 bytes, the number of the next header, the hop limit, the addresses, the
-- chain of extension headers and the transport header.
abbrev pub ipv6_packet : List ℕ → ℕ → List ℕ → List ℕ → List Extension → ℕ → List ℕ → List ℕ
ipv6_packet start hop src dst es protocol transport =
    (start ++ (first es protocol ∷ hop ∷ (src ++ dst))) ++ (chain es protocol ++ transport)

abbrev pub port_action : Bool → ℕ → Maps → ℕ
port_action udp dport maps =
    if port_blocked (filter_bit udp) (maps.port_blacklist dport) then xdp_drop else xdp_pass

-- The verdict on such a packet.
abbrev pub ipv6_action : List ℕ → List Extension → Bool → ℕ → Maps → ℕ
ipv6_action src es udp dport maps =
    if blacklisted (maps.blacklistv6 src)
    then xdp_drop
    else if ltb (length es) 10
    then port_action udp dport maps
    else xdp_drop

-- A transport header with its ports, at least as long as the code wants it.
module _ (udp : Bool) (source_hi source_lo dest_hi dest_lo : ℕ) (content : List ℕ)
    (enough : header_size udp ≤ 4 + length content) where
  abbrev transport : List ℕ
  transport = source_hi ∷ source_lo ∷ dest_hi ∷ dest_lo ∷ content

  check_port-action :
      (maps : Maps)
      → (after : Maps) × (check_port (filter_bit udp) (dest_hi * 256 + dest_lo) maps
          ≡ (port_action udp (dest_hi * 256 + dest_lo) maps, after))
  unfolding check_port
  check_port-action maps =
      let dport = dest_hi * 256 + dest_lo in
      elim (Bool-cases (port_blocked (filter_bit udp) (maps.port_blacklist dport))) [
        | inl blocked ↦ (drop_counted (filter_bit udp) dport maps, rw blocked refl)
        | inr free ↦ (maps, rw free refl)
      ]

  be16-dest :
      (xs : List ℕ) (o : ℕ)
      → length xs ≡ o
      → be16 (xs ++ transport) (o + 2) ≡ some (dest_hi * 256 + dest_lo)
  be16-dest xs o e =
      let step : o + 2 + 1 ≡ o + 3 = omega arith in
      rw (get_elem?-append xs transport o 2 e, ◌>>=◌, step, get_elem?-append xs transport o 3 e)
        refl

  parse_port-transport :
      (xs : List ℕ) (o : ℕ) (maps : Maps)
      → length xs ≡ o
      → parse_port (xs ++ transport) (protocol_number udp) o maps
        ≡ some (check_port (filter_bit udp) (dest_hi * 256 + dest_lo) maps)
  parse_port-transport xs o maps e =
      parse_port-read udp (xs ++ transport) o (dest_hi * 256 + dest_lo) maps
        (omega (arith, e, enough, length-append xs transport)) (be16-dest xs o e)

  module _ (start : List ℕ) (hop : ℕ) (src dst : List ℕ) (es : List Extension)
      (six : length start ≡ 6) (sixteen : length src ≡ 16) (other : length dst ≡ 16)
      (known : All IsExtension es) where
    abbrev next : ℕ
    next = first es (protocol_number udp)

    abbrev tail : List ℕ
    tail = chain es (protocol_number udp) ++ transport

    abbrev head : List ℕ
    head = start ++ (next ∷ hop ∷ (src ++ dst))

    abbrev inside : List ℕ
    inside = ipv6_packet start hop src dst es (protocol_number udp) transport

    abbrev action : Maps → ℕ
    action = ipv6_action src es udp (dest_hi * 256 + dest_lo)

    length-head : length head ≡ 40
    length-head = omega (
      arith,
      six,
      sixteen,
      other,
      length-append start (next ∷ hop ∷ (src ++ dst)),
      length-append src dst,
    )

    module _ (xs : List ℕ) (o : ℕ) (e : length xs ≡ o) where
      abbrev packet : List ℕ
      packet = xs ++ inside

      length-before : length (xs ++ head) ≡ o + 40
      length-before = omega (arith, e, length-head, length-append xs head)

      read-src : bytes_at packet (o + 8) 16 ≡ some src
      read-src =
          ap (λ (p : List ℕ). bytes_at p (o + 8) 16) (regroup_src xs start src dst tail next hop)
          ∙ bytes_at-append (xs ++ (start ++ (next ∷ hop ∷ []))) src (dst ++ tail) (o + 8) 16
              (omega (
                arith,
                e,
                six,
                length-append xs (start ++ (next ∷ hop ∷ [])),
                length-append start (next ∷ hop ∷ []),
              ))
              sixteen

      read-next : get_elem? packet (o + 6) ≡ some next
      read-next =
          let before = xs ++ start in
          let same : o + 6 ≡ o + 6 + 0 = omega arith in
          ap₂ (λ (p : List ℕ) (i : ℕ). get_elem? p i) (regroup_next xs start src dst tail next hop)
            same
          ∙ get_elem?-append before (next ∷ hop ∷ ((src ++ dst) ++ tail)) (o + 6) 0
              (omega (arith, e, six, length-append xs start))

      read-chain :
          extensions packet 10 next (o + 40)
          ≡ ending
              (protocol_number udp)
              (protocol_number-IsLast udp)
              transport
              (length es)
              10
              (o + 40 + length (chain es (protocol_number udp)))
      read-chain =
          ap₂ (λ (p : List ℕ) (k : ℕ). extensions p 10 next k) (sym (append_assoc xs head tail))
            (sym length-before)
          ∙ extensions-chain (protocol_number udp) (protocol_number-IsLast udp) transport es 10
              (xs ++ head) known
          ∙ ap
              (λ (k : ℕ).
                ending (protocol_number udp) (protocol_number-IsLast udp) transport (length es) 10
                  (k + length (chain es (protocol_number udp))))
              length-before

      read-transport :
          (maps : Maps)
          → parse_port packet
              (protocol_number udp)
              (o + 40 + length (chain es (protocol_number udp)))
              maps
            ≡ some (check_port (filter_bit udp) (dest_hi * 256 + dest_lo) maps)
      read-transport maps =
          let links = chain es (protocol_number udp) in
          let k = o + 40 + length links in
          ap (λ (p : List ℕ). parse_port p (protocol_number udp) k maps)
            (sym (append_assoc xs head tail) ∙ sym (append_assoc (xs ++ head) links transport))
          ∙ parse_port-transport ((xs ++ head) ++ links) k maps
              (omega (arith, length-before, length-append (xs ++ head) links))

      drop_v6-packet :
          (maps : Maps) (value : Option ℕ)
          → maps.blacklistv6 src ≡ value
          → (after : Maps) × (drop_v6 packet o src value maps ≡ some (action maps, after))
      unfolding drop_v6 parse_l4
      drop_v6-packet maps (some value) found =
          (record maps { blacklistv6 = add_one bytes_eq maps.blacklistv6 src }, rw found refl)
      drop_v6-packet maps none missing =
          let (after, checked) = check_port-action maps in
          elim (Bool-cases (ltb (length es) 10)) [
            | inl few ↦ (
              after,
              rw (missing, few, read-next, ◌>>=◌, read-chain, few, ◌>>=◌)
                  (read-transport maps ∙ ap some checked),
            )
            | inr many ↦ (maps, rw (missing, many, read-next, ◌>>=◌, read-chain, many, ◌>>=◌) refl)
          ]

      parse_ipv6-packet :
          (maps : Maps) → (after : Maps) × (parse_ipv6 packet o maps ≡ some (action maps, after))
      unfolding parse_ipv6
      parse_ipv6-packet maps =
          let (after, run) = drop_v6-packet maps (maps.blacklistv6 src) refl in
          let one = length-append xs inside in
          let two = length-append head tail in
          let three = length-head in
          let long : ltb (length packet) (o + 40) ≡ false = ground arith in
          (after, rw (long, read-src, ◌>>=◌) run)

    -- For an Ethernet frame with up to two VLAN tags that holds an IPv6 packet with a chain of
    -- extension headers, each a fragment header or one whose length counts units of 8 bytes and so
    -- no Authentication Header, and a whole UDP header, or 20 bytes of TCP, `xdp_prog` returns
    -- `XDP_DROP` if the source is in `blacklistv6`, or the chain has ten headers or more, or the bit
    -- of the protocol is set for the destination port in `port_blacklist`, and otherwise `XDP_PASS`.
    pub xdp_prog-ipv6 :
        (addresses : List ℕ) (tags : List Tag) (maps : Maps)
        → length addresses ≡ 12
        → length tags ≤ 2
        → (after : Maps) × (xdp_prog
              (frame addresses tags 134 221 (
                ipv6_packet start hop src dst es
                  (protocol_number udp)
                  (source_hi ∷ source_lo ∷ dest_hi ∷ dest_lo ∷ content)))
              maps
            ≡ some (ipv6_action src es udp (dest_hi * 256 + dest_lo) maps, after))
    unfolding handle_eth_protocol
    xdp_prog-ipv6 addresses tags maps twelve few =
        let before = l2 addresses tags 134 221 twelve in
        let o = 14 + 4 * length tags in
        let whole = frame addresses tags 134 221 inside in
        let (after, run) =
          parse_ipv6-packet before o (length-l2 addresses tags 134 221 twelve) maps in
        let verdict = action maps in
        let here : parse_ipv6 whole o maps ≡ some (verdict, after) =
          ap (λ (p : List ℕ). parse_ipv6 p o maps) (frame-l2 addresses tags 134 221 twelve inside)
          ∙ run in
        (
          stats_action_verdict verdict after,
          xdp_prog-l3 whole maps after 34525 o verdict
              (parse_eth-frame addresses 134 221 inside twelve tags few (omega arith) refl) here,
        )
