-- ===== src/Xdp/Filter.antt =====
-- `parse_port`, `parse_ipv4`, `parse_ipv6`, `handle_eth_protocol` and `xdp_prog`.
use fips_ipc.Prelude.{
  bytes_eq, ℕ, zero, suc, ◌+◌, ◌*◌, ◌/◌, ◌%◌, ◌^◌, ◌⊎◌, inl, inr, Bool, false, ◌||◌, Option, none,
  some, List, [], ◌∷◌, ◌==◌, ltb, leb, if◌then◌else◌, get_elem?, length, take,
}
use fips_ipc.Xdp.{
  Maps, add_one, ◌>>=◌, be16, bytes_at, xdp_aborted, xdp_drop, xdp_pass, xdp_action_max,
}
use fips_ipc.Xdp.Eth.{parse_eth}

abbrev pub ddos_filter_tcp : ℕ
ddos_filter_tcp = 0

abbrev pub ddos_filter_udp : ℕ
ddos_filter_udp = 1

-- `drop_count_by_fproto`, and the increment at the map that it selects.
unfoldable pub drop_counted : ℕ → ℕ → Maps → Maps
drop_counted fproto dport maps =
    if fproto == ddos_filter_udp
    then record maps {
      port_blacklist_drop_count_udp = add_one ◌==◌ maps.port_blacklist_drop_count_udp dport;
    }
    else if fproto == ddos_filter_tcp
    then record maps {
      port_blacklist_drop_count_tcp = add_one ◌==◌ maps.port_blacklist_drop_count_tcp dport;
    }
    else maps

-- `*value & (1 << fproto)` for the value found, of which 32 bits are read.
unfoldable pub port_blocked : ℕ → Option ℕ → Bool
port_blocked fproto none = false
port_blocked fproto (some value) = value % 2 ^ 32 / 2 ^ fproto % 2 == 1

unfoldable pub check_port : ℕ → ℕ → Maps → ℕ × Maps
unfolding drop_counted port_blocked
check_port fproto dport maps =
    if port_blocked fproto (maps.port_blacklist dport)
    then (xdp_drop, drop_counted fproto dport maps)
    else (xdp_pass, maps)

unfoldable pub parse_port : List ℕ → ℕ → ℕ → Maps → Option (ℕ × Maps)
unfolding check_port
parse_port packet proto hdr maps =
    if proto == 17
    then (if ltb (length packet) (hdr + 8)
        then some (xdp_aborted, maps)
        else do dport ← be16 packet (hdr + 2); some (check_port ddos_filter_udp dport maps))
    else if proto == 6
    then (if ltb (length packet) (hdr + 20)
        then some (xdp_aborted, maps)
        else do dport ← be16 packet (hdr + 2); some (check_port ddos_filter_tcp dport maps))
    else some (xdp_pass, maps)

-- The `if` for the network 10.3.30.0/24.
unfoldable pub count_local : List ℕ → Maps → Maps
count_local ip_src maps =
    if bytes_eq (take 3 ip_src) (10 ∷ 3 ∷ 30 ∷ [])
    then record maps { verdict_cnt = add_one ◌==◌ maps.verdict_cnt 4 }
    else maps

unfoldable pub drop_v4 : List ℕ → Option ℕ → Maps → ℕ × Maps
drop_v4 ip_src none maps = (xdp_pass, maps)
drop_v4 ip_src (some value) maps =
    (xdp_drop, record maps { blacklistv4 = add_one bytes_eq maps.blacklistv4 ip_src })

-- The call of `parse_port` after `return XDP_PASS` is never reached.
unfoldable pub parse_ipv4 : List ℕ → ℕ → Maps → Option (ℕ × Maps)
unfolding count_local drop_v4
parse_ipv4 packet l3_offset maps =
    if ltb (length packet) (l3_offset + 20) then some (xdp_aborted, maps) else do
      ip_src ← bytes_at packet (l3_offset + 12) 4
      some (drop_v4 ip_src (maps.blacklistv4 ip_src) (count_local ip_src maps))

-- The `case` labels of extension headers other than the fragment header.
unfoldable pub is_extension : ℕ → Bool
is_extension protocol =
    protocol == 0
    || protocol == 43
    || protocol == 51
    || protocol == 60
    || protocol == 135
    || protocol == 139
    || protocol == 140

-- The loop over the extension headers with the rounds left: an action, or the protocol and the
-- offset with which `parse_port` is called. The check of an extension header is of the size of an
-- `int`.
unfoldable pub extensions : List ℕ → ℕ → ℕ → ℕ → Option (ℕ ⊎ (ℕ × ℕ))
unfolding is_extension
extensions packet zero protocol l4_offset = some (inl xdp_drop)
extensions packet (suc rounds) protocol l4_offset =
    if ltb 143 protocol
    then some (inl xdp_drop)
    else if protocol == 44
    then (if ltb (length packet) (l4_offset + 8) then some (inl xdp_aborted) else do
      nexthdr ← get_elem? packet l4_offset
      extensions packet rounds nexthdr (l4_offset + 8))
    else if is_extension protocol
    then (if ltb (length packet) (l4_offset + 4) then some (inl xdp_aborted) else do
      nexthdr ← get_elem? packet l4_offset
      hdrlen ← get_elem? packet (l4_offset + 1)
      extensions packet rounds nexthdr (l4_offset + (hdrlen * 8 + 8)))
    else some (inr (protocol, l4_offset))

unfoldable pub parse_l4 : List ℕ → Maps → ℕ ⊎ (ℕ × ℕ) → Option (ℕ × Maps)
unfolding parse_port
parse_l4 packet maps (inl action) = some (action, maps)
parse_l4 packet maps (inr (protocol, l4_offset)) = parse_port packet protocol l4_offset maps

-- What follows the lookup of the source.
unfoldable pub drop_v6 : List ℕ → ℕ → List ℕ → Option ℕ → Maps → Option (ℕ × Maps)
unfolding extensions parse_l4
drop_v6 packet l3_offset ip_src (some value) maps =
    some (xdp_drop, record maps { blacklistv6 = add_one bytes_eq maps.blacklistv6 ip_src })
drop_v6 packet l3_offset ip_src none maps = do
  protocol ← get_elem? packet (l3_offset + 6)
  found ← extensions packet 10 protocol (l3_offset + 40)
  parse_l4 packet maps found

unfoldable pub parse_ipv6 : List ℕ → ℕ → Maps → Option (ℕ × Maps)
unfolding drop_v6
parse_ipv6 packet l3_offset maps =
    if ltb (length packet) (l3_offset + 40) then some (xdp_aborted, maps) else do
      ip_src ← bytes_at packet (l3_offset + 8) 16
      drop_v6 packet l3_offset ip_src (maps.blacklistv6 ip_src) maps

unfoldable pub handle_eth_protocol : List ℕ → ℕ → ℕ → Maps → Option (ℕ × Maps)
unfolding parse_ipv4 parse_ipv6
handle_eth_protocol packet eth_proto l3_offset maps =
    if eth_proto == 2048
    then parse_ipv4 packet l3_offset maps
    else if eth_proto == 34525
    then parse_ipv6 packet l3_offset maps
    else some (xdp_pass, maps)

unfoldable pub stats_action_verdict : ℕ → Maps → Maps
stats_action_verdict action maps =
    if leb xdp_action_max action
    then maps
    else record maps { verdict_cnt = add_one ◌==◌ maps.verdict_cnt action }

unfoldable pub count_verdict : ℕ × Maps → ℕ × Maps
unfolding stats_action_verdict
count_verdict (action, maps) = (action, stats_action_verdict action maps)

unfoldable pub xdp_prog : List ℕ → Maps → Option (ℕ × Maps)
unfolding parse_eth handle_eth_protocol count_verdict
xdp_prog packet maps = do
  (action, eth_proto, l3_offset) ← parse_eth packet
  if ltb action 5 then some (count_verdict (action, maps)) else do
    verdict ← handle_eth_protocol packet eth_proto l3_offset maps
    some (count_verdict verdict)
