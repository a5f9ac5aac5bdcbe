-- ===== src/Xdp/Bounds.antt =====
-- `xdp_prog` on packets of any length.
use fips_ipc.Prelude.{
  bytes_eq, ℕ, zero, suc, ◌+◌, ◌*◌, ◌≤◌, ◌<◌, ◌≡◌, ◌≢◌, refl, sym, ◌∙◌, ap, ◌⊎◌, inl, inr, true,
  false, ltb, ◌==◌, if◌then◌else◌, Option, none, some, List, get_or, length, Bool-cases, arith,
}
use mathlib.Core.Option.{some-injective}
use fips_ipc.Xdp.{Maps, add_one, incremented, ◌>>=◌, be16}
use fips_ipc.Xdp.Eth.{is_vlan, untag, untag_again, eth_result, parse_eth}
use fips_ipc.Xdp.Filter.{
  drop_counted, check_port, parse_port, port_blocked, stats_action_verdict, count_local, drop_v4,
  parse_ipv4, is_extension, extensions, parse_l4, drop_v6, parse_ipv6, handle_eth_protocol,
  count_verdict, xdp_prog,
}
use fips_ipc.Xdp.Reads.{get_elem?-read, be16-read, bytes_at-read}

pub untag_total :
    (packet : List ℕ) (t o : ℕ) → (found : Option (ℕ × ℕ)) × (untag packet (t, o) ≡ some found)
unfolding untag
untag_total packet t o = elim (Bool-cases (is_vlan t)) [
  | inl v ↦ elim (Bool-cases (ltb (length packet) (o + 4))) [
    | inl short ↦ (none, rw (v, short) refl)
    | inr long ↦ (
      some (get_or packet (o + 2) 0 * 256 + get_or packet (o + 2 + 1) 0, o + 4),
      rw (v, long, be16-read packet (o + 2) (ground arith)) refl,
    )
  ]
  | inr plain ↦ (some (t, o), rw plain refl)
]

untag_again_total :
    (packet : List ℕ) (once : Option (ℕ × ℕ))
    → (found : Option (ℕ × ℕ)) × (untag_again packet once ≡ some found)
unfolding untag_again
untag_again_total packet none = (none, refl)
untag_again_total packet (some (t, o)) = untag_total packet t o

-- The action of `parse_eth`: the end of the program, or 5.
IsCode : ℕ → Type 0
IsCode code = (code < 3) ⊎ (code ≡ 5)

eth_result-IsCode : (found : Option (ℕ × ℕ)) → IsCode ((eth_result found).0)
unfolding eth_result IsCode
eth_result-IsCode none = inl (omega arith)
eth_result-IsCode (some (t, o)) = inr refl

pub parse_eth_total :
    (packet : List ℕ) → (r : ℕ × ℕ × ℕ) × (parse_eth packet ≡ some r) × ((r.0 < 3) ⊎ (r.0 ≡ 5))
unfolding parse_eth IsCode
parse_eth_total packet = elim (Bool-cases (ltb (length packet) 14)) [
  | inl short ↦ ((0, 0, 0), rw short refl, inl (omega arith))
  | inr long ↦
      let eth_type = get_or packet 12 0 * 256 + get_or packet 13 0 in
      let read : be16 packet 12 ≡ some eth_type = be16-read packet 12 (ground arith) in
      elim (Bool-cases (ltb eth_type 1536)) [
        | inl old ↦ ((2, 0, 0), rw (long, read, ◌>>=◌, old) refl, inl (omega arith))
        | inr new ↦
            let (once, e) = untag_total packet eth_type 14 in
            let (twice, f) = untag_again_total packet once in
            (
              eth_result twice,
              rw (long, read, ◌>>=◌, new, e, ◌>>=◌, f) refl,
              eth_result-IsCode twice,
            )
      ]
]

-- The action is `XDP_ABORTED`, `XDP_DROP` or `XDP_PASS`, and no read is past the packet.
-- The counts of verdicts are those before, but at 4.
abbrev pub IsDecided : Maps → Option (ℕ × Maps) → Type 0
IsDecided before r =
    (action : ℕ) × (after : Maps) × (r ≡ some (action, after))
    × (action < 3)
    × ((k : ℕ) → k ≢ 4 → after.verdict_cnt k ≡ before.verdict_cnt k)

decided : (action : ℕ) (maps : Maps) → action < 3 → IsDecided maps (some (action, maps))
decided action maps h = (action, maps, refl, h, λ k n. refl)

drop_counted-verdict_cnt :
    (fproto dport : ℕ) (maps : Maps) (k : ℕ)
    → (drop_counted fproto dport maps).verdict_cnt k ≡ maps.verdict_cnt k
unfolding drop_counted
drop_counted-verdict_cnt fproto dport maps k = ground arith

count_local-verdict_cnt :
    (ip_src : List ℕ) (maps : Maps) (k : ℕ)
    → k ≢ 4
    → (count_local ip_src maps).verdict_cnt k ≡ maps.verdict_cnt k
unfolding count_local
count_local-verdict_cnt ip_src maps k n = ground arith

check_port-IsDecided :
    (fproto dport : ℕ) (maps : Maps) → IsDecided maps (some (check_port fproto dport maps))
unfolding check_port
check_port-IsDecided fproto dport maps =
    elim (Bool-cases (port_blocked fproto (maps.port_blacklist dport))) [
      | inl blocked ↦ rw blocked (
        1,
        drop_counted fproto dport maps,
        refl,
        omega arith,
        λ k n. drop_counted-verdict_cnt fproto dport maps k,
      )
      | inr open_port ↦ rw open_port (decided 2 _ (omega arith))
    ]

parse_port-IsDecided :
    (packet : List ℕ) (proto hdr : ℕ) (maps : Maps)
    → IsDecided maps (parse_port packet proto hdr maps)
unfolding parse_port
parse_port-IsDecided packet proto hdr maps = elim (Bool-cases (proto == 17)) [
  | inl udp ↦ elim (Bool-cases (ltb (length packet) (hdr + 8))) [
    | inl short ↦ rw (udp, short) (decided 0 maps (omega arith))
    | inr long ↦
        rw (udp, long, be16-read packet (hdr + 2) (ground arith), ◌>>=◌)
          (check_port-IsDecided 1 _ maps)
  ]
  | inr other ↦ elim (Bool-cases (proto == 6)) [
    | inl tcp ↦ elim (Bool-cases (ltb (length packet) (hdr + 20))) [
      | inl short ↦ rw (other, tcp, short) (decided 0 maps (omega arith))
      | inr long ↦
          rw (other, tcp, long, be16-read packet (hdr + 2) (ground arith), ◌>>=◌)
            (check_port-IsDecided 0 _ maps)
    ]
    | inr neither ↦ rw (other, neither) (decided 2 maps (omega arith))
  ]
]

drop_v4-IsDecided :
    (ip_src : List ℕ) (value : Option ℕ) (maps : Maps)
    → IsDecided maps (some (drop_v4 ip_src value (count_local ip_src maps)))
unfolding drop_v4
drop_v4-IsDecided ip_src none maps =
    (2, count_local ip_src maps, refl, omega arith, count_local-verdict_cnt ip_src maps)
drop_v4-IsDecided ip_src (some value) maps =
    let count_verdict = count_local ip_src maps in
    (
      1,
      record count_verdict { blacklistv4 = add_one bytes_eq count_verdict.blacklistv4 ip_src },
      refl,
      omega arith,
      count_local-verdict_cnt ip_src maps,
    )

parse_ipv4-IsDecided :
    (packet : List ℕ) (l3_offset : ℕ) (maps : Maps)
    → IsDecided maps (parse_ipv4 packet l3_offset maps)
unfolding parse_ipv4
parse_ipv4-IsDecided packet l3_offset maps =
    elim (Bool-cases (ltb (length packet) (l3_offset + 20))) [
      | inl short ↦ rw short (decided 0 maps (omega arith))
      | inr long ↦
          rw (long, bytes_at-read packet (l3_offset + 12) 4 (ground arith), ◌>>=◌)
            (drop_v4-IsDecided _ _ _)
    ]

-- What the loop over the extension headers finds, with an action below 3.
IsFound : Option (ℕ ⊎ (ℕ × ℕ)) → Type 0
IsFound r =
    ((action : ℕ) × (r ≡ some (inl action)) × (action < 3))
    ⊎ ((protocol offset : ℕ) × (r ≡ some (inr (protocol, offset))))

extensions-IsFound :
    (packet : List ℕ) (rounds protocol l4_offset : ℕ)
    → IsFound (extensions packet rounds protocol l4_offset)
unfolding extensions IsFound
extensions-IsFound packet zero protocol l4_offset = inl (1, refl, omega arith)
extensions-IsFound packet (suc rounds) protocol l4_offset = elim (Bool-cases (ltb 143 protocol)) [
  | inl unassigned ↦ rw unassigned (inl (1, refl, omega arith))
  | inr assigned ↦ elim (Bool-cases (protocol == 44)) [
    | inl fragment ↦ elim (Bool-cases (ltb (length packet) (l4_offset + 8))) [
      | inl short ↦ rw (assigned, fragment, short) (inl (0, refl, omega arith))
      | inr long ↦
          rw (assigned, fragment, long, get_elem?-read packet l4_offset (ground arith), ◌>>=◌)
            (extensions-IsFound packet rounds _ _)
    ]
    | inr whole ↦ elim (Bool-cases (is_extension protocol)) [
      | inl extension ↦ elim (Bool-cases (ltb (length packet) (l4_offset + 4))) [
        | inl short ↦ rw (assigned, whole, extension, short) (inl (0, refl, omega arith))
        | inr long ↦
            rw
              (
                assigned,
                whole,
                extension,
                long,
                get_elem?-read packet l4_offset (ground arith),
                ◌>>=◌,
                get_elem?-read packet (l4_offset + 1) (ground arith),
                ◌>>=◌,
              )
              (extensions-IsFound packet rounds _ _)
      ]
      | inr last ↦ rw (assigned, whole, last) (inr (protocol, l4_offset, refl))
    ]
  ]
]

drop_v6-IsDecided :
    (packet : List ℕ) (l3_offset : ℕ) (ip_src : List ℕ) (value : Option ℕ) (maps : Maps)
    → l3_offset + 40 ≤ length packet
    → IsDecided maps (drop_v6 packet l3_offset ip_src value maps)
unfolding drop_v6 IsFound parse_l4
drop_v6-IsDecided packet l3_offset ip_src (some value) maps h = (
  1,
  record maps { blacklistv6 = add_one bytes_eq maps.blacklistv6 ip_src },
  refl,
  omega arith,
  λ k n. refl,
)
drop_v6-IsDecided packet l3_offset ip_src none maps h =
    let protocol = get_or packet (l3_offset + 6) 0 in
    rw (get_elem?-read packet (l3_offset + 6) (omega arith), ◌>>=◌)
      (elim (extensions-IsFound packet 10 protocol (l3_offset + 40)) [
        | inl (action, e, small) ↦ rw (e, ◌>>=◌) (decided action maps small)
        | inr (last, offset, e) ↦ rw (e, ◌>>=◌) (parse_port-IsDecided packet last offset maps)
      ])

parse_ipv6-IsDecided :
    (packet : List ℕ) (l3_offset : ℕ) (maps : Maps)
    → IsDecided maps (parse_ipv6 packet l3_offset maps)
unfolding parse_ipv6
parse_ipv6-IsDecided packet l3_offset maps =
    elim (Bool-cases (ltb (length packet) (l3_offset + 40))) [
      | inl short ↦ rw short (decided 0 maps (omega arith))
      | inr long ↦
          rw (long, bytes_at-read packet (l3_offset + 8) 16 (ground arith), ◌>>=◌)
            (drop_v6-IsDecided packet l3_offset _ _ maps (ground arith))
    ]

pub handle_eth_protocol-IsDecided :
    (packet : List ℕ) (eth_proto l3_offset : ℕ) (maps : Maps)
    → IsDecided maps (handle_eth_protocol packet eth_proto l3_offset maps)
unfolding handle_eth_protocol
handle_eth_protocol-IsDecided packet eth_proto l3_offset maps =
    elim (Bool-cases (eth_proto == 2048)) [
      | inl v4 ↦ rw v4 (parse_ipv4-IsDecided packet l3_offset maps)
      | inr other ↦ elim (Bool-cases (eth_proto == 34525)) [
        | inl v6 ↦ rw (other, v6) (parse_ipv6-IsDecided packet l3_offset maps)
        | inr neither ↦ rw (other, neither) (decided 2 maps (omega arith))
      ]
    ]

-- `stats_action_verdict` for an action below 3.
stats_action_verdict-counts :
    (action : ℕ) (before after : Maps) (k : ℕ)
    → action < 3
    → after.verdict_cnt k ≡ before.verdict_cnt k
    → (stats_action_verdict action after).verdict_cnt k
      ≡ (if k == action then incremented (before.verdict_cnt k) else before.verdict_cnt k)
unfolding stats_action_verdict
stats_action_verdict-counts action before after k small same = ground arith

abbrev pub IsRun : Maps → Option (ℕ × Maps) → Type 0
IsRun before r =
    (action : ℕ) × (after : Maps) × (r ≡ some (action, after))
    × (action < 3)
    × ((k : ℕ)
        → k ≢ 4
        → after.verdict_cnt k
          ≡ (if k == action then incremented (before.verdict_cnt k) else before.verdict_cnt k))

pub xdp_prog-IsRun : (packet : List ℕ) (maps : Maps) → IsRun maps (xdp_prog packet maps)
unfolding xdp_prog count_verdict
xdp_prog-IsRun packet maps =
    let ((code, eth_proto, l3_offset), e, range) = parse_eth_total packet in
    elim range [
      | inl small ↦ (
        code,
        stats_action_verdict code maps,
        rw (e, ◌>>=◌, (let t : ltb code 5 ≡ true = ground arith in t)) refl,
        small,
        λ k n. stats_action_verdict-counts code maps maps k small refl,
      )
      | inr five ↦
          let (action, after, f, small, same) =
            handle_eth_protocol-IsDecided packet eth_proto l3_offset maps in
          (
            action,
            stats_action_verdict action after,
            rw (e, ◌>>=◌, (let t : ltb code 5 ≡ false = ground arith in t), f, ◌>>=◌) refl,
            small,
            λ k n. stats_action_verdict-counts action maps after k small (same k n),
          )
    ]

-- For a packet of any length and any contents, and any contents of the maps, `xdp_prog` reads no
-- byte behind the end of the packet, and returns `XDP_ABORTED`, `XDP_DROP` or `XDP_PASS`.
pub xdp_prog-in_bounds :
    (packet : List ℕ) (maps : Maps)
    → (action : ℕ) × (after : Maps) × (xdp_prog packet maps ≡ some (action, after)) × (action < 3)
xdp_prog-in_bounds packet maps =
    let (action, after, e, small, same) = xdp_prog-IsRun packet maps in (action, after, e, small)

-- When `xdp_prog` returns an action, the count of this action in `verdict_cnt` has gone up by one,
-- if there is one, and every other count is as before, except perhaps the one at 4, which counts
-- packets of a network.
pub xdp_prog-counts :
    (packet : List ℕ) (maps after : Maps) (action k : ℕ)
    → xdp_prog packet maps ≡ some (action, after)
    → k ≢ 4
    → after.verdict_cnt k
      ≡ (if k == action then incremented (maps.verdict_cnt k) else maps.verdict_cnt k)
xdp_prog-counts packet maps after action k e n =
    let (decision, final, f, small, same) = xdp_prog-IsRun packet maps in
    let both : ◌≡◌ {A = ℕ × Maps} (decision, final) (action, after) =
      some-injective (decision, final) (action, after) (sym f ∙ e) in
    let one : decision ≡ action = ap (λ (r : ℕ × Maps). r.0) both in
    let two : final ≡ after = ap (λ (r : ℕ × Maps). r.1) both in rw (← two, ← one) (same k n)
