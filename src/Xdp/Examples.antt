-- ===== src/Xdp/Examples.antt =====
-- Frames on which the results apply, and runs of the filter.
use fips_ipc.Prelude.{
  bytes_eq, ◌≡◌, ◌<◌, refl, true, none, some, [], ◌∷◌, ◌++◌, replicate, ℕ, List, ltb, if◌then◌else◌,
  ◌==◌, arith,
}
use mathlib.Core.Option
use fips_ipc.Xdp.{Maps}
use fips_ipc.Xdp.Filter.{is_extension, port_blocked, stats_action_verdict, xdp_prog}
use fips_ipc.Xdp.Bounds.{xdp_prog-in_bounds}
use fips_ipc.Xdp.Frames.{Tag, tagged, frame}
use fips_ipc.Xdp.Chain.{Extension, chain, options, fragment}
use fips_ipc.Xdp.Verdicts.{xdp_prog-ipv4}
use fips_ipc.Xdp.Ipv6.{xdp_prog-ipv6, ipv6_packet}

abbrev intruder : List ℕ
intruder = 10 ∷ 3 ∷ 10 ∷ 42 ∷ []

-- The intruder is banned, and port 53 is closed for UDP.
abbrev maps : Maps
maps = record {
  blacklistv4 = λ k. if bytes_eq k intruder then some 3 else none;
  blacklistv6 = λ k. none;
  verdict_cnt = λ k. if ltb k 5 then some 0 else none;
  port_blacklist = λ k. if k == 53 then some 2 else some 0;
  port_blacklist_drop_count_tcp = λ k. some 0;
  port_blacklist_drop_count_udp = λ k. some 0;
}

abbrev tags : List Tag
tags = record { service = true; control_hi = 0; control_lo = 7 } ∷ []

abbrev addresses : List ℕ
addresses = replicate 12 0

abbrev destination : List ℕ
destination = 10 ∷ 3 ∷ 10 ∷ 43 ∷ []

xdp_prog-in_bounds_example :
    (action : ℕ) × (after : Maps) × (xdp_prog (replicate 13 8) maps ≡ some (action, after))
    × (action < 3)
xdp_prog-in_bounds_example = xdp_prog-in_bounds (replicate 13 8) maps

run_of_nothing : xdp_prog [] maps ≡ some (0, stats_action_verdict 0 maps)
unfolding xdp_prog
run_of_nothing = refl

xdp_prog-ipv4_example :
    (after : Maps) × (xdp_prog
        (frame addresses tags 8 0 (replicate 12 0 ++ (intruder ++ destination)))
        maps
      ≡ some (1, after))
    × (after.blacklistv4 intruder ≡ some 4)
xdp_prog-ipv4_example =
    xdp_prog-ipv4 (replicate 12 0) intruder destination maps refl refl (omega arith) addresses tags
      refl (omega arith)

abbrev links : List Extension
links = options 0 0 (replicate 6 1) ∷ fragment (replicate 7 0) ∷ []

abbrev datagram : List ℕ
datagram = 0 ∷ 12 ∷ 0 ∷ 0 ∷ []

xdp_prog-ipv6_example :
    (after : Maps) × (xdp_prog
        (frame addresses tags 134 221 (
          ipv6_packet
            (replicate 6 0)
            64
            (replicate 16 1)
            (replicate 16 2)
            links
            17
            (4 ∷ 0 ∷ 0 ∷ 53 ∷ datagram)))
        maps
      ≡ some (1, after))
unfolding is_extension port_blocked
xdp_prog-ipv6_example =
    xdp_prog-ipv6 true 4 0 0 53 datagram (omega arith) (replicate 6 0) 64 (replicate 16 1)
      (replicate 16 2) links refl refl refl ((refl, omega arith, refl), (refl, tt)) addresses tags
      maps refl (omega arith)

-- A datagram to the closed port behind an Authentication Header of 12 bytes: the filter takes the
-- header for one of 16 bytes, reads the checksum of the datagram as its port and lets it pass.
run_past_authentication :
    Option.map
      (λ r. r.0)
      (xdp_prog
        (frame addresses tags 134 221 (
          ipv6_packet
            (replicate 6 0)
            64
            (replicate 16 1)
            (replicate 16 2)
            []
            51
            (17 ∷ 1 ∷ (replicate 10 0 ++ (4 ∷ 0 ∷ 0 ∷ 53 ∷ (datagram ++ replicate 4 0))))))
        maps)
    ≡ some 2
unfolding xdp_prog tagged chain
run_past_authentication = refl
