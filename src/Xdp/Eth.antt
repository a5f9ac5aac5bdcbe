-- ===== src/Xdp/Eth.antt =====
-- `parse_eth`.
use fips_ipc.Prelude.{
  ℕ, ◌+◌, Bool, ◌||◌, Option, none, some, List, ◌==◌, ltb, if◌then◌else◌, length,
}
use fips_ipc.Xdp.{◌>>=◌, be16, xdp_aborted, xdp_pass}

-- `ETH_P_8021Q` or `ETH_P_8021AD`
abbrev pub is_vlan : ℕ → Bool
is_vlan eth_type = eth_type == 33024 || eth_type == 34984

-- One `if` for a VLAN tag: the type and the offset past it, the inner `none` for a packet that ends.
unfoldable pub untag : List ℕ → ℕ × ℕ → Option (Option (ℕ × ℕ))
untag packet (eth_type, offset) =
    if is_vlan eth_type
    then (if ltb (length packet) (offset + 4)
        then some none
        else do inner ← be16 packet (offset + 2); some (some (inner, offset + 4)))
    else some (some (eth_type, offset))

unfoldable pub untag_again : List ℕ → Option (ℕ × ℕ) → Option (Option (ℕ × ℕ))
unfolding untag
untag_again packet none = some none
untag_again packet (some found) = untag packet found

-- What is returned with `*eth_proto` and `*l3_offset`.
unfoldable pub eth_result : Option (ℕ × ℕ) → ℕ × ℕ × ℕ
eth_result none = (xdp_aborted, 0, 0)
eth_result (some (eth_type, offset)) = (5, eth_type, offset)

unfoldable pub parse_eth : List ℕ → Option (ℕ × ℕ × ℕ)
unfolding untag untag_again eth_result
parse_eth packet = if ltb (length packet) 14 then some (xdp_aborted, 0, 0) else do
  eth_type ← be16 packet 12
  if ltb eth_type 1536 then some (xdp_pass, 0, 0) else do
    once ← untag packet (eth_type, 14)
    twice ← untag_again packet once
    some (eth_result twice)
