-- ===== src/Xdp.antt =====
-- src/lib/ip_blacklist.bpf.c: the maps of the XDP filter, and reads of the packet.
pub mod Eth
pub mod Filter
mod Frames
mod Reads
mod Bounds
mod Chain
mod Verdicts
mod Ipv6
mod Examples
use fips_ipc.Prelude.{
  ℕ, zero, suc, ◌+◌, ◌*◌, ◌%◌, ◌^◌, Bool, true, false, ◌&&◌, Option, none, some, List, [], ◌∷◌,
  ◌==◌, ltb, leb, if◌then◌else◌, get_elem?, length, take, drop,
}

-- A map of the kernel on this CPU: the answer to a lookup, a cell's value or nothing.
abbrev pub Map : Type 0 → Type 0
Map K = K → Option ℕ

-- The maps of the build without DEBUG, SUBNET and LONGTERM; keys that are addresses are bytes.
pub record Maps : Type 0 where
  pub blacklistv4 : Map (List ℕ)
  pub blacklistv6 : Map (List ℕ)
  pub verdict_cnt : Map ℕ
  pub port_blacklist : Map ℕ
  pub port_blacklist_drop_count_tcp : Map ℕ
  pub port_blacklist_drop_count_udp : Map ℕ

abbrev pub incremented : Option ℕ → Option ℕ
incremented none = none
incremented (some v) = some ((v + 1) % 2 ^ 64)

-- `value = bpf_map_lookup_elem(&map, &key); if (value) *value += 1;`
abbrev pub add_one : {K : Type 0} → (K → K → Bool) → Map K → K → Map K
add_one same map key = λ k. if same k key then incremented (map k) else map k

infixl 5 ◌>>=◌
abbrev pub ◌>>=◌ : {A B : Type 0} → Option A → (A → Option B) → Option B
none >>= f = none
some a >>= f = f a

-- A field of 16 bits in network order, as `bpf_ntohs` gives it; `none` is a read past the packet.
abbrev pub be16 : List ℕ → ℕ → Option ℕ
be16 packet start = do
  hi ← get_elem? packet start
  lo ← get_elem? packet (start + 1)
  some (hi * 256 + lo)

-- `n` bytes of the packet.
abbrev pub bytes_at : List ℕ → ℕ → ℕ → Option (List ℕ)
bytes_at packet start n =
    if ltb (length packet) (start + n) then none else some (take n (drop start packet))

abbrev pub xdp_aborted : ℕ
xdp_aborted = 0

abbrev pub xdp_drop : ℕ
xdp_drop = 1

abbrev pub xdp_pass : ℕ
xdp_pass = 2

-- `XDP_TX + 2`
abbrev pub xdp_action_max : ℕ
xdp_action_max = 5
