-- ===== src/Xdp/Frames.antt =====
-- Ethernet frames written out, with VLAN tags, and `parse_eth` on them.
use fips_ipc.Prelude.{
  ℕ, ◌+◌, ◌*◌, ◌≤◌, ◌≡◌, refl, Bool, true, false, ltb, if◌then◌else◌, Option, some, List, [], ◌∷◌,
  ◌++◌, length, length-append, arith,
}
use fips_ipc.Xdp.{◌>>=◌, be16}
use fips_ipc.Xdp.Eth.{is_vlan, untag, untag_again, eth_result, parse_eth}
use fips_ipc.Xdp.Reads.{get_elem?-append}

-- A VLAN tag: the type of a service tag or of a customer tag, and the two bytes of control data.
pub record Tag : Type 0 where
  pub service : Bool
  pub control_hi : ℕ
  pub control_lo : ℕ

abbrev pub tpid : Tag → ℕ
tpid tag = (if tag.service then 136 else 129) * 256 + (if tag.service then 168 else 0)

unfoldable pub tagged : List Tag → List ℕ → List ℕ
tagged [] rest = rest
tagged (tag ∷ tags) rest =
    (if tag.service then 136 else 129)
    ∷ (if tag.service then 168 else 0)
    ∷ tag.control_hi
    ∷ tag.control_lo
    ∷ tagged tags rest

-- A frame: the addresses, the tags, the type and the packet inside.
abbrev pub frame : List ℕ → List Tag → ℕ → ℕ → List ℕ → List ℕ
frame addresses tags hi lo payload = addresses ++ tagged tags (hi ∷ lo ∷ payload)

pub length-tagged :
    (tags : List Tag) (rest : List ℕ) → length (tagged tags rest) ≡ 4 * length tags + length rest
unfolding tagged
length-tagged [] rest = omega arith
length-tagged (tag ∷ tags) rest = omega (arith, length-tagged tags rest)

be16-append : (xs ys : List ℕ) (n i : ℕ) → length xs ≡ n → be16 (xs ++ ys) (n + i) ≡ be16 ys i
be16-append xs ys n i e =
    rw
      (
        get_elem?-append xs ys n i e,
        (let step : n + i + 1 ≡ n + (i + 1) = omega arith in step),
        get_elem?-append xs ys n (i + 1) e,
      )
      refl

is_vlan-tpid : (tag : Tag) → is_vlan (tpid tag) ≡ true
is_vlan-tpid tag = ground arith

untag-tag :
    (packet : List ℕ) (tag : Tag) (o inner : ℕ)
    → o + 4 ≤ length packet
    → be16 packet (o + 2) ≡ some inner
    → untag packet (tpid tag, o) ≡ some (some (inner, o + 4))
unfolding untag
untag-tag packet tag o inner fits read =
    rw
      (
        is_vlan-tpid tag,
        (let long : ltb (length packet) (o + 4) ≡ false = ground arith in long),
        read,
        ◌>>=◌,
      )
      refl

untag-plain :
    (packet : List ℕ) (t o : ℕ) → is_vlan t ≡ false → untag packet (t, o) ≡ some (some (t, o))
unfolding untag
untag-plain packet t o plain = rw plain refl

parse_eth-steps :
    (packet : List ℕ) (eth_type : ℕ) (once twice : Option (ℕ × ℕ))
    → 14 ≤ length packet
    → be16 packet 12 ≡ some eth_type
    → 1536 ≤ eth_type
    → untag packet (eth_type, 14) ≡ some once
    → untag_again packet once ≡ some twice
    → parse_eth packet ≡ some (eth_result twice)
unfolding parse_eth
parse_eth-steps packet eth_type once twice fits read new e f =
    let long : ltb (length packet) 14 ≡ false = ground arith in
    let big : ltb eth_type 1536 ≡ false = ground arith in
    rw (long, read, ◌>>=◌, big, e, ◌>>=◌, f) refl

module _ (addresses : List ℕ) (hi lo : ℕ) (payload : List ℕ) (twelve : length addresses ≡ 12) where
  length-frame :
      (tags : List Tag)
      → length (frame addresses tags hi lo payload) ≡ 14 + 4 * length tags + length payload
  length-frame tags = omega (
    arith,
    twelve,
    length-append addresses (tagged tags (hi ∷ lo ∷ payload)),
    length-tagged tags (hi ∷ lo ∷ payload),
  )

  type_at :
      (tags : List Tag) (i : ℕ)
      → be16 (frame addresses tags hi lo payload) (12 + i)
        ≡ be16 (tagged tags (hi ∷ lo ∷ payload)) i
  type_at tags i = be16-append addresses (tagged tags (hi ∷ lo ∷ payload)) 12 i twelve

  tpid_big : (tag : Tag) → 1536 ≤ tpid tag
  tpid_big tag = ground arith

  pub parse_eth-frame :
      (tags : List Tag)
      → length tags ≤ 2
      → 1536 ≤ hi * 256 + lo
      → is_vlan (hi * 256 + lo) ≡ false
      → parse_eth (frame addresses tags hi lo payload)
        ≡ some (5, hi * 256 + lo, 14 + 4 * length tags)
  unfolding eth_result untag_again tagged
  parse_eth-frame [] few new plain =
      let packet = frame addresses [] hi lo payload in
      parse_eth-steps packet (hi * 256 + lo) _ (some (hi * 256 + lo, 14))
        (omega (arith, length-frame [])) (type_at [] 0) new
        (untag-plain packet (hi * 256 + lo) 14 plain) (untag-plain packet (hi * 256 + lo) 14 plain)
  parse_eth-frame (a ∷ []) few new plain =
      let packet = frame addresses (a ∷ []) hi lo payload in
      let size = length-frame (a ∷ []) in
      parse_eth-steps packet (tpid a) _ (some (hi * 256 + lo, 18)) (omega (arith, size))
        (type_at (a ∷ []) 0) (tpid_big a)
        (untag-tag packet a 14 (hi * 256 + lo) (omega (arith, size)) (type_at (a ∷ []) 4))
        (untag-plain packet (hi * 256 + lo) 18 plain)
  parse_eth-frame (a ∷ b ∷ []) few new plain =
      let packet = frame addresses (a ∷ b ∷ []) hi lo payload in
      let size = length-frame (a ∷ b ∷ []) in
      parse_eth-steps packet (tpid a) _ (some (hi * 256 + lo, 22)) (omega (arith, size))
        (type_at (a ∷ b ∷ []) 0) (tpid_big a)
        (untag-tag packet a 14 (tpid b) (omega (arith, size)) (type_at (a ∷ b ∷ []) 4))
        (untag-tag packet b 18 (hi * 256 + lo) (omega (arith, size)) (type_at (a ∷ b ∷ []) 8))
  parse_eth-frame (a ∷ b ∷ c ∷ tags) few new plain = absurd (omega arith)
