-- ===== src/IpToStr/Examples.antt =====
-- The conversion of one address.
use fips_ipc.Prelude.{◌≡◌, ◌≤◌, arith, [], ◌∷◌, length}
use fips_ipc.IpToStr.{ipv4_to_str}
use fips_ipc.Prelude.{ℕ, List, some, refl}
use fips_ipc.IpToStr.V6.{ipv6_to_str, ipv6_to_str_fancy}
use fips_ipc.IpToStr.HexPairs.{read_pairs, ipv6_to_str-roundtrip}
use fips_ipc.IpToStr.Decimal.{read_numbers, ipv4_to_str-roundtrip}

ipv4_to_str-roundtrip_example :
    let (len, dst) = ipv4_to_str (192 ∷ 0 ∷ 20 ∷ 7 ∷ []) in
    (read_numbers 0 dst ≡ 192 ∷ 0 ∷ 20 ∷ 7 ∷ []) × (len ≡ length dst) × (length dst ≤ 15)
ipv4_to_str-roundtrip_example =
    ipv4_to_str-roundtrip 192 0 20 7 (omega arith) (omega arith) (omega arith) (omega arith)

-- 2001:db8::1:2
abbrev documented : List ℕ
documented = 0x20 ∷ 0x01 ∷ 0x0d ∷ 0xb8 ∷ 0 ∷ 0 ∷ 0 ∷ 0 ∷ 0 ∷ 0 ∷ 0 ∷ 0 ∷ 0 ∷ 1 ∷ 0 ∷ 2 ∷ []

ipv6_to_str-roundtrip_example :
    let (len, dst) = ipv6_to_str documented in
    (read_pairs dst ≡ documented) × (len ≡ 39) × (length dst ≡ 39)
ipv6_to_str-roundtrip_example = ipv6_to_str-roundtrip documented refl (omega arith)

-- The text is 2001:db8::1, without the last group.
fancy_documented :
    ipv6_to_str_fancy 0 0 0 documented
    ≡ some (11, b'2' ∷ b'0' ∷ b'0' ∷ b'1' ∷ b':' ∷ b'd' ∷ b'b' ∷ b'8' ∷ b':' ∷ b':' ∷ b'1' ∷ [])
unfolding ipv6_to_str_fancy
fancy_documented = refl
