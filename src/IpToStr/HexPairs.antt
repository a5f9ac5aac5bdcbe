-- ===== src/IpToStr/HexPairs.antt =====
-- Reading an IPv6 address back.
use fips_ipc.Prelude.{
  ℕ, zero, suc, ◌+◌, ◌-◌, ◌*◌, ◌/◌, ◌<◌, ◌≡◌, refl, ap, ◌∙◌, inl, inr, false, Bool-cases, List, [],
  ◌∷◌, ◌++◌, ◌==◌, ltb, if◌then◌else◌, arith, length, get_or, All,
}
use fips_ipc.IpToStr.V6.{hex_digit, hex_map, put_groups, ipv6_to_str, colon}

abbrev pub hex_value : ℕ → ℕ
hex_value ch = if ltb ch 58 then ch - 48 else ch - 87

-- The bytes of a string of pairs of hexadecimal digits, with colons between some of them.
unfoldable pub read_pairs : List ℕ → List ℕ
read_pairs [] = []
read_pairs (a ∷ []) = []
read_pairs (a ∷ b ∷ chs) =
    let skipped = read_pairs (b ∷ chs) in
    let byte = (hex_value a * 16 + hex_value b) ∷ read_pairs chs in
    if a == colon then skipped else byte

read_nothing : read_pairs [] ≡ []
unfolding read_pairs
read_nothing = refl

read_colon : (chs : List ℕ) → read_pairs (colon ∷ chs) ≡ read_pairs chs
unfolding read_pairs
read_colon [] = refl
read_colon (a ∷ chs) = refl

read_hex_map : (c : ℕ) (chs : List ℕ) → c < 256 → read_pairs (hex_map c ++ chs) ≡ c ∷ read_pairs chs
unfolding read_pairs hex_map
read_hex_map c chs h =
    let digit : (hex_digit (c / 16) == colon) ≡ false = ground arith in
    rw digit (ap (λ (n : ℕ). n ∷ read_pairs chs) (ground arith))

-- The bytes from `i` on.
abbrev bytes_from : List ℕ → ℕ → ℕ → List ℕ
bytes_from src i zero = []
bytes_from src i (suc n) = get_or src i 0 ∷ get_or src (i + 1) 0 ∷ bytes_from src (i + 2) n

read-put_groups :
    (src : List ℕ) (i rounds : ℕ)
    → ((j : ℕ) → get_or src j 0 < 256)
    → read_pairs (put_groups src i rounds) ≡ bytes_from src i rounds
unfolding put_groups
read-put_groups src i zero bytes = read_nothing
read-put_groups src i (suc rounds) bytes =
    let b = get_or src i 0 in
    let c = get_or src (i + 1) 0 in
    let rest = put_groups src (i + 2) rounds in
    let on = read-put_groups src (i + 2) rounds bytes in
    read_hex_map b _ (bytes i)
    ∙ ap (◌∷◌ b) (
        read_hex_map c _ (bytes (i + 1))
        ∙ ap (◌∷◌ c) (elim (Bool-cases (ltb i 14)) [
          | inl more ↦ rw more (read_colon rest ∙ on)
          | inr last ↦ rw last on
        ]))

bytes_from-tail :
    (a b : ℕ) (bytes : List ℕ) (i n : ℕ)
    → bytes_from (a ∷ b ∷ bytes) (suc (suc i)) n ≡ bytes_from bytes i n
bytes_from-tail a b bytes i zero = refl
bytes_from-tail a b bytes i (suc n) =
    let one : suc (suc i) + 1 ≡ suc (suc (i + 1)) = omega arith in
    let two : suc (suc i) + 2 ≡ suc (suc (i + 2)) = omega arith in
    rw (one, two, bytes_from-tail a b bytes (i + 2) n) refl

bytes_from_all : (bytes : List ℕ) (n : ℕ) → length bytes ≡ n + n → bytes_from bytes 0 n ≡ bytes
bytes_from_all [] zero e = refl
bytes_from_all [] (suc n) e = absurd (omega (arith, e))
bytes_from_all (a ∷ bytes) zero e = absurd (omega (arith, e))
bytes_from_all (a ∷ []) (suc n) e = absurd (omega (arith, e))
bytes_from_all (a ∷ b ∷ bytes) (suc n) e =
    rw (bytes_from-tail a b bytes 0 n, bytes_from_all bytes n (omega (arith, e))) refl

get_or-lt : (bytes : List ℕ) (i : ℕ) → All (λ b. b < 256) bytes → get_or bytes i 0 < 256
get_or-lt [] i h = omega arith
get_or-lt (b ∷ bytes) zero h = h.0
get_or-lt (b ∷ bytes) (suc i) h = get_or-lt bytes i h.1

length-put_groups : (src : List ℕ) → length (put_groups src 0 8) ≡ 39
unfolding put_groups hex_map
length-put_groups src = refl

-- For any 16 bytes, reading the pairs of digits of what `ipv6_to_str` writes, past the colons,
-- gives the bytes back, and the string and the returned length are 39.
pub ipv6_to_str-roundtrip :
    (src : List ℕ)
    → length src ≡ 16
    → All (λ b. b < 256) src
    → let (len, dst) = ipv6_to_str src in (read_pairs dst ≡ src) × (len ≡ 39) × (length dst ≡ 39)
unfolding ipv6_to_str
ipv6_to_str-roundtrip src size bytes = (
  read-put_groups src 0 8 (λ j. get_or-lt src j bytes) ∙ bytes_from_all src 8 size,
  rw (length-put_groups src) refl,
  length-put_groups src,
)
