-- ===== src/IpToStr.antt =====
-- src/lib/ip_to_str.c: `ipv4_to_str`.
pub mod Decimal
pub mod V6
pub mod HexPairs
mod Examples
use fips_ipc.Prelude.{
  ℕ, zero, suc, ◌+◌, ◌/◌, ◌%◌, List, [], ◌∷◌, ◌++◌, ltb, if◌then◌else◌, get_or, length,
}

-- The string `dec_map[c]`, for a byte.
unfoldable pub dec_map : ℕ → List ℕ
dec_map c =
    if ltb 99 c
    then (48 + c / 100) ∷ (48 + c / 10 % 10) ∷ (48 + c % 10) ∷ []
    else if ltb 9 c
    then (48 + c / 10) ∷ (48 + c % 10) ∷ []
    else (48 + c) ∷ []

abbrev pub dot : ℕ
dot = 46

-- The characters that the loop copies for one byte.
unfoldable pub put_byte : ℕ → List ℕ
unfolding dec_map
put_byte c =
    let str = dec_map c in
    if ltb 99 c
    then get_or str 0 0 ∷ get_or str 1 0 ∷ get_or str 2 0 ∷ []
    else if ltb 9 c
    then get_or str 0 0 ∷ get_or str 1 0 ∷ []
    else get_or str 0 0 ∷ []

-- The loop over the bytes, from `i` on with the rounds left: what it writes to `dst`.
unfoldable pub put_bytes : List ℕ → ℕ → ℕ → List ℕ
unfolding put_byte
put_bytes src i zero = []
put_bytes src i (suc rounds) =
    let rest = put_bytes src (i + 1) rounds in
    put_byte (get_or src i 0) ++ (if ltb i 3 then dot ∷ rest else rest)

-- The length returned, and the string.
unfoldable pub ipv4_to_str : List ℕ → ℕ × List ℕ
unfolding put_bytes
ipv4_to_str src = let dst = put_bytes src 0 4 in (length dst % 256, dst)
