-- ===== src/IpToStr/V6.antt =====
-- `ipv6_to_str` and `ipv6_to_str_fancy`.
use fips_ipc.Prelude.{
  ℕ, zero, suc, ◌+◌, ◌/◌, ◌%◌, Bool, false, ◌&&◌, ◌||◌, not, Option, none, some, List, [], ◌∷◌,
  ◌++◌, ◌==◌, ltb, if◌then◌else◌, get_or, length,
}

abbrev pub hex_digit : ℕ → ℕ
hex_digit d = if ltb d 10 then 48 + d else 87 + d

-- The string `hex_map[c]`, for a byte.
unfoldable pub hex_map : ℕ → List ℕ
hex_map c = hex_digit (c / 16) ∷ hex_digit (c % 16) ∷ []

abbrev pub colon : ℕ
colon = 58

-- The loop over the groups of two bytes, from byte `i` on with the rounds left.
unfoldable pub put_groups : List ℕ → ℕ → ℕ → List ℕ
put_groups src i zero = []
put_groups src i (suc rounds) =
    let rest = put_groups src (i + 2) rounds in
    hex_map (get_or src i 0)
    ++ (hex_map (get_or src (i + 1) 0) ++ (if ltb i 14 then colon ∷ rest else rest))

-- The length returned, and the string.
unfoldable pub ipv6_to_str : List ℕ → ℕ × List ℕ
unfolding put_groups
ipv6_to_str src = let dst = put_groups src 0 8 in (length dst % 256, dst)

-- The variables of `ipv6_to_str_fancy` in its first loop. What stands in those that are not set yet
-- is an argument of the function.
pub record ZeroRun : Type 0 where
  pub count : ℕ
  pub longest : ℕ
  pub start_zero : ℕ
  pub end_zero : ℕ
  pub offset : ℕ

-- The first loop, from byte `i` on, over the bytes left: the longest run of zeros that has ended.
unfoldable pub find_zeros : List ℕ → ℕ → ZeroRun → ZeroRun
find_zeros [] i run = run
find_zeros (b ∷ bytes) i run = find_zeros bytes (i + 1) (
    if b == 0
    then record run { offset = if run.count == 0 then i else run.offset; count = run.count + 1 }
    else if ltb 0 run.count
    then (if ltb run.longest run.count
        then record run { longest = run.count; start_zero = run.offset; end_zero = i; count = 0 }
        else record run { count = 0 })
    else run)

abbrev pub last_zeros : ZeroRun → ZeroRun
last_zeros run =
    if ltb run.longest run.count then record run { start_zero = run.offset; end_zero = 15 } else run

-- A byte without its leading 0, behind the run of zeros.
unfoldable pub short_byte : ℕ → List ℕ
unfolding hex_map
short_byte c = if ltb c 16 then hex_digit (c % 16) ∷ [] else hex_map c

-- The first byte of a group, nothing for 0.
unfoldable pub first_byte : ℕ → List ℕ
unfolding short_byte
first_byte b = if b == 0 then [] else short_byte b

-- The second byte of a group, without its leading 0 if the variable `max` says so.
unfoldable pub second_byte : Bool → ℕ → List ℕ
unfolding hex_map short_byte
second_byte max c = if max then short_byte c else hex_map c

-- The second loop, from byte `i` on, with the variable `max` and a bound on the rounds: `none` if it
-- has not ended.
unfoldable pub put_short : List ℕ → ZeroRun → Bool → ℕ → ℕ → Option (List ℕ)
unfolding first_byte second_byte
put_short src run max i zero = if ltb i 16 then none else some []
put_short src run max i (suc rounds) =
    let odd = run.end_zero % 2 == 1 in
    let next = if odd then run.end_zero + 3 else run.end_zero + 2 in
    let b = get_or src i 0 in
    let c = get_or src (i + 1) 0 in
    let max' = max || b == 0 in
    let zeros : Option (List ℕ) = elim (put_short src run max next rounds) [
      | none ↦ none
      | some rest ↦ some (
          (if i == 0 then colon ∷ colon ∷ [] else colon ∷ [])
          ++ ((if odd then short_byte (get_or src run.end_zero 0) else []) ++ rest))
    ] in
    let group : Option (List ℕ) = elim (put_short src run (max' && not (ltb c 16)) (i + 2) rounds) [
      | none ↦ none
      | some rest ↦
          some (first_byte b ++ (second_byte max' c ++ (if ltb i 14 then colon ∷ rest else rest)))
    ] in
    if ltb i 16 then (if i == run.start_zero then zeros else group) else some []

-- The length returned, and the string.
unfoldable pub ipv6_to_str_fancy : ℕ → ℕ → ℕ → List ℕ → Option (ℕ × List ℕ)
unfolding find_zeros put_short
ipv6_to_str_fancy start_zero end_zero offset src =
    let unset : ZeroRun = record {
      count = 0;
      longest = 0;
      start_zero = start_zero;
      end_zero = end_zero;
      offset = offset;
    } in
    elim (put_short src (last_zeros (find_zeros src 0 unset)) false 0 8) [
      | none ↦ none
      | some dst ↦ some (length dst % 256, dst)
    ]
