-- ===== src/IpToStr/Decimal.antt =====
-- Reading an address back, and lemmas on its decimal digits.
use fips_ipc.Prelude.{
  ℕ, ◌+◌, ◌-◌, ◌*◌, ◌/◌, ◌%◌, ◌≤◌, ◌<◌, ◌≡◌, refl, ap, ◌∙◌, inl, inr, false, Bool-cases, List, [],
  ◌∷◌, ◌++◌, ◌==◌, ltb, if◌then◌else◌, arith, length, length-append,
}
use fips_ipc.IpToStr.{dec_map, put_byte, put_bytes, ipv4_to_str, dot}

-- The numbers between the dots, the first of which begins with `n`.
unfoldable pub read_numbers : ℕ → List ℕ → List ℕ
read_numbers n [] = n ∷ []
read_numbers n (ch ∷ chs) =
    let closed = n ∷ read_numbers 0 chs in
    let longer = read_numbers (n * 10 + (ch - 48)) chs in if ch == dot then closed else longer

read_digit :
    (n d : ℕ) (chs : List ℕ) → read_numbers n ((48 + d) ∷ chs) ≡ read_numbers (n * 10 + d) chs
unfolding read_numbers
read_digit n d chs =
    let other : (48 + d == dot) ≡ false = ground arith in
    rw other (ap (λ (m : ℕ). read_numbers m chs) (omega arith))

read-put_byte :
    (c : ℕ) (chs : List ℕ) → c < 256 → read_numbers 0 (put_byte c ++ chs) ≡ read_numbers c chs
unfolding put_byte dec_map
read-put_byte c chs h = elim (Bool-cases (ltb 99 c)) [
  | inl three ↦
      rw
        (
          three,
          read_digit 0 (c / 100) ((48 + c / 10 % 10) ∷ (48 + c % 10) ∷ chs),
          read_digit (0 * 10 + c / 100) (c / 10 % 10) ((48 + c % 10) ∷ chs),
          read_digit ((0 * 10 + c / 100) * 10 + c / 10 % 10) (c % 10) chs,
        )
        (ap (λ (m : ℕ). read_numbers m chs) (omega arith))
  | inr less ↦ elim (Bool-cases (ltb 9 c)) [
    | inl two ↦
        rw
          (
            less,
            two,
            read_digit 0 (c / 10) ((48 + c % 10) ∷ chs),
            read_digit (0 * 10 + c / 10) (c % 10) chs,
          )
          (ap (λ (m : ℕ). read_numbers m chs) (omega arith))
    | inr one ↦
        rw (less, one, read_digit 0 c chs) (ap (λ (m : ℕ). read_numbers m chs) (omega arith))
  ]
]

length-put_byte : (c : ℕ) → length (put_byte c) ≤ 3
unfolding put_byte dec_map
length-put_byte c = elim (Bool-cases (ltb 99 c)) [
  | inl three ↦ rw three (omega arith)
  | inr less ↦ elim (Bool-cases (ltb 9 c)) [
    | inl two ↦ rw (less, two) (omega arith)
    | inr one ↦ rw (less, one) (omega arith)
  ]
]

module _ (a b c d : ℕ) (ha : a < 256) (hb : b < 256) (hc : c < 256) (hd : d < 256) where
  text : List ℕ
  text = put_byte a ++ (dot ∷ (put_byte b ++ (dot ∷ (put_byte c ++ (dot ∷ (put_byte d ++ []))))))

  put_bytes_lem : put_bytes (a ∷ b ∷ c ∷ d ∷ []) 0 4 ≡ text
  unfolding put_bytes text
  put_bytes_lem = refl

  read_dot : (n : ℕ) (chs : List ℕ) → read_numbers n (dot ∷ chs) ≡ n ∷ read_numbers 0 chs
  unfolding read_numbers
  read_dot n chs = refl

  read_end : (n : ℕ) → read_numbers n [] ≡ n ∷ []
  unfolding read_numbers
  read_end n = refl

  read-text : read_numbers 0 text ≡ a ∷ b ∷ c ∷ d ∷ []
  unfolding text
  read-text =
      read-put_byte a _ ha
      ∙ read_dot a _
      ∙ ap (◌∷◌ a) (
          read-put_byte b _ hb
          ∙ read_dot b _
          ∙ ap (◌∷◌ b) (
              read-put_byte c _ hc
              ∙ read_dot c _
              ∙ ap (◌∷◌ c) (read-put_byte d [] hd ∙ read_end d)))

  length-text : length text ≤ 15
  unfolding text
  length-text =
      let one = length-put_byte a in
      let two = length-put_byte b in
      let three = length-put_byte c in
      let four = length-put_byte d in
      omega (
        arith,
        one,
        two,
        three,
        four,
        length-append (put_byte a)
            (dot ∷ (put_byte b ++ (dot ∷ (put_byte c ++ (dot ∷ (put_byte d ++ [])))))),
        length-append (put_byte b) (dot ∷ (put_byte c ++ (dot ∷ (put_byte d ++ [])))),
        length-append (put_byte c) (dot ∷ (put_byte d ++ [])),
        length-append (put_byte d) [],
      )

  -- For any four bytes, reading the numbers between the dots of what `ipv4_to_str` writes gives the
  -- bytes back, the returned length is that of the string, and the string has at most 15
  -- characters.
  pub ipv4_to_str-roundtrip :
      let (len, dst) = ipv4_to_str (a ∷ b ∷ c ∷ d ∷ []) in
      (read_numbers 0 dst ≡ a ∷ b ∷ c ∷ d ∷ []) × (len ≡ length dst) × (length dst ≤ 15)
  unfolding ipv4_to_str
  ipv4_to_str-roundtrip =
      let short = length-text in rw put_bytes_lem (read-text, omega (arith, short), short)
