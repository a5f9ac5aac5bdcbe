-- ===== src/UringGetline/Split.antt =====
-- The lines of a block, independently of offsets.
use fips_ipc.Prelude.{
  ℕ, zero, suc, ◌+◌, ◌-◌, ◌<◌, ◌≤◌, ◌≡◌, refl, sym, ap, ◌∙◌, inl, inr, Bool-cases, List, [], ◌∷◌,
  ◌==◌, if◌then◌else◌, get_or, length, take, drop, length-take, length-drop, arith,
}
use fips_ipc.UringGetline.Line.{newline, scan, skip, rdline}

abbrev pub put_front : ℕ → List (List ℕ) → List (List ℕ)
put_front c [] = (c ∷ []) ∷ []
put_front c (l ∷ ls) = (c ∷ l) ∷ ls

-- The lines of a text, each with its newline; the last one may have none.
unfoldable pub lines : List ℕ → List (List ℕ)
lines [] = []
lines (c ∷ cs) = let rest = lines cs in if c == newline then (c ∷ []) ∷ rest else put_front c rest

-- A line without its leading null bytes.
unfoldable pub strip : List ℕ → List ℕ
strip [] = []
strip (c ∷ cs) = let rest = strip cs in if c == 0 then rest else c ∷ cs

-- The length of the first line, and the number of leading null bytes.
abbrev pub first_length : List ℕ → ℕ
first_length [] = 0
first_length (c ∷ cs) = let rest = first_length cs in if c == newline then 1 else suc rest

abbrev nulls : List ℕ → ℕ
nulls [] = 0
nulls (c ∷ cs) = let rest = nulls cs in if c == 0 then suc rest else 0

pub drop-get_or :
    (buf : List ℕ) (i : ℕ) → i < length buf → drop i buf ≡ get_or buf i 0 ∷ drop (suc i) buf
drop-get_or [] i h = absurd (omega arith)
drop-get_or (x ∷ xs) zero h = refl
drop-get_or (x ∷ xs) (suc i) h = drop-get_or xs i (omega arith)

-- The bytes of the buffer from an offset on.
abbrev pub region : List ℕ → ℕ → ℕ → List ℕ
region buf offset k = take k (drop offset buf)

scan-first_length :
    (buf : List ℕ) (k offset : ℕ)
    → offset + k ≤ length buf
    → scan buf offset k ≡ offset + first_length (region buf offset k)
unfolding scan
scan-first_length buf zero offset h = omega arith
scan-first_length buf (suc k) offset h =
    let next : offset + 1 ≡ suc offset = omega arith in
    rw (drop-get_or buf offset (omega arith)) (elim (Bool-cases (get_or buf offset 0 == newline)) [
      | inl e ↦ rw e refl
      | inr e ↦
          rw (e, next)
            (let rest = scan-first_length buf k (suc offset) (omega arith) in omega (arith, rest))
    ])

skip-nulls :
    (buf : List ℕ) (k start : ℕ)
    → start + k ≤ length buf
    → skip buf start k ≡ start + nulls (region buf start k)
unfolding skip
skip-nulls buf zero start h = omega arith
skip-nulls buf (suc k) start h =
    let next : start + 1 ≡ suc start = omega arith in
    rw (drop-get_or buf start (omega arith)) (elim (Bool-cases (get_or buf start 0 == 0)) [
      | inl e ↦
          rw (e, next)
            (let rest = skip-nulls buf k (suc start) (omega arith) in omega (arith, rest))
      | inr e ↦ rw e (omega arith)
    ])

strip-drop : (xs : List ℕ) → strip xs ≡ drop (nulls xs) xs
unfolding strip
strip-drop [] = refl
strip-drop (c ∷ cs) = elim (Bool-cases (c == 0)) [
  | inl e ↦ rw e (strip-drop cs)
  | inr e ↦ rw e refl
]

pub first_length-le : (xs : List ℕ) → first_length xs ≤ length xs
first_length-le [] = omega arith
first_length-le (c ∷ cs) = let rest = first_length-le cs in ground arith

nulls-le : (xs : List ℕ) → nulls xs ≤ length xs
nulls-le [] = omega arith
nulls-le (c ∷ cs) = let rest = nulls-le cs in ground arith

pub lines-first :
    (c : ℕ) (cs : List ℕ)
    → let n = first_length (c ∷ cs) in lines (c ∷ cs) ≡ take n (c ∷ cs) ∷ lines (drop n (c ∷ cs))
unfolding lines
lines-first c [] = elim (Bool-cases (c == newline)) [ inl e ↦ rw e refl | inr e ↦ rw e refl ]
lines-first c (d ∷ ds) = elim (Bool-cases (c == newline)) [
  | inl e ↦ rw e refl
  | inr e ↦ rw e (ap (put_front c) (lines-first d ds))
]

take_nil : (n : ℕ) → ◌≡◌ {A = List ℕ} (take n []) []
take_nil zero = refl
take_nil (suc n) = refl

drop_nil : (n : ℕ) → ◌≡◌ {A = List ℕ} (drop n []) []
drop_nil zero = refl
drop_nil (suc n) = refl

-- Parts of a part of a list.
pub drop-take : (z n : ℕ) (xs : List ℕ) → z ≤ n → drop z (take n xs) ≡ take (n - z) (drop z xs)
drop-take zero n xs h = let same : n - 0 ≡ n = omega arith in rw same refl
drop-take (suc z) zero xs h = absurd (omega arith)
drop-take (suc z) (suc n) [] h = sym (take_nil (suc n - suc z))
drop-take (suc z) (suc n) (x ∷ xs) h =
    let step : suc n - suc z ≡ n - z = omega arith in rw step (drop-take z n xs (omega arith))

pub drop-drop : (a b : ℕ) (xs : List ℕ) → drop a (drop b xs) ≡ drop (b + a) xs
drop-drop a zero xs = let same : 0 + a ≡ a = omega arith in rw same refl
drop-drop a (suc b) [] = drop_nil a ∙ sym (drop_nil (suc b + a))
drop-drop a (suc b) (x ∷ xs) =
    let step : suc b + a ≡ suc (b + a) = omega arith in rw step (drop-drop a b xs)

take-take : (a b : ℕ) (xs : List ℕ) → a ≤ b → take a (take b xs) ≡ take a xs
take-take zero b xs h = refl
take-take (suc a) zero xs h = absurd (omega arith)
take-take (suc a) (suc b) [] h = refl
take-take (suc a) (suc b) (x ∷ xs) h = ap (◌∷◌ x) (take-take a b xs (omega arith))

pub length-region :
    (buf : List ℕ) (offset k : ℕ) → offset + k ≤ length buf → length (region buf offset k) ≡ k
length-region buf offset k h =
    omega (arith, length-take k (drop offset buf), length-drop offset buf)

-- A call of `_rdline` in terms of the bytes that are left.
pub rdline-region :
    (buf : List ℕ) (offset k : ℕ)
    → offset + k ≤ length buf
    → let xs = region buf offset k in
      let n = first_length xs in
      rdline buf offset (offset + k) ≡ (
        strip (take n xs),
        (if offset + n == offset + k then 0 else offset + n),
        (if offset + n == offset + k then 0 else offset + k),
      )
unfolding rdline
rdline-region buf offset k h =
    let xs = region buf offset k in
    let n = first_length xs in
    let size = length-region buf offset k h in
    let short = first_length-le xs in
    let line = take n (drop offset buf) in
    let same : take n xs ≡ line = take-take n k (drop offset buf) (omega arith) in
    let z = nulls line in
    let left : offset + k - offset ≡ k = omega arith in
    let stop = scan-first_length buf k offset h in
    let width : offset + n - offset ≡ n = omega arith in
    let start : skip buf offset n ≡ offset + z = skip-nulls buf n offset (omega arith) in
    let within = nulls-le line in
    let wide = length-take n (drop offset buf) in
    let rest : offset + n - (offset + z) ≡ n - z = omega arith in
    let text : take (n - z) (drop (offset + z) buf) ≡ strip line =
      ap (take (n - z)) (sym (drop-drop z offset buf))
      ∙ sym (drop-take z n (drop offset buf) (omega arith))
      ∙ sym (strip-drop line) in
    rw (left, stop, width, start, rest, text, same) refl
