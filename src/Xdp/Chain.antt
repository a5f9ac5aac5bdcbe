-- ===== src/Xdp/Chain.antt =====
-- Chains of IPv6 extension headers written out, and the loop of `parse_ipv6` on them.
use fips_ipc.Prelude.{
  ℕ, zero, suc, ◌+◌, ◌*◌, ◌≤◌, ◌≡◌, ◌≢◌, refl, sym, ap, ap₂, ◌∙◌, ◌⊎◌, inl, inr, true, false, ltb,
  ◌==◌, if◌then◌else◌, Option, some, List, [], ◌∷◌, ◌++◌, All, length, get_elem?, length-append,
  append_assoc, arith,
}
use fips_ipc.Xdp.{◌>>=◌}
use fips_ipc.Xdp.Filter.{is_extension, extensions}
use fips_ipc.Xdp.Reads.{get_elem?-append}

-- A header of a length counted in units of 8 bytes, or a fragment header of 8 bytes; the bodies
-- are the bytes after the next header's number, and after the length. An Authentication Header (51)
-- is none of them: its length counts units of 4 bytes.
pub data Extension : Type 0 where
  options : ℕ → ℕ → List ℕ → Extension
  fragment : List ℕ → Extension

abbrev pub number : Extension → ℕ
number (options kind hdrlen body) = kind
number (fragment body) = 44

abbrev pub header : Extension → ℕ → List ℕ
header (options kind hdrlen body) next = next ∷ hdrlen ∷ body
header (fragment body) next = next ∷ body

abbrev pub IsExtension : Extension → Type 0
IsExtension (options kind hdrlen body) =
    (is_extension kind ≡ true) × (kind ≢ 51) × (length body ≡ hdrlen * 8 + 6)
IsExtension (fragment body) = length body ≡ 7

-- The number of the first header of a chain that ends with a protocol.
unfoldable pub first : List Extension → ℕ → ℕ
first [] protocol = protocol
first (e ∷ es) protocol = number e

unfoldable pub chain : List Extension → ℕ → List ℕ
unfolding first
chain [] protocol = []
chain (e ∷ es) protocol = header e (first es protocol) ++ chain es protocol

-- The number of a protocol for which the loop ends.
abbrev pub IsLast : ℕ → Type 0
IsLast protocol = (protocol ≤ 143) × (protocol ≢ 44) × (is_extension protocol ≡ false)

module _ (rounds : ℕ) (xs : List ℕ) (next : ℕ) (ys : List ℕ) where
  round-options :
      (kind hdrlen : ℕ) (body : List ℕ)
      → is_extension kind ≡ true
      → length body ≡ hdrlen * 8 + 6
      → extensions (xs ++ (next ∷ hdrlen ∷ (body ++ ys))) (suc rounds) kind (length xs)
        ≡ extensions
            (xs ++ (next ∷ hdrlen ∷ (body ++ ys)))
            rounds
            next
            (length xs + (hdrlen * 8 + 8))
  unfolding extensions is_extension
  round-options kind hdrlen body known size =
      let packet = xs ++ (next ∷ hdrlen ∷ (body ++ ys)) in
      let total = length-append xs (next ∷ hdrlen ∷ (body ++ ys)) in
      let inner = length-append body ys in
      let small : ltb 143 kind ≡ false = ground arith in
      let whole : kind == 44 ≡ false = ground arith in
      let fits : ltb (length packet) (length xs + 4) ≡ false = ground arith in
      let plain : length xs + 0 ≡ length xs = omega arith in
      let here : get_elem? packet (length xs) ≡ some next =
        rw plain at (get_elem?-append xs (next ∷ hdrlen ∷ (body ++ ys)) (length xs) 0 refl) in
      let there : get_elem? packet (length xs + 1) ≡ some hdrlen =
        get_elem?-append xs (next ∷ hdrlen ∷ (body ++ ys)) (length xs) 1 refl in
      rw (small, whole, known, fits, here, ◌>>=◌, there, ◌>>=◌) refl

  round-fragment :
      (body : List ℕ)
      → length body ≡ 7
      → extensions (xs ++ (next ∷ (body ++ ys))) (suc rounds) 44 (length xs)
        ≡ extensions (xs ++ (next ∷ (body ++ ys))) rounds next (length xs + 8)
  unfolding extensions
  round-fragment body size =
      let packet = xs ++ (next ∷ (body ++ ys)) in
      let total = length-append xs (next ∷ (body ++ ys)) in
      let inner = length-append body ys in
      let fits : ltb (length packet) (length xs + 8) ≡ false = ground arith in
      let plain : length xs + 0 ≡ length xs = omega arith in
      let here : get_elem? packet (length xs) ≡ some next =
        rw plain at (get_elem?-append xs (next ∷ (body ++ ys)) (length xs) 0 refl) in
      rw (fits, here, ◌>>=◌) refl

module _ (protocol : ℕ) (last : IsLast protocol) (payload : List ℕ) where
  -- The end of a chain of `n` headers that ends at an offset, with a bound on the rounds.
  abbrev pub ending : ℕ → ℕ → ℕ → Option (ℕ ⊎ (ℕ × ℕ))
  ending n rounds offset = if ltb n rounds then some (inr (protocol, offset)) else some (inl 1)

  ending-zero : (n offset : ℕ) → some (inl 1) ≡ ending n 0 offset
  ending-zero n offset = ground arith

  ending-suc : (n rounds o p : ℕ) → o ≡ p → ending n rounds o ≡ ending (suc n) (suc rounds) p
  ending-suc n rounds o p e = rw e (ground arith)

  round-last :
      (rounds : ℕ) (packet : List ℕ) (o : ℕ)
      → extensions packet (suc rounds) protocol o ≡ some (inr (protocol, o))
  unfolding extensions
  round-last rounds packet o =
      let (assigned, whole, other) = last in
      let one : ltb 143 protocol ≡ false = ground arith in
      let two : protocol == 44 ≡ false = ground arith in rw (one, two, other) refl

  ending-now : (rounds o : ℕ) → some (inr (protocol, o)) ≡ ending 0 (suc rounds) (o + 0)
  ending-now rounds o = ground arith

  no_rounds : (packet : List ℕ) (p o : ℕ) → extensions packet zero p o ≡ some (inl 1)
  unfolding extensions
  no_rounds packet p o = refl

  -- One header, given the result for the headers after it.
  module _ (n rounds next : ℕ) (xs head rest ys : List ℕ) (k offset : ℕ) (size : length head ≡ k)
      (more : extensions ((xs ++ head) ++ ys) rounds next (length (xs ++ head))
        ≡ ending n rounds (length (xs ++ head) + offset)) where
    go_on :
        extensions (xs ++ (head ++ ys)) rounds next (length xs + k)
        ≡ ending (suc n) (suc rounds) (length xs + (k + offset))
    go_on =
        ap₂ (λ (packet : List ℕ) (o : ℕ). extensions packet rounds next o)
          (sym (append_assoc xs head ys))
          (let here : length xs + k ≡ length (xs ++ head) =
              omega (arith, size, length-append xs head) in
            here)
        ∙ more
        ∙ ending-suc n rounds _ _ (omega (arith, size, length-append xs head))

  -- The loop on a chain that starts where `xs` ends.
  pub extensions-chain :
      (es : List Extension) (rounds : ℕ) (xs : List ℕ)
      → All IsExtension es
      → extensions (xs ++ (chain es protocol ++ payload)) rounds (first es protocol) (length xs)
        ≡ ending (length es) rounds (length xs + length (chain es protocol))
  unfolding first chain
  extensions-chain es zero xs known = no_rounds _ _ _ ∙ ending-zero (length es) _
  extensions-chain [] (suc rounds) xs known =
      round-last rounds _ (length xs) ∙ ending-now rounds (length xs)
  extensions-chain (options kind hdrlen body ∷ es) (suc rounds) xs ((known, _, size), rest) =
      let next = first es protocol in
      let tail = chain es protocol in
      let ys = tail ++ payload in
      let head = next ∷ hdrlen ∷ body in
      let width : length head ≡ hdrlen * 8 + 8 = omega (arith, size) in
      let whole : length (head ++ tail) ≡ hdrlen * 8 + 8 + length tail =
        omega (arith, width, length-append head tail) in
      ap (λ (packet : List ℕ). extensions (xs ++ packet) (suc rounds) kind (length xs))
        (append_assoc head tail payload)
      ∙ round-options rounds xs next ys kind hdrlen body known size
      ∙ go_on (length es) rounds next xs head tail ys (hdrlen * 8 + 8) (length tail) width
          (extensions-chain es rounds (xs ++ head) rest)
      ∙ ap (λ (k : ℕ). ending (suc (length es)) (suc rounds) (length xs + k)) (sym whole)
  extensions-chain (fragment body ∷ es) (suc rounds) xs (size, rest) =
      let next = first es protocol in
      let tail = chain es protocol in
      let ys = tail ++ payload in
      let head = next ∷ body in
      let width : length head ≡ 8 = omega (arith, size) in
      let whole : length (head ++ tail) ≡ 8 + length tail =
        omega (arith, width, length-append head tail) in
      ap (λ (packet : List ℕ). extensions (xs ++ packet) (suc rounds) 44 (length xs))
        (append_assoc head tail payload)
      ∙ round-fragment rounds xs next ys body size
      ∙ go_on (length es) rounds next xs head tail ys 8 (length tail) width
          (extensions-chain es rounds (xs ++ head) rest)
      ∙ ap (λ (k : ℕ). ending (suc (length es)) (suc rounds) (length xs + k)) (sym whole)
