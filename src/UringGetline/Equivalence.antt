-- ===== src/UringGetline/Equivalence.antt =====
-- The lines that the calls return, against the lines of the text.
use fips_ipc.Prelude.{
  ℕ, zero, suc, ◌+◌, ◌-◌, ◌<◌, ◌≤◌, ◌≡◌, refl, ap, ◌∙◌, inl, inr, false, Bool-cases, List, [], ◌∷◌,
  map, ◌==◌, length, take, drop, length-drop, arith,
}
use fips_ipc.UringGetline.Line.{newline, rdlines}
use fips_ipc.UringGetline.Split.{
  lines, strip, first_length, region, drop-take, drop-drop, lines-first, first_length-le,
  length-region, rdline-region,
}

rdlines_done : (calls : ℕ) (buf : List ℕ) → rdlines calls buf 0 0 ≡ []
unfolding rdlines
rdlines_done zero buf = refl
rdlines_done (suc calls) buf = refl

nil_of_length : (xs : List ℕ) → length xs ≡ 0 → xs ≡ []
nil_of_length [] h = refl
nil_of_length (x ∷ xs) h = absurd (omega arith)

-- A text that is not empty has a first line that is not empty.
lines-some :
    (xs : List ℕ)
    → 0 < length xs
    → let n = first_length xs in (0 < n) × (lines xs ≡ take n xs ∷ lines (drop n xs))
lines-some [] h = absurd (omega arith)
lines-some (c ∷ cs) h = (
  (elim (Bool-cases (c == newline)) [ inl e ↦ rw e (omega arith) | inr e ↦ rw e (omega arith) ]),
  lines-first c cs,
)

rdlines-region :
    (buf : List ℕ) (calls offset k : ℕ)
    → 0 < k
    → k ≤ calls
    → offset + k ≤ length buf
    → rdlines calls buf offset (offset + k) ≡ map strip (lines (region buf offset k))
unfolding rdlines lines
rdlines-region buf zero offset k more enough fits = absurd (omega arith)
rdlines-region buf (suc calls) offset k more enough fits =
    let xs = region buf offset k in
    let n = first_length xs in
    let size = length-region buf offset k fits in
    let (some_bytes, text) = lines-some xs (omega (arith, size)) in
    let short = first_length-le xs in
    let call = rdline-region buf offset k fits in
    let busy : (offset + k == 0) ≡ false = ground arith in
    elim (Bool-cases (offset + n == offset + k)) [
      | inl last ↦
          let all : n ≡ k = ground arith in
          let nothing : drop n xs ≡ [] =
            nil_of_length (drop n xs) (omega (arith, size, length-drop n xs)) in
          rw (call, busy, last, rdlines_done calls buf, text, nothing) refl
      | inr before ↦
          let less : n < k = ground (arith, short, size) in
          let end : offset + n + (k - n) ≡ offset + k = omega arith in
          let rest =
            rdlines-region buf calls (offset + n) (k - n) (omega arith) (omega arith)
              (omega arith) in
          let there : drop n xs ≡ region buf (offset + n) (k - n) =
            drop-take n k (drop offset buf) (omega arith)
            ∙ ap (take (k - n)) (drop-drop n offset buf) in
          rw (call, busy, before, text, there) (ap (◌∷◌ (strip (take n xs))) (rw end at rest))
    ]

-- For a block in a buffer that is at least as long, the calls of `_rdline` until the block is used
-- up return exactly the lines of its text in order, each with its newline and without leading null
-- bytes, and as many calls as the block has bytes are enough.
pub rdlines-lines :
    (buf : List ℕ) (calls rsize : ℕ)
    → rsize ≤ calls
    → rsize ≤ length buf
    → rdlines calls buf 0 rsize ≡ map strip (lines (take rsize buf))
unfolding lines
rdlines-lines buf calls zero enough fits = rdlines_done calls buf
rdlines-lines buf calls (suc k) enough fits =
    let same : 0 + suc k ≡ suc k = omega arith in
    rw same at (rdlines-region buf calls 0 (suc k) (omega arith) enough (omega arith))
