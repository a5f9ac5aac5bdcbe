-- ===== src/ShmRing/Line.antt =====
-- One line of a segment: `memcpy` into it, and the loop that fills it up with zeros.
use fips_ipc.Prelude.{
  ℕ, zero, suc, ◌+◌, ◌-◌, ◌≤◌, ◌≡◌, refl, ap, ◌∙◌, List, [], ◌∷◌, ◌++◌, append_assoc, arith, length,
  set, take, drop, replicate, length-append, length-take, length-drop, length-replicate,
}

-- `memcpy(dest, src, n)`, for an `n` that neither exceeds.
unfoldable pub memcpy : List ℕ → List ℕ → ℕ → List ℕ
memcpy dest src n = take n src ++ drop n dest

-- `while (wsize < line_size) *(write_dest + wsize++) = '\0';` with the rounds left.
unfoldable pub zero_fill : ℕ → List ℕ → ℕ → List ℕ × ℕ
zero_fill zero line wsize = (line, wsize)
zero_fill (suc rounds) line wsize = zero_fill rounds (set line wsize 0) (wsize + 1)

-- Both steps, and the final `wsize`.
unfoldable pub put_line : ℕ → List ℕ → List ℕ → ℕ → List ℕ × ℕ
unfolding memcpy zero_fill
put_line line_size dest src wsize = zero_fill (line_size - wsize) (memcpy dest src wsize) wsize

-- A message as a line of the ring: cut at `wsize`, padded with zeros.
abbrev pub padded : ℕ → List ℕ → ℕ → List ℕ
padded line_size src wsize = take wsize src ++ replicate (line_size - wsize) 0

set-append_length :
    (xs : List ℕ) (x v : ℕ) (rest : List ℕ)
    → set (xs ++ (x ∷ rest)) (length xs) v ≡ (xs ++ (v ∷ [])) ++ rest
set-append_length [] x v rest = refl
set-append_length (y ∷ xs) x v rest = ap (◌∷◌ y) (set-append_length xs x v rest)

zero_fill-append :
    (k : ℕ) (xs rest : List ℕ) (n : ℕ)
    → length rest ≡ k
    → length xs ≡ n
    → zero_fill k (xs ++ rest) n ≡ (xs ++ replicate k 0, n + k)
unfolding zero_fill
zero_fill-append zero xs [] n h e = ground arith
zero_fill-append zero xs (x ∷ rest) n h e = absurd (omega arith)
zero_fill-append (suc k) xs [] n h e = absurd (omega arith)
zero_fill-append (suc k) xs (x ∷ rest) n h e =
    rw
      (
        ← e,
        set-append_length xs x 0 rest,
        zero_fill-append k (xs ++ (0 ∷ [])) rest (length xs + 1) (omega arith)
            (omega (arith, length-append xs (0 ∷ []))),
        append_assoc,
      )
      (ap (λ (m : ℕ). (xs ++ (0 ∷ replicate k 0), m)) (omega arith))

-- For a message of at most a line, copying it into a line and filling up with zeros gives the
-- message and zeros, whatever the line held before, and the final size is the line size.
pub put_line_lem :
    (line_size : ℕ) (dest src : List ℕ) (wsize : ℕ)
    → length dest ≡ line_size
    → wsize ≤ length src
    → wsize ≤ line_size
    → put_line line_size dest src wsize ≡ (padded line_size src wsize, line_size)
unfolding put_line
put_line_lem line_size dest src wsize hd hs hw =
    zero_fill-append (line_size - wsize) (take wsize src) (drop wsize dest) wsize
      (omega (arith, length-drop wsize dest)) (omega (arith, length-take wsize src))
    ∙ ap (λ (m : ℕ). (padded line_size src wsize, m)) (omega arith)

pub length-padded :
    (line_size : ℕ) (src : List ℕ) (wsize : ℕ)
    → wsize ≤ length src
    → wsize ≤ line_size
    → length (padded line_size src wsize) ≡ line_size
length-padded line_size src wsize hs hw = omega (
  arith,
  length-append (take wsize src) (replicate (line_size - wsize) 0),
  length-take wsize src,
  length-replicate {A = ℕ} (line_size - wsize) 0,
)
