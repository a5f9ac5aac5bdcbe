-- ===== src/ShmRing/Runs.antt =====
-- Runs of lines: the copying loop of `shmrbuf_writev`, and the queue of a reader that a run
-- extends.
use fips_ipc.Prelude.{
  ℕ, ◌+◌, ◌%◌, ◌^◌, ◌≤◌, ◌<◌, ◌≡◌, ◌⊎◌, inl, inr, refl, ap, ◌∙◌, true, List, [], ◌∷◌, ◌++◌, map,
  length, get_or, set, All, arith, length-set, All-set, All-get_or, append-nil, append_assoc,
  le→ltb,
}
use fips_ipc.ShmRing.{Iovec}
use fips_ipc.ShmRing.Line.{padded, put_line_lem, length-padded}
use fips_ipc.ShmRing.Window.{Reaches, window, set_run, length-set_run, window-set_run}
use fips_ipc.ShmRing.Writev.{put_lines}

-- An iovec that fits into a line and lies within its buffer.
abbrev pub Fits : ℕ → Iovec → Type 0
Fits line_size v = (v.iov_len ≤ line_size) × (v.iov_len ≤ length v.iov_base)

-- The line that an iovec becomes.
abbrev pub line_of : ℕ → Iovec → List ℕ
line_of line_size v = padded line_size v.iov_base v.iov_len

pub length-line_of :
    (line_size : ℕ) (v : Iovec) → Fits line_size v → length (line_of line_size v) ≡ line_size
length-line_of line_size v f = length-padded line_size v.iov_base v.iov_len f.1 f.0

module _ (line_size : ℕ) (small : line_size < 2 ^ 16) where
  pub put_lines_lem :
      (lines : List (List ℕ)) (pos : ℕ) (vs : List Iovec)
      → All (λ l. length l ≡ line_size) lines
      → All (Fits line_size) vs
      → pos + length vs ≤ length lines
      → put_lines line_size lines pos vs ≡ (true, set_run [] lines pos (map (line_of line_size) vs))
  unfolding put_lines set_run
  put_lines_lem lines pos [] hl hv h = refl
  put_lines_lem lines pos (v ∷ vs) hl hv h =
      let plain : v.iov_len % 2 ^ 16 ≡ v.iov_len = omega arith in
      let old = All-get_or (λ l. length l ≡ line_size) lines pos [] hl (omega arith) in
      rw
        (
          plain,
          le→ltb line_size v.iov_len hv.0.0,
          put_line_lem line_size (get_or lines pos []) v.iov_base v.iov_len old hv.0.1 hv.0.0,
        )
        (put_lines_lem (set lines pos (line_of line_size v)) (pos + 1) vs
          (All-set (λ l. length l ≡ line_size) lines pos (line_of line_size v) hl
            (length-line_of line_size v hv.0))
          hv.1 (omega (arith, length-set lines pos (line_of line_size v))))

module _ {A : Type 0} (blank : A) where
  pub All-set_run :
      (P : A → Type 0) (xs : List A) (i : ℕ) (ys : List A)
      → All P xs
      → All P ys
      → All P (set_run blank xs i ys)
  unfolding set_run
  All-set_run P xs i [] hx hy = hx
  All-set_run P xs i (y ∷ ys) hx hy =
      All-set_run P (set xs i y) (i + 1) ys (All-set P xs i y hx hy.0) hy.1

  -- Two runs: from `w` on, and, if there is a second, up to the end and on from the start.
  pub window-set_runs :
      (n : ℕ) (xs ys zs : List A) (k r w : ℕ)
      → length xs ≡ n
      → r < n
      → w + length ys ≤ n
      → k + length ys + length zs < n
      → Reaches n r k w
      → (zs ≡ []) ⊎ (w + length ys ≡ n)
      → window blank n (set_run blank (set_run blank xs w ys) 0 zs) r (k + length ys + length zs)
        ≡ window blank n xs r k ++ (ys ++ zs)
  unfolding set_run
  window-set_runs n xs ys zs k r w l hr hw hk e (inl none_left) =
      rw (none_left, append-nil)
        (ap (window blank n (set_run blank xs w ys) r) (omega arith)
          ∙ window-set_run blank n xs ys k r w l hr hw (omega arith) e)
  window-set_runs n xs ys zs k r w l hr hw hk e (inr to_end) =
      window-set_run blank n (set_run blank xs w ys) zs (k + length ys) r 0
        (length-set_run blank xs w ys ∙ l) hr (omega arith) (omega arith) (omega arith)
      ∙ rw (window-set_run blank n xs ys k r w l hr hw (omega arith) e, append_assoc) refl
