-- ===== src/ShmRing/ReadvLoop.antt =====
-- The copying loop of `shmrbuf_readv`, and parts of a window.
use fips_ipc.Prelude.{
  ℕ, zero, suc, ◌+◌, ◌≤◌, ◌<◌, ◌≡◌, refl, ap, ◌∙◌, List, [], ◌∷◌, ◌++◌, length, get_or, take, drop,
  arith, lt→ltb,
}
use fips_ipc.ShmRing.{GlobalHdr, Iovec, next_index}
use fips_ipc.ShmRing.Line.{memcpy}
use fips_ipc.ShmRing.Window.{window, Reaches, next_index_lt, next_index_cases}
use fips_ipc.ShmRing.Readv.{Beyond, line_at, copy_out}

-- What the reader's iovecs get: each the line of its place, the rest stay.
abbrev pub fill : ℕ → List Iovec → List (List ℕ) → List Iovec
fill line_size [] ls = []
fill line_size (v ∷ vs) [] = v ∷ vs
fill line_size (v ∷ vs) (l ∷ ls) =
    record { iov_base = memcpy v.iov_base l line_size; iov_len = line_size } ∷ fill line_size vs ls

module _ (n : ℕ) (xs : List (List ℕ)) where
  -- Skipping entries of a window.
  pub drop-window :
      (k m i j : ℕ)
      → i < n
      → j < n
      → k ≤ n
      → Reaches n i k j
      → drop k (window [] n xs i (k + m)) ≡ window [] n xs j m
  unfolding window
  drop-window zero m i j hi hj hk e =
      let same : i ≡ j = omega arith in let size : 0 + m ≡ m = omega arith in rw (same, size)
  drop-window (suc k) m i j hi hj hk e =
      let size : suc k + m ≡ suc (k + m) = omega arith in
      rw size (
        drop-window k m (next_index n i) j (next_index_lt n i hi) hj (omega arith)
          (omega (arith, next_index_cases n i hi)))

  pub take-window : (k m i : ℕ) → k ≤ m → take k (window [] n xs i m) ≡ window [] n xs i k
  unfolding window
  take-window zero m i h = refl
  take-window (suc k) zero i h = absurd (omega arith)
  take-window (suc k) (suc m) i h =
      ap (◌∷◌ (get_or xs i [])) (take-window k m (next_index n i) (omega arith))

  window_next :
      (i k : ℕ) → i + suc k ≤ n → window [] n xs (i + 1) k ≡ window [] n xs (next_index n i) k
  unfolding window
  window_next i zero h = refl
  window_next i (suc k) h =
      let next : i + 1 ≡ next_index n i = omega (arith, next_index_cases n i (omega arith)) in
      ap (λ (j : ℕ). window [] n xs j (suc k)) next

module _ (hdr : GlobalHdr) (beyond : Beyond) (lines : List (List ℕ)) where
  -- Up to the end of the ring the copying loop hands out the entries of a window.
  pub copy_out-window :
      (i k : ℕ) (vs : List Iovec)
      → i + k ≤ hdr.line_count
      → k ≤ length vs
      → copy_out hdr beyond lines i (take k vs) ++ drop k vs
        ≡ fill hdr.line_size vs (window [] hdr.line_count lines i k)
  unfolding copy_out window line_at
  copy_out-window i zero [] h l = refl
  copy_out-window i zero (v ∷ vs) h l = refl
  copy_out-window i (suc k) [] h l = absurd (omega arith)
  copy_out-window i (suc k) (v ∷ vs) h l = rw (lt→ltb i hdr.line_count (omega arith)) (
      ap
        (λ (vs' : List Iovec).
          record {
            iov_base = memcpy v.iov_base (get_or lines i []) hdr.line_size;
            iov_len = hdr.line_size;
          }
          ∷ vs')
        (copy_out-window (i + 1) k vs (omega arith) (omega arith)
          ∙ ap (fill hdr.line_size vs) (window_next hdr.line_count lines i k h)))

  -- Each iovec gets the line at its place in memory.
  pub get_or-copy_out :
      (i j : ℕ) (vs : List Iovec) (d : Iovec)
      → j < length vs
      → get_or (copy_out hdr beyond lines i vs) j d ≡ record {
        iov_base = memcpy (get_or vs j d).iov_base (line_at hdr beyond lines (i + j)) hdr.line_size;
        iov_len = hdr.line_size;
      }
  unfolding copy_out
  get_or-copy_out i j [] d h = absurd (omega arith)
  get_or-copy_out i zero (v ∷ vs) d h =
      let here : i ≡ i + 0 = omega arith in
      ap
        (λ (k : ℕ). record {
          iov_base = memcpy v.iov_base (line_at hdr beyond lines k) hdr.line_size;
          iov_len = hdr.line_size;
        })
        here
  get_or-copy_out i (suc j) (v ∷ vs) d h =
      let step : i + suc j ≡ i + 1 + j = omega arith in
      rw step (get_or-copy_out (i + 1) j vs d (omega arith))

  pub length-copy_out :
      (i : ℕ) (vs : List Iovec) → length (copy_out hdr beyond lines i vs) ≡ length vs
  unfolding copy_out
  length-copy_out i [] = refl
  length-copy_out i (v ∷ vs) = ap suc (length-copy_out (i + 1) vs)
