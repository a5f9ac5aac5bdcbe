-- ===== src/Xdp/Reads.antt =====
-- Reads of a packet that a check has found long enough.
use fips_ipc.Prelude.{
  ℕ, zero, suc, ◌+◌, ◌*◌, ◌≤◌, ◌<◌, ◌≡◌, refl, ap, ltb, false, some, List, [], ◌∷◌, ◌++◌, get_elem?,
  get_or, length, take, drop, get_elem?-eq-get_or, length-append, arith,
}
use fips_ipc.Xdp.{◌>>=◌, be16, bytes_at}

pub get_elem?-read :
    (packet : List ℕ) (i : ℕ) → i < length packet → get_elem? packet i ≡ some (get_or packet i 0)
get_elem?-read packet i h = get_elem?-eq-get_or packet i 0 h

pub be16-read :
    (packet : List ℕ) (i : ℕ)
    → i + 1 < length packet
    → be16 packet i ≡ some (get_or packet i 0 * 256 + get_or packet (i + 1) 0)
be16-read packet i h =
    rw (get_elem?-read packet i (omega arith), ◌>>=◌, get_elem?-read packet (i + 1) h)

pub bytes_at-read :
    (packet : List ℕ) (i n : ℕ)
    → i + n ≤ length packet
    → bytes_at packet i n ≡ some (take n (drop i packet))
bytes_at-read packet i n h = ground arith

-- Reads past a first part of the packet.
pub get_elem?-append :
    (xs ys : List ℕ) (n i : ℕ) → length xs ≡ n → get_elem? (xs ++ ys) (n + i) ≡ get_elem? ys i
get_elem?-append [] ys zero i e = ap (λ (k : ℕ). get_elem? ys k) (omega arith)
get_elem?-append [] ys (suc n) i e = absurd (omega arith)
get_elem?-append (x ∷ xs) ys zero i e = absurd (omega arith)
get_elem?-append (x ∷ xs) ys (suc n) i e =
    rw (let step : suc n + i ≡ suc (n + i) = omega arith in step)
      (get_elem?-append xs ys n i (omega arith))

drop-append : (xs ys : List ℕ) (n : ℕ) → length xs ≡ n → drop n (xs ++ ys) ≡ ys
drop-append [] ys zero e = refl
drop-append [] ys (suc n) e = absurd (omega arith)
drop-append (x ∷ xs) ys zero e = absurd (omega arith)
drop-append (x ∷ xs) ys (suc n) e = drop-append xs ys n (omega arith)

take-append : (xs ys : List ℕ) (n : ℕ) → length xs ≡ n → take n (xs ++ ys) ≡ xs
take-append [] ys zero e = refl
take-append [] ys (suc n) e = absurd (omega arith)
take-append (x ∷ xs) ys zero e = absurd (omega arith)
take-append (x ∷ xs) ys (suc n) e = ap (◌∷◌ x) (take-append xs ys n (omega arith))

pub bytes_at-append :
    (xs ys zs : List ℕ) (n k : ℕ)
    → length xs ≡ n
    → length ys ≡ k
    → bytes_at (xs ++ (ys ++ zs)) n k ≡ some ys
bytes_at-append xs ys zs n k e f =
    let total = length-append xs (ys ++ zs) in
    let inner = length-append ys zs in
    rw
      (
        (let long : ltb (length (xs ++ (ys ++ zs))) (n + k) ≡ false = ground arith in long),
        drop-append xs (ys ++ zs) n e,
        take-append ys zs k f,
      )
      refl
