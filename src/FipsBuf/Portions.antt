-- ===== src/FipsBuf/Portions.antt =====
-- The portions of the writers that `reassign_readers` is to give to the threads of a reader.
use fips_ipc.Prelude.{
  ℕ, zero, suc, ◌+◌, ◌-◌, ◌*◌, ◌/◌, ◌%◌, ◌<◌, ◌≤◌, ◌≡◌, refl, inl, inr, min, arith, true, false,
  Bool-cases, ◌==◌, ltb, if◌then◌else◌, ==_iff,
}
use native.Mathlib.Nat.{
  div-add-mod, mod-lt, div-eq_of_lt, mul-div_cancel, mul-le-mul_right, mul-lt-mul_of_pos_right,
}

-- More threads than writers: all writers in turn, and then the last threads the first writers.
abbrev pub shared : ℕ → ℕ → ℕ → ℕ × ℕ
shared active readers k =
    ((if ltb k (active * (readers / active)) then k / (readers / active) else readers - 1 - k), 1)

-- At least as many writers as threads: the first threads have one more.
abbrev pub dealt : ℕ → ℕ → ℕ → ℕ × ℕ
dealt active readers k = (
  k * (active / readers) + min k (active % readers),
  (if ltb k (active % readers) then active / readers + 1 else active / readers),
)

-- The writers of thread `k` among those in use.
unfoldable pub portion : ℕ → ℕ → ℕ → ℕ × ℕ
portion active readers k =
    if active == 0
    then (0, 0)
    else (if ltb active readers then shared active readers k else dealt active readers k)

pub portion_none :
    (active readers : ℕ) → (active == 0) ≡ true → (k : ℕ) → portion active readers k ≡ (0, 0)
unfolding portion
portion_none active readers nobody k = rw nobody refl

pub portion_more :
    (active readers : ℕ)
    → (active == 0) ≡ false
    → ltb active readers ≡ true
    → (k : ℕ) → portion active readers k ≡ shared active readers k
unfolding portion
portion_more active readers somebody more k = rw (somebody, more) refl

pub portion_less :
    (active readers : ℕ)
    → (active == 0) ≡ false
    → ltb active readers ≡ false
    → (k : ℕ) → portion active readers k ≡ dealt active readers k
unfolding portion
portion_less active readers somebody less k = rw (somebody, less) refl

-- Place `n` is in the portion of thread `k`.
abbrev pub Covers : ℕ → ℕ → ℕ → ℕ → Type 0
Covers active readers k n =
    ((portion active readers k).0 ≤ n)
    × (n < (portion active readers k).0 + (portion active readers k).1)

pub quotient_zero : (n m : ℕ) → n < m → (n / m == 0) ≡ true
quotient_zero n m h = (==_iff (n / m) 0).1 (div-eq_of_lt h)

pub quotient_pos : (n m : ℕ) → 0 < m → m ≤ n → (n / m == 0) ≡ false
quotient_pos n m h le = elim (Bool-cases (n / m == 0)) [
  | inl e ↦
      let z : n / m ≡ 0 = (==_iff (n / m) 0).0 e in
      let whole : m * 0 + n % m ≡ n = rw z at (div-add-mod n m) in
      absurd (omega (arith, whole, mod-lt n h))
  | inr e ↦ e
]

-- The places of the first `i` threads where there are enough for all.
module _ (q r : ℕ) where
  abbrev upto : ℕ → ℕ
  upto i = i * q + min i r

  upto_mono : (i k : ℕ) → upto i ≤ upto (i + k)
  upto_mono i k = omega (arith, mul-le-mul_right {m = i} {n = i + k} q (omega arith))

  upto_next : (k : ℕ) → upto k + (if ltb k r then q + 1 else q) ≡ upto (k + 1)
  upto_next k = ground arith

  thread_of : (n m : ℕ) → n < upto m → (k : ℕ) × (k < m) × (upto k ≤ n) × (n < upto (k + 1))
  thread_of n zero h = absurd (omega arith)
  thread_of n (suc m) h = elim (Bool-cases (ltb n (upto m))) [
    | inl earlier ↦ let (k, less, lo, hi) = thread_of n m (ground arith) in (k, omega arith, lo, hi)
    | inr here ↦ let next : m + 1 ≡ suc m = omega arith in (m, omega arith, ground arith, rw next h)
  ]

  ordered : (i j : ℕ) → i < j → upto (i + 1) ≤ upto j
  ordered i j less =
      let same : i + 1 + (j - (i + 1)) ≡ j = omega arith in
      rw same at (upto_mono (i + 1) (j - (i + 1)))

  same_thread : (n i j : ℕ) → upto i ≤ n → n < upto (i + 1) → upto j ≤ n → n < upto (j + 1) → j ≡ i
  same_thread n i j lo hi lo' hi' = elim (Bool-cases (ltb i j)) [
    | inl after ↦ absurd (omega (arith, ordered i j (ground arith)))
    | inr not_after ↦ elim (Bool-cases (ltb j i)) [
      | inl before ↦ absurd (omega (arith, ordered j i (ground arith)))
      | inr not_before ↦ ground arith
    ]
  ]

module _ (active readers : ℕ) (some_readers : 0 < readers) (n : ℕ) (inside : n < active) where
  some_active : (active == 0) ≡ false
  some_active = ground arith

  shared-Covers : ltb active readers ≡ true → (k : ℕ) × (k < readers) × Covers active readers k n
  shared-Covers more =
      let p = readers / active in
      let fewer : active ≤ readers = ground (arith, more) in
      let some_turn : 0 < p = ground (arith, quotient_pos readers active (omega arith) fewer) in
      let k = n * p in
      let early : k < active * p = mul-lt-mul_of_pos_right inside some_turn in
      let within : active * p ≤ readers = omega (arith, div-add-mod readers active) in
      let test : ltb k (active * p) ≡ true = ground arith in
      (
        k,
        omega arith,
        rw (portion_more active readers some_active more k, test, mul-div_cancel n some_turn)
            (omega arith, omega arith),
      )

  dealt-Covers :
      ltb active readers ≡ false
      → (k : ℕ) × (k < readers)
        × Covers active readers k n
        × ((j : ℕ) → j < readers → Covers active readers j n → j ≡ k)
  dealt-Covers less =
      let q = active / readers in
      let r = active % readers in
      let whole : upto q r readers ≡ active =
        omega (arith, mod-lt active some_readers, div-add-mod active readers) in
      let (k, below, lo, hi) = thread_of q r n readers (omega arith) in
      (
        k,
        below,
        rw (portion_less active readers some_active less k) (lo, omega (arith, upto_next q r k)),
        λ j within covers.
            let (lo', hi') : (upto q r j ≤ n) × (n < upto q r j + (if ltb j r then q + 1 else q)) =
              rw (portion_less active readers some_active less j) at covers in
            same_thread q r n k j lo hi lo' (omega (arith, upto_next q r j)),
      )

  -- Each place is in the portion of a thread, and if there are not more threads than places, of
  -- only one.
  pub portion-Covers :
      (k : ℕ) × (k < readers)
      × Covers active readers k n
      × (readers ≤ active → (j : ℕ) → j < readers → Covers active readers j n → j ≡ k)
  portion-Covers = elim (Bool-cases (ltb active readers)) [
    | inl more ↦
        let (k, below, covered) = shared-Covers more in
        (k, below, covered, λ le. absurd (ground arith))
    | inr less ↦
        let (k, below, covered, only) = dealt-Covers less in (k, below, covered, λ le. only)
  ]
