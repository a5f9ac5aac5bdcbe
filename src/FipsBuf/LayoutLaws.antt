-- ===== src/FipsBuf/LayoutLaws.antt =====
-- Lemmas on where `setup_shm` puts the parts of the shared memory.
use fips_ipc.Prelude.{
  ℕ, zero, suc, ◌+◌, ◌-◌, ◌*◌, ◌^◌, ◌<◌, ◌≤◌, ◌≡◌, refl, ap, true, List, arith, get_or, length,
  ==_iff, ◌==◌, lt→ltb, le→ltb,
}
use native.Mathlib.Nat.{mod-eq_of_lt, mul_comm, mul-suc, pow-suc}
use fips_ipc.FipsBuf.{Header}
use fips_ipc.FipsBuf.Ring.{line_offset}
use fips_ipc.FipsBuf.Layout.{
  Sizes, Arg, Placed, reader_size, data_size, calculate_shared_memory_size, get_segment_header,
  get_reader, place_segments, fill_header, setup_shm, calc_checksum, same_checksum,
}

mul_next : (i s : ℕ) → (i + 1) * s ≡ i * s + s
mul_next i s = omega arith

abbrev pub nowhere : Placed
nowhere = record {
  at = 0;
  next_offset = 0;
  prev_offset = 0;
  index = 0;
  readers_offset = 0;
  data_offset = 0;
}

-- The bytes of a segment's lines, with the width of each, are counted in 32 bits without a wrap.
abbrev pub LinesFit : ℕ → ℕ → Type 0
LinesFit line_size line_count_exp = (line_size + 2) * 2 ^ line_count_exp < 2 ^ 32

-- A segment's header is where the macro says, its readers follow, then its lines, one behind the
-- other, and behind the last line the next segment, to which it is linked if there is one.
pub record IsPlaced (s : Sizes) (hdr : Header) (i : ℕ) (p : Placed) : Type 0 where
  pub own_index : p.index ≡ i
  pub header_at : p.at ≡ get_segment_header s hdr i
  pub readers_follow : p.readers_offset ≡ p.at + s.segment_header
  pub data_follows : get_reader s hdr p.readers_offset hdr.max_reader_count ≡ p.data_offset
  pub lines_follow :
      (line : ℕ)
      → line < 2 ^ hdr.line_count_exp
      → line_offset hdr p.data_offset line ≡ p.data_offset + line * (hdr.line_size + 2) + 2
  pub next_follows :
      p.data_offset + 2 ^ hdr.line_count_exp * (hdr.line_size + 2)
      ≡ get_segment_header s hdr (i + 1)
  pub linked : i + 1 < hdr.segment_count → p.next_offset ≡ get_segment_header s hdr (i + 1)
  pub last : hdr.segment_count ≤ i + 1 → p.next_offset ≡ 0

pow2_pos : (e : ℕ) → 0 < 2 ^ e
pow2_pos zero = omega arith
pow2_pos (suc e) = omega (arith, pow-suc 2 e, pow2_pos e)

lt_of_mul : (a b k : ℕ) → 0 < b → a * b < k → a < k
lt_of_mul a zero k h fits = absurd (omega arith)
lt_of_mul a (suc b) k h fits = omega (arith, mul-suc a b)

module _ (s : Sizes) (hdr : Header) where
  get_segment_header-next :
      (i : ℕ)
      → get_segment_header s hdr (i + 1)
        ≡ get_segment_header s hdr i
          + s.segment_header
          + hdr.max_reader_count * reader_size s hdr.max_sqe_count
          + data_size hdr.line_size hdr.line_count_exp
  unfolding get_segment_header
  get_segment_header-next i =
      let area =
        s.segment_header
        + hdr.max_reader_count * reader_size s hdr.max_sqe_count
        + data_size hdr.line_size hdr.line_count_exp in
      omega (arith, mul_next i area)

  length-place_segments :
      (rounds i current prev : ℕ) → length (place_segments s hdr rounds i current prev) ≡ rounds
  unfolding place_segments
  length-place_segments zero i current prev = refl
  length-place_segments (suc rounds) i current prev =
      ap suc (length-place_segments rounds (i + 1) _ current)

  data_size-exact :
      LinesFit hdr.line_size hdr.line_count_exp
      → data_size hdr.line_size hdr.line_count_exp ≡ 2 ^ hdr.line_count_exp * (hdr.line_size + 2)
  data_size-exact fits =
      let n = 2 ^ hdr.line_count_exp in
      let width = lt_of_mul (hdr.line_size + 2) n (2 ^ 32) (pow2_pos hdr.line_count_exp) fits in
      let area : n * (hdr.line_size + 2) < 2 ^ 32 = rw (mul_comm n (hdr.line_size + 2)) fits in
      rw (mod-eq_of_lt width) (mod-eq_of_lt area)

  line_offset-exact :
      LinesFit hdr.line_size hdr.line_count_exp
      → (data_offset line : ℕ) → line < 2 ^ hdr.line_count_exp
      → line_offset hdr data_offset line ≡ data_offset + line * (hdr.line_size + 2) + 2
  unfolding line_offset
  line_offset-exact fits data_offset line h =
      let n = 2 ^ hdr.line_count_exp in
      let width = lt_of_mul (hdr.line_size + 2) n (2 ^ 32) (pow2_pos hdr.line_count_exp) fits in
      let other : n * (hdr.line_size + 2) < 2 ^ 32 = rw (mul_comm n (hdr.line_size + 2)) fits in
      let short : line < 2 ^ 32 =
        omega (arith, h, lt_of_mul n (hdr.line_size + 2) (2 ^ 32) (omega arith) other) in
      rw (mod-eq_of_lt width, mod-eq_of_lt short, mod-eq_of_lt h, mul_comm (hdr.line_size + 2) line)
        refl

  place_segments-IsPlaced :
      LinesFit hdr.line_size hdr.line_count_exp
      → (rounds i current prev : ℕ) → current ≡ get_segment_header s hdr i
      → (j : ℕ) → j < rounds
      → IsPlaced s hdr (i + j) (get_or (place_segments s hdr rounds i current prev) j nowhere)
  unfolding place_segments get_reader
  place_segments-IsPlaced fits zero i current prev e j h = absurd (omega arith)
  place_segments-IsPlaced fits (suc rounds) i current prev e zero h =
      let same : i + 0 ≡ i = omega arith in
      let next = get_segment_header-next i in
      rw same (record {
        own_index = refl;
        header_at = e;
        readers_follow = refl;
        data_follows = refl;
        lines_follow = λ line inside. line_offset-exact fits _ line inside;
        next_follows = omega (arith, next, e, data_size-exact fits);
        linked = λ more. rw (lt→ltb i (hdr.segment_count - 1) (omega arith)) refl;
        last = λ done. rw (le→ltb i (hdr.segment_count - 1) (omega arith)) refl;
      })
  place_segments-IsPlaced fits (suc rounds) i current prev e (suc j) h =
      let same : i + suc j ≡ i + 1 + j = omega arith in
      rw same (
        place_segments-IsPlaced fits rounds (i + 1) (get_segment_header s hdr (i + 1)) current refl
          j (omega arith))

module _ (s : Sizes) (arg : Arg) (hdr : Header) (old : List Placed) (fresh : hdr.initialized ≡ 0)
    (fits : LinesFit arg.line_size arg.line_count_exp) where
  setup_shm_lem : setup_shm s arg (hdr, old) ≡ (
    fill_header s arg hdr,
    place_segments s
        (fill_header s arg hdr)
        arg.max_segment_count
        0
        (fill_header s arg hdr).first_segment_offset
        0,
  )
  unfolding setup_shm
  setup_shm_lem =
      let zero_flag : (hdr.initialized == 0) ≡ true = ground (arith, fresh) in rw zero_flag refl

  first_at :
      (fill_header s arg hdr).first_segment_offset ≡ get_segment_header s (fill_header s arg hdr) 0
  unfolding get_segment_header
  first_at = omega arith

  end_at :
      get_segment_header s (fill_header s arg hdr) arg.max_segment_count
      ≡ calculate_shared_memory_size s arg
  unfolding get_segment_header fill_header calculate_shared_memory_size
  end_at = refl

  same_sum : same_checksum arg (fill_header s arg hdr) ≡ true
  unfolding same_checksum fill_header
  same_sum = (==_iff (calc_checksum arg) (calc_checksum arg)).1 refl

  kept_count : (fill_header s arg hdr).segment_count ≡ arg.max_segment_count
  unfolding fill_header
  kept_count = refl

  kept_fit : LinesFit (fill_header s arg hdr).line_size (fill_header s arg hdr).line_count_exp
  unfolding fill_header
  kept_fit = fits

  -- After `setup_shm` on a memory that is not initialized, for lines that with their widths of 2
  -- bytes have less than 2^32 bytes together in a segment, the checksum test of a process with the
  -- same argument passes; there are as many segments as asked for; each has its header where
  -- FIPS_BUF_GET_SEGMENT_HEADER says, its readers behind that, and behind the last reader its lines,
  -- each line and its width where `fips_get_write_buffer` takes it to be and one right behind the
  -- other; the next segment, to which it is linked if there is one, begins where the last line ends;
  -- and the last segment ends where `calculate_shared_memory_size` says the memory ends.
  pub setup_shm-layout :
      let (new, segments) = setup_shm s arg (hdr, old) in
      (same_checksum arg new ≡ true)
      × (new.segment_count ≡ arg.max_segment_count)
      × (length segments ≡ arg.max_segment_count)
      × ((j : ℕ) → j < arg.max_segment_count → IsPlaced s new j (get_or segments j nowhere))
      × (get_segment_header s new arg.max_segment_count ≡ calculate_shared_memory_size s arg)
  setup_shm-layout =
      let new = fill_header s arg hdr in
      rw setup_shm_lem (
        same_sum,
        kept_count,
        length-place_segments s new arg.max_segment_count 0 new.first_segment_offset 0,
        λ j h.
            let there =
              place_segments-IsPlaced s new (kept_fit) arg.max_segment_count 0
                new.first_segment_offset 0 first_at j h in
            let same : 0 + j ≡ j = omega arith in rw same at there,
        end_at,
      )
