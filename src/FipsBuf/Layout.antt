-- ===== src/FipsBuf/Layout.antt =====
-- The layout of the shared memory: its size, the offsets within it, and `setup_shm`.
use Prim.Native.Nat.{bit_or, bit_xor}
use fips_ipc.Prelude.{
  ℕ, zero, suc, ◌+◌, ◌-◌, ◌*◌, ◌/◌, ◌%◌, ◌^◌, Bool, Option, none, some, List, [], ◌∷◌, ◌==◌, ltb,
  if◌then◌else◌,
}
use fips_ipc.FipsBuf.{Header}

-- The numbers that the compiler gives for `sizeof`.
pub record Sizes : Type 0 where
  pub header : ℕ
  pub assignment : ℕ
  pub segment_header : ℕ
  pub pointer : ℕ
  pub list : ℕ
  pub sqe : ℕ

-- `fips_buf_arg_t`; `name_bytes` is the number made of the first 8 bytes of a name of more than 7.
pub record Arg : Type 0 where
  pub name_bytes : Option ℕ
  pub overwrite : Bool
  pub line_count_exp : ℕ
  pub max_reader_count : ℕ
  pub max_reader_thread_count : ℕ
  pub max_segment_count : ℕ
  pub line_size : ℕ
  pub max_sqe_count : ℕ

-- `(count + 7) & ~7`
abbrev pub aligned : ℕ → ℕ
aligned count = (count + 7) / 8 * 8

-- The bytes of one reader in a segment, and of the lines of a segment.
abbrev pub reader_size : Sizes → ℕ → ℕ
reader_size s max_sqe_count = s.pointer + s.list + s.sqe * max_sqe_count

abbrev pub data_size : ℕ → ℕ → ℕ
data_size line_size line_count_exp = 2 ^ line_count_exp * ((line_size + 2) % 2 ^ 32) % 2 ^ 32

unfoldable pub calculate_shared_memory_size : Sizes → Arg → ℕ
calculate_shared_memory_size s arg =
    s.header
    + aligned arg.max_segment_count
    + arg.max_reader_count * arg.max_reader_thread_count * s.assignment
    + arg.max_segment_count
      * (s.segment_header
          + arg.max_reader_count * reader_size s arg.max_sqe_count
          + data_size arg.line_size arg.line_count_exp)

unfoldable pub calc_checksum : Arg → ℕ
calc_checksum arg =
    let fields = bit_or arg.line_count_exp (
      bit_or (arg.max_reader_count * 2 ^ 8) (
        bit_or (arg.max_reader_thread_count * 2 ^ 16)
          (bit_or (arg.max_segment_count * 2 ^ 24) (arg.line_size * 2 ^ 32)))) in
    elim arg.name_bytes [
      | none ↦ bit_xor fields arg.max_sqe_count
      | some name ↦ bit_xor (bit_xor name fields) arg.max_sqe_count
    ]

-- The macros for offsets.
unfoldable pub get_segment_header : Sizes → Header → ℕ → ℕ
get_segment_header s hdr segment_index =
    hdr.first_segment_offset
    + segment_index
      * (s.segment_header
          + hdr.max_reader_count * reader_size s hdr.max_sqe_count
          + data_size hdr.line_size hdr.line_count_exp)

unfoldable pub get_reader : Sizes → Header → ℕ → ℕ → ℕ
get_reader s hdr readers_offset reader_index =
    readers_offset + reader_index * reader_size s hdr.max_sqe_count

unfoldable pub get_reader_sge_list : Sizes → Header → ℕ → ℕ → ℕ
get_reader_sge_list s hdr readers_offset reader_index =
    readers_offset + reader_index * reader_size s hdr.max_sqe_count + s.pointer

unfoldable pub get_reader_assignments : Sizes → Header → ℕ → ℕ
get_reader_assignments s hdr reader_index =
    hdr.reader_assignments_offset + reader_index * hdr.max_reader_thread_count * s.assignment

-- What `setup_shm` writes for one segment: where it is, its links, and where its parts are.
pub record Placed : Type 0 where
  pub at : ℕ
  pub next_offset : ℕ
  pub prev_offset : ℕ
  pub index : ℕ
  pub readers_offset : ℕ
  pub data_offset : ℕ

-- The loop over the segments, from `i` on with the rounds left.
unfoldable pub place_segments : Sizes → Header → ℕ → ℕ → ℕ → ℕ → List Placed
unfolding get_segment_header
place_segments s hdr zero i current prev = []
place_segments s hdr (suc rounds) i current prev =
    let next = get_segment_header s hdr (i + 1) in
    let readers_offset = current + s.segment_header in
    record {
      at = current;
      next_offset = if ltb i (hdr.segment_count - 1) then next else 0;
      prev_offset = prev;
      index = i;
      readers_offset = readers_offset;
      data_offset = readers_offset + hdr.max_reader_count * reader_size s hdr.max_sqe_count;
    }
    ∷ place_segments s hdr rounds (i + 1) next current

-- The fields of the header.
unfoldable pub fill_header : Sizes → Arg → Header → Header
unfolding calc_checksum
fill_header s arg hdr =
    let writers = s.header in
    let readers = writers + aligned arg.max_segment_count in
    record hdr {
      initialized = 1;
      checksum = calc_checksum arg;
      segment_count = arg.max_segment_count;
      max_reader_count = arg.max_reader_count;
      max_reader_thread_count = arg.max_reader_thread_count;
      line_count_exp = arg.line_count_exp;
      overwrite = arg.overwrite;
      line_size = arg.line_size;
      max_sqe_count = arg.max_sqe_count;
      writer_assignments_offset = writers;
      reader_assignments_offset = readers;
      first_segment_offset =
          readers + arg.max_reader_count * arg.max_reader_thread_count * s.assignment;
    }

-- `setup_shm` on a header and the segments of its memory; the first segment's link back is left as
-- the kernel hands the memory out.
unfoldable pub setup_shm : Sizes → Arg → Header × List Placed → Header × List Placed
unfolding fill_header place_segments
setup_shm s arg (hdr, segments) =
    let new = fill_header s arg hdr in
    if hdr.initialized == 0
    then (new, place_segments s new arg.max_segment_count 0 new.first_segment_offset 0)
    else (hdr, segments)

-- `checksum`: does a process ask for the memory that is there?
unfoldable pub same_checksum : Arg → Header → Bool
unfolding calc_checksum
same_checksum arg hdr = calc_checksum arg == hdr.checksum
