-- ===== src/FipsBuf.antt =====
-- src/lib/fips_buf.c and src/lib/include/fips_buf.h: a ring buffer per writer thread, which readers
-- use in place.
pub mod Ring
pub mod Returns
pub mod Rotation
pub mod Waiting
pub mod Place
pub mod ReturnsLaws
pub mod ReturnOrder
pub mod ReturnAll
pub mod RotationLaws
pub mod ReadReturn
pub mod RingLaws
pub mod Layout
pub mod LayoutLaws
pub mod Assign
pub mod Attach
pub mod Cache
pub mod Detach
pub mod AttachLaws
pub mod Portions
pub mod AssignLaws
mod ReturnExamples
mod Examples
use fips_ipc.Prelude.{ℕ, Bool, List}

-- The result codes that are used here.
pub data Code : Type 0 where
  success no_space corrupted empty : Code

-- `fips_buf_pointer_t`
pub record Pointer : Type 0 where
  pub head_offset : ℕ
  pub commit_offset : ℕ

-- `fips_buf_header_t`, less the locks and the generation; `overwrite` is the flag
-- `FIPS_BUF_FLAG_OVERWRITE`.
pub record Header : Type 0 where
  pub initialized : ℕ
  pub checksum : ℕ
  pub segment_count : ℕ
  pub max_reader_count : ℕ
  pub max_reader_thread_count : ℕ
  pub reader_count : ℕ
  pub writer_count : ℕ
  pub line_count_exp : ℕ
  pub overwrite : Bool
  pub line_size : ℕ
  pub max_sqe_count : ℕ
  pub first_segment_offset : ℕ
  pub writer_assignments_offset : ℕ
  pub reader_assignments_offset : ℕ

-- `fips_buf_segment_header_t`, with the pointers of its readers, and the 2 bytes in front of each
-- line, by their offset.
pub record Segment : Type 0 where
  pub index : ℕ
  pub writer : Pointer
  pub readers : List Pointer
  pub data_offset : ℕ
  pub width_at : ℕ → ℕ

-- `struct iovec`, its base as an offset from the header.
pub record Iovec : Type 0 where
  pub iov_base : ℕ
  pub iov_len : ℕ
