-- ===== src/FipsBuf/Ring.antt =====
-- `fips_get_write_buffer`, `fips_buf_write` and what `fips_buf_read` does on one segment.
use fips_ipc.Prelude.{
  ℕ, zero, suc, ◌+◌, ◌-◌, ◌*◌, ◌%◌, ◌^◌, Bool, false, not, ◌&&◌, ◌||◌, Option, none, some, List, [],
  ◌∷◌, ◌==◌, ltb, leb, if◌then◌else◌, take, get_or, set,
}
use fips_ipc.FipsBuf.{Code, success, no_space, corrupted, Pointer, Header, Segment, Iovec}

-- `x & header->line_MASK`; the mask is `(1 << line_count_exp) - 1`.
abbrev pub masked : Header → ℕ → ℕ
masked hdr x = x % 2 ^ 32 % 2 ^ hdr.line_count_exp

-- The tests of `fips_get_write_buffer` for one reader's commit offset.
unfoldable pub in_the_way : ℕ → ℕ → ℕ → Bool
in_the_way head new_head commit =
    ltb head new_head && (ltb head commit && leb commit new_head)
    || ltb new_head head && (ltb head commit || leb commit new_head)

-- The loop over the readers.
unfoldable pub any_in_the_way : ℕ → ℕ → List Pointer → Bool
unfolding in_the_way
any_in_the_way head new_head [] = false
any_in_the_way head new_head (r ∷ rs) =
    in_the_way head new_head r.commit_offset || any_in_the_way head new_head rs

-- The offset of a line, past its 2 bytes for the width. The mask has 64 bits, so the product has
-- them too, and is below 2^64.
unfoldable pub line_offset : Header → ℕ → ℕ → ℕ
line_offset hdr data_offset line = data_offset + (hdr.line_size + 2) % 2 ^ 32 * masked hdr line + 2

-- The loop that fills the iovecs, `i` lines on from the head, with the rounds left.
unfoldable pub write_iovecs : Header → ℕ → ℕ → ℕ → ℕ → List Iovec
unfolding line_offset
write_iovecs hdr data_offset head i zero = []
write_iovecs hdr data_offset head i (suc rounds) =
    record { iov_base = line_offset hdr data_offset (head + i); iov_len = hdr.line_size }
    ∷ write_iovecs hdr data_offset head (i + 1) rounds

-- The result, the iovecs where they are filled, and the segment.
unfoldable pub get_write_buffer : Header → ℕ → Segment → Code × List Iovec × Segment
unfolding any_in_the_way write_iovecs
get_write_buffer hdr iovcnt seg =
    let head = seg.writer.head_offset in
    let new_head = masked hdr (head + iovcnt) in
    if not hdr.overwrite && any_in_the_way head new_head (take hdr.reader_count seg.readers)
    then (no_space, [], seg)
    else (
      success,
      write_iovecs hdr seg.data_offset head 0 iovcnt,
      record seg { writer = record (seg.writer) { head_offset = new_head } },
    )

-- The loop of `fips_buf_write` that stores the widths.
unfoldable pub store_widths : List Iovec → (ℕ → ℕ) → ℕ → ℕ
store_widths [] width_at = width_at
store_widths (v ∷ vs) width_at =
    store_widths vs (λ o. if o == v.iov_base - 2 then v.iov_len % 2 ^ 16 else width_at o)

-- The commit of `iovcnt` lines; the widths are stored in any case.
unfoldable pub write : Header → List Iovec → ℕ → Segment → Code × Segment
unfolding store_widths
write hdr iovecs iovcnt seg =
    let stored = record seg { width_at = store_widths (take iovcnt iovecs) seg.width_at } in
    let new_commit = masked hdr (seg.writer.commit_offset + iovcnt) in
    if ltb seg.writer.head_offset new_commit
    then (corrupted, stored)
    else (success, record stored { writer = record (seg.writer) { commit_offset = new_commit } })

-- The tests of `fips_buf_read` on a segment: are fewer lines committed than wanted?
unfoldable pub too_few : ℕ → ℕ → ℕ → Bool
too_few head new_head commit =
    ltb head new_head && (leb head commit && ltb commit new_head)
    || ltb new_head head && (leb head commit || ltb commit new_head)

-- `fips_buf_range_t`
pub record Range : Type 0 where
  pub start_index : ℕ
  pub count : ℕ
  pub segment_index : ℕ
  pub reader_index : ℕ

-- The loop that fills a reader's iovecs.
unfoldable pub read_iovecs : Header → Segment → ℕ → ℕ → ℕ → List Iovec
unfolding line_offset
read_iovecs hdr seg head i zero = []
read_iovecs hdr seg head i (suc rounds) =
    let base = line_offset hdr seg.data_offset (head + i) in
    record { iov_base = base; iov_len = seg.width_at (base - 2) }
    ∷ read_iovecs hdr seg head (i + 1) rounds

abbrev pub no_pointer : Pointer
no_pointer = record { head_offset = 0; commit_offset = 0 }

-- What a reader gets: the iovecs, the tag, and the segment with the reader's head moved on.
unfoldable pub claimed : Header → ℕ → ℕ → Segment → List Iovec × Range × Segment
unfolding read_iovecs
claimed hdr reader_index iovcnt seg =
    let reader = get_or seg.readers reader_index no_pointer in
    let head = reader.head_offset in
    let new_head = masked hdr (head + iovcnt) in
    (
      read_iovecs hdr seg head 0 iovcnt,
      record {
        start_index = head;
        count = iovcnt % 2 ^ 16;
        segment_index = seg.index;
        reader_index = reader_index;
      },
      record seg {
        readers = set seg.readers reader_index (record reader { head_offset = new_head });
      },
    )

-- One round of `fips_buf_read`: `none` if the segment has not enough lines.
unfoldable pub claim : Header → ℕ → ℕ → Segment → Option (List Iovec × Range × Segment)
unfolding too_few claimed
claim hdr reader_index iovcnt seg =
    let head = (get_or seg.readers reader_index no_pointer).head_offset in
    if too_few head (masked hdr (head + iovcnt)) seg.writer.commit_offset
    then none
    else some (claimed hdr reader_index iovcnt seg)
