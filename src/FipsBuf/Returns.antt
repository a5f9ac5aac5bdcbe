-- ===== src/FipsBuf/Returns.antt =====
-- `fips_buf_list_add_sqe` and `fips_buf_return`: the ranges of lines that the threads of a reader have
-- returned, and the list of those that wait for an older one.
use fips_ipc.Prelude.{
  ℕ, zero, suc, ◌+◌, ◌%◌, ◌^◌, Option, none, some, List, [], ◌==◌, ltb, if◌then◌else◌, get_or, set,
}
use fips_ipc.FipsBuf.{Code, success, no_space, Pointer, Header, Segment}
use fips_ipc.FipsBuf.Ring.{Range, masked, no_pointer}

-- `fips_buf_sqe_t`. An offset to an entry is its index in the array, or `none` for 0.
pub record Sqe : Type 0 where
  pub range : Range
  pub next_offset : Option ℕ

-- `fips_buf_list_t` with the array of entries behind it.
pub record SqeList : Type 0 where
  pub capacity : ℕ
  pub write_index : ℕ
  pub read_index : ℕ
  pub first_offset : Option ℕ
  pub sqes : ℕ → Sqe

-- `sizeof(fips_buf_sqe_t)`: the 8 bytes of the tag and an offset.
abbrev pub sqe_size : ℕ
sqe_size = 16

abbrev pub no_range : Range
no_range = record { start_index = 0; count = 0; segment_index = 0; reader_index = 0 }

unfoldable pub store_sqe : ℕ → Sqe → SqeList → SqeList
store_sqe i sqe l = record l { sqes = λ j. if j == i then sqe else l.sqes j }

-- `sqe->next_offset = ...`
unfoldable pub set_next_offset : ℕ → Option ℕ → SqeList → SqeList
unfolding store_sqe
set_next_offset i next l = store_sqe i (record (l.sqes i) { next_offset = next }) l

-- `prev_sqe->next_offset = new_sqe_offset`, or the same for `list->first_offset`.
unfoldable pub link_new : Option ℕ → ℕ → SqeList → SqeList
unfolding set_next_offset
link_new none new l = record l { first_offset = some new }
link_new (some prev) new l = set_next_offset prev (some new) l

-- The loop that looks for the place of a new entry, with a bound on the rounds.
unfoldable pub place_sqe : ℕ → ℕ → ℕ → Option ℕ → ℕ → SqeList → Option SqeList
place_sqe zero start new prev current l = none
place_sqe (suc rounds) start new prev current l =
    let sqe = l.sqes current in
    let on : Option SqeList = elim sqe.next_offset [
      | none ↦ some (link_new prev new (set_next_offset current (some new) l))
      | some next ↦ place_sqe rounds start new (some current) next l
    ] in
    if ltb start sqe.range.start_index
    then some (set_next_offset new (some current) (link_new prev new l))
    else on

abbrev pub with_success : Option SqeList → Option (Code × SqeList)
with_success none = none
with_success (some l) = some (success, l)

-- The new entry goes into the list that begins at the offset.
unfoldable pub link_sqe : ℕ → ℕ → ℕ → Option ℕ → SqeList → Option (Code × SqeList)
link_sqe rounds start new none l = some (success, record l { first_offset = some new })
link_sqe rounds start new (some first) l = with_success (place_sqe rounds start new none first l)

-- The list with the new entry written and not linked; `list->capacity` is not 0.
abbrev pub written : Range → SqeList → SqeList
written tag l =
    store_sqe l.write_index (record { range = tag; next_offset = none })
      (record l { write_index = (l.write_index + 1) % l.capacity })

-- A range that does not continue the lines that are committed.
unfoldable pub wait_sqe : ℕ → Range → SqeList → Option (Code × SqeList)
wait_sqe rounds tag l =
    if l.read_index == (l.write_index + 1) % l.capacity
    then some (no_space, l)
    else link_sqe rounds tag.start_index l.write_index l.first_offset (written tag l)

-- The loop that takes the entries off the list which continue the committed lines.
unfoldable pub commit_sqes : ℕ → Header → Pointer × SqeList → Option (Pointer × SqeList)
commit_sqes zero hdr (reader, l) = none
commit_sqes (suc rounds) hdr (reader, l) = elim l.first_offset [
  | none ↦ some (reader, l)
  | some current ↦
      let sqe = l.sqes current in
      let rest = commit_sqes rounds hdr (
        record reader { commit_offset = masked hdr (reader.commit_offset + sqe.range.count) },
        store_sqe current (record { range = no_range; next_offset = none })
            (record l {
              first_offset = sqe.next_offset;
              read_index = (l.read_index + sqe_size) % 2 ^ 64;
            }),
      ) in
      if sqe.range.start_index == reader.commit_offset then rest else some (reader, l)
]

abbrev pub with_code : Option (Pointer × SqeList) → Option (Code × Pointer × SqeList)
with_code none = none
with_code (some (reader, l)) = some (success, reader, l)

abbrev pub after_wait :
    ℕ → Header → Pointer → Option (Code × SqeList) → Option (Code × Pointer × SqeList)
after_wait rounds hdr reader none = none
after_wait rounds hdr reader (some (success, l)) = with_code (commit_sqes rounds hdr (reader, l))
after_wait rounds hdr reader (some (code, l)) = some (code, reader, l)

-- `none`: a loop has not ended within the rounds. The lock is granted.
unfoldable pub fips_buf_list_add_sqe :
    ℕ → Header → Range → Pointer × SqeList → Option (Code × Pointer × SqeList)
fips_buf_list_add_sqe rounds hdr tag (reader, l) =
    if reader.commit_offset == tag.start_index
    then with_code (
        commit_sqes rounds hdr
          (record reader { commit_offset = masked hdr (reader.commit_offset + tag.count) }, l))
    else after_wait rounds hdr reader (wait_sqe rounds tag l)

abbrev pub no_segment : Segment
no_segment = record {
  index = 0;
  writer = no_pointer;
  readers = [];
  data_offset = 0;
  width_at = λ o. 0;
}

abbrev pub no_list : SqeList
no_list = record {
  capacity = 0;
  write_index = 0;
  read_index = 0;
  first_offset = none;
  sqes = λ i. record { range = no_range; next_offset = none };
}

-- The segments, each with the lists of its readers.
abbrev pub store_reader :
    Range
    → List (Segment × List SqeList)
    → Option (Code × Pointer × SqeList)
    → Option (Code × List (Segment × List SqeList))
store_reader tag segments none = none
store_reader tag segments (some (code, reader, l)) =
    let (seg, lists) = get_or segments tag.segment_index (no_segment, []) in
    some (
      code,
      set segments tag.segment_index (
        record seg { readers = set seg.readers tag.reader_index reader },
        set lists tag.reader_index l,
      ),
    )

-- The tag names the segment and the reader.
unfoldable pub fips_buf_return :
    ℕ
    → Header
    → Range
    → List (Segment × List SqeList)
    → Option (Code × List (Segment × List SqeList))
unfolding fips_buf_list_add_sqe
fips_buf_return rounds hdr tag segments =
    let (seg, lists) = get_or segments tag.segment_index (no_segment, []) in
    store_reader tag segments (
      fips_buf_list_add_sqe rounds hdr tag
        (get_or seg.readers tag.reader_index no_pointer, get_or lists tag.reader_index no_list))
