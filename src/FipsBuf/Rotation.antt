-- ===== src/FipsBuf/Rotation.antt =====
-- `fips_buf_read`: the update of the segments that the thread keeps, and the rotation over them.
use fips_ipc.Prelude.{
  ℕ, zero, suc, ◌+◌, ◌%◌, Option, none, some, List, ◌==◌, leb, if◌then◌else◌, get_or, set,
}
use fips_ipc.FipsBuf.{Header, Segment, Iovec}
use fips_ipc.FipsBuf.Ring.{Range, claim}
use fips_ipc.FipsBuf.Returns.{no_segment}
use fips_ipc.FipsBuf.Assign.{Assignment}
use fips_ipc.FipsBuf.Attach.{Threads, Behind}
use fips_ipc.FipsBuf.Cache.{
  Cache, CacheCode, updated, update_cached_reader_values, remove_cached_entries,
}

-- What a call returns, on success with the iovecs and the tag.
pub data ReadCode : Type 0 where
  read_lines : List Iovec → Range → ReadCode
  read_empty not_implemented : ReadCode
  cache_failed : CacheCode → ReadCode

-- What a call changes: the variable `rotation` of the thread, its kept segments, and the segments.
pub record ReadState : Type 0 where
  pub rotation : ℕ
  pub cache : Cache
  pub segments : List Segment

abbrev pub next_rotation : ℕ → ℕ → ℕ
next_rotation cached_count rotation =
    if leb cached_count ((rotation + 1) % 256) then 0 else (rotation + 1) % 256

abbrev pub segment_of : ReadState → ℕ → Segment
segment_of s k = get_or s.segments k no_segment

abbrev pub served : ReadState → ℕ → List Iovec × Range × Segment → ReadCode × ReadState
served s k (iov, tag, seg) = (read_lines iov tag, record s { segments = set s.segments k seg })

module _ (hdr : Header) (reader_index iovcnt cached_count : ℕ) where
  -- The loop, with the tries left; `none` is a slot that is NULL, or `remove_cached_entries` on one
  -- that is not kept.
  unfoldable pub read_loop : ℕ → ReadState → Option (ReadCode × ReadState)
  read_loop zero s = some (read_empty, s)
  read_loop (suc tries) s =
      let rotation = next_rotation cached_count s.rotation in
      let turned : ReadState = record s { rotation = rotation } in
      elim (get_or s.cache.current_segment rotation none) [
        | none ↦ none
        | some k ↦ elim (claim hdr reader_index iovcnt (segment_of s k)) [
          | some got ↦ some (served turned k got)
          | none ↦ elim (remove_cached_entries rotation s.cache) [
            | none ↦ none
            | some cache ↦ read_loop tries (record turned { cache = cache })
          ]
        ]
      ]

abbrev pub rotate : Header → ℕ → ℕ → ReadState → Option (ReadCode × ReadState)
rotate hdr reader_index iovcnt s =
    let cached_count = s.cache.assigned_reader_count + s.cache.trailing_buffers_count in
    read_loop hdr reader_index iovcnt cached_count cached_count s

abbrev pub after_refresh :
    Header → ℕ → ℕ → ReadState → Option (CacheCode × Cache) → Option (ReadCode × ReadState)
after_refresh hdr reader_index iovcnt s none = none
after_refresh hdr reader_index iovcnt s (some (updated, cache)) =
    rotate hdr reader_index iovcnt (record s { cache = cache })
after_refresh hdr reader_index iovcnt s (some (code, cache)) =
    some (cache_failed code, record s { cache = cache })

unfoldable pub fips_buf_read :
    Behind → Option Assignment → Threads → ℕ → ℕ → ℕ → ReadState → Option (ReadCode × ReadState)
unfolding read_loop
fips_buf_read behind assignment t reader_index iovcnt flags s =
    if flags == 0
    then (if s.cache.assignment_generation == t.generation
        then rotate t.header reader_index iovcnt s
        else after_refresh t.header reader_index iovcnt s
            (update_cached_reader_values behind assignment t s.cache))
    else some (not_implemented, s)
