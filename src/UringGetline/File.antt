-- ===== src/UringGetline/File.antt =====
-- `_rdstart`, `_rdawait`, `uring_getline` and `uring_getlines`: two buffers for the blocks of a file.
use fips_ipc.Prelude.{
  ℕ, zero, suc, ◌+◌, ◌%◌, ◌^◌, Bool, true, false, not, ◌&&◌, Option, none, some, List, [], ◌∷◌,
  ◌++◌, ◌==◌, ltb, leb, if◌then◌else◌, get_or, length, drop, set,
}
use fips_ipc.UringGetline.Line.{newline, rdline}

-- A buffer of `struct file_io_t` with what is left of its block.
pub record Block : Type 0 where
  pub fbuf : List ℕ
  pub offset : ℕ
  pub rsize : ℕ

-- `struct file_io_t`; `sqe` tells of a read that was submitted, for the second buffer or not.
pub record FileIo : Type 0 where
  pub block1 : Block
  pub block2 : Block
  pub scnd_buf : Bool
  pub sqe : Option Bool
  pub file_offset : ℕ

-- The answers of io_uring in a call: whether a read is submitted at first, what a read gives
-- (`none` for an error), and whether the read of the next block is submitted.
pub record Uring : Type 0 where
  pub submits : Bool
  pub reads : Option (List ℕ)
  pub submits_next : Bool

abbrev pub block : Bool → FileIo → Block
block second f = if second then f.block2 else f.block1

abbrev pub with_block : Bool → Block → FileIo → FileIo
with_block second b f = if second then record f { block2 = b } else record f { block1 = b }

-- `_rdline` on a buffer.
unfoldable pub line_of : Bool → FileIo → List ℕ × FileIo
unfolding rdline
line_of second f =
    let b = block second f in
    let (line, offset, rsize) = rdline b.fbuf b.offset b.rsize in
    (line, with_block second (record b { offset = offset; rsize = rsize }) f)

unfoldable pub rdstart : Bool → Bool → FileIo → FileIo
rdstart submitted second f = record f { sqe = if submitted then some second else none }

-- The loop back to the last newline.
unfoldable pub trim : List ℕ → ℕ → ℕ
trim buf zero = 0
trim buf (suc size) =
    let rest = trim buf size in if get_or buf size 0 == newline then suc size else rest

-- The result is whether the block was full.
unfoldable pub rdawait : Bool → Option (List ℕ) → FileIo → Bool × FileIo
unfolding trim
rdawait second none f = (false, record f { sqe = none })
rdawait second (some bytes) f =
    let b = block second f in
    let fbuf = bytes ++ drop (length bytes) b.fbuf in
    let size = trim fbuf (length bytes) in
    (
      ltb 0 (length bytes) && length bytes == length b.fbuf,
      with_block second (record b { fbuf = fbuf; rsize = size })
          (record f { sqe = none; file_offset = f.file_offset + size }),
    )

abbrev pub is_submitted : Option Bool → Bool
is_submitted none = false
is_submitted (some second) = true

unfoldable pub await_and_start : Bool → Uring → FileIo → FileIo
unfolding rdawait rdstart
await_and_start second uring f =
    let (full, g) = rdawait second uring.reads f in
    if full then rdstart uring.submits_next (not second) g else g

-- The two branches of `uring_getline` differ in the buffer that is in use; an empty line is the
-- result 0.
unfoldable pub getline_from : Bool → Uring → FileIo → List ℕ × FileIo
unfolding line_of await_and_start rdstart
getline_from second uring f =
    if ltb 0 (block second f).rsize
    then line_of second f
    else if is_submitted f.sqe
    then (let g = await_and_start (not second) uring f in
        if ltb 0 (block (not second) g).rsize
        then line_of (not second) (record g { scnd_buf = not second })
        else ([], g))
    else (let g = await_and_start second uring (rdstart uring.submits second f) in
        if ltb 0 (block second g).rsize then line_of second g else ([], g))

unfoldable pub uring_getline : Uring → FileIo → List ℕ × FileIo
unfolding getline_from
uring_getline uring f = getline_from f.scnd_buf uring f

-- The loop of `uring_getlines` from slot `i` on, with the answers for each round.
unfoldable pub uring_getlines :
    List Uring → ℕ → ℕ → ℕ → List (List ℕ) → FileIo → ℕ × List (List ℕ) × FileIo
unfolding uring_getline
uring_getlines [] bufsize i read iovecs f = (read, iovecs, f)
uring_getlines (uring ∷ urings) bufsize i read iovecs f =
    let (line, g) = uring_getline uring f in
    let stored =
      uring_getlines urings bufsize (i + 1) ((read + 1) % 2 ^ 16) (set iovecs i line) g in
    let skipped = uring_getlines urings bufsize (i + 1) read iovecs g in
    if length line == 0
    then (read, iovecs, g)
    else if leb (length line) bufsize
    then stored
    else skipped
