-- ===== src/FipsBuf/ReadReturn.antt =====
-- `fips_buf_return` after the round of `fips_buf_read` on one segment: `store_reader`, `commit_sqes`
-- and `claimed` together.
use fips_ipc.Prelude.{
  ℕ, suc, ◌+◌, ◌%◌, ◌^◌, ◌≡◌, ◌<◌, refl, sym, ap, ◌∙◌, true, Bool-cases, inl, inr, none, some, List,
  [], ◌==◌, length, get_or, set, get_or-set_self, arith,
}
use mathlib.Core.Option.{some-injective, none-ne-some}
use fips_ipc.FipsBuf.{Code, success, Pointer, Header, Segment, Iovec}
use fips_ipc.FipsBuf.Ring.{Range, masked, claim, claimed, no_pointer, too_few}
use fips_ipc.FipsBuf.Returns.{
  SqeList, no_segment, no_list, store_reader, commit_sqes, fips_buf_list_add_sqe, fips_buf_return,
}

-- A claim that succeeds gives what `claimed` says.
pub claim-some :
    (hdr : Header) (reader_index iovcnt : ℕ) (seg : Segment) (got : List Iovec × Range × Segment)
    → claim hdr reader_index iovcnt seg ≡ some got
    → claimed hdr reader_index iovcnt seg ≡ got
unfolding claim
claim-some hdr reader_index iovcnt seg got e =
    let head = (get_or seg.readers reader_index no_pointer).head_offset in
    elim (Bool-cases (too_few head (masked hdr (head + iovcnt)) seg.writer.commit_offset)) [
      | inl few ↦ absurd (none-ne-some _ (rw few at e))
      | inr enough ↦ some-injective _ _ (rw enough at e)
    ]

-- A range at the commit offset, with none waiting.
add_sqe-in_order :
    (hdr : Header) (tag : Range) (reader : Pointer) (l : SqeList) (rounds : ℕ)
    → reader.commit_offset ≡ tag.start_index
    → l.first_offset ≡ none
    → fips_buf_list_add_sqe (suc rounds) hdr tag (reader, l)
      ≡ some (
        success,
        record reader { commit_offset = masked hdr (reader.commit_offset + tag.count) },
        l,
      )
unfolding fips_buf_list_add_sqe commit_sqes
add_sqe-in_order hdr tag reader l rounds here empty =
    let on : (reader.commit_offset == tag.start_index) ≡ true = ground arith in
    simp (on, empty) refl

-- The return of a tag, from the segment it names and what is done to its reader.
return-at :
    (rounds : ℕ) (hdr : Header) (tag : Range) (segments : List (Segment × List SqeList))
    (seg : Segment) (lists : List SqeList) (code : Code) (reader : Pointer) (l : SqeList)
    → get_or segments tag.segment_index (no_segment, []) ≡ (seg, lists)
    → fips_buf_list_add_sqe rounds hdr tag
        (get_or seg.readers tag.reader_index no_pointer, get_or lists tag.reader_index no_list)
      ≡ some (code, reader, l)
    → fips_buf_return rounds hdr tag segments
      ≡ some (
        code,
        set segments tag.segment_index (
          record seg { readers = set seg.readers tag.reader_index reader },
          set lists tag.reader_index l,
        ),
      )
unfolding fips_buf_return
return-at rounds hdr tag segments seg lists code reader l there run =
    let stored =
      ap
        (λ (p : Segment × List SqeList). some (
          code,
          set segments tag.segment_index (
            record p.0 { readers = set p.0.readers tag.reader_index reader },
            set p.1 tag.reader_index l,
          ),
        ))
        there in
    let runs =
      ap
        (λ (p : Segment × List SqeList). store_reader tag segments (
          fips_buf_list_add_sqe rounds hdr tag
            (get_or p.0.readers tag.reader_index no_pointer, get_or p.1 tag.reader_index no_list)))
        there in
    runs ∙ ap (store_reader tag segments) run ∙ stored

-- The reader after the claim, and after the return.
added :
    (hdr : Header) (reader_index iovcnt rounds : ℕ) (seg : Segment) (l : SqeList)
    → iovcnt < 2 ^ 16
    → reader_index < length seg.readers
    → (get_or seg.readers reader_index no_pointer).commit_offset
      ≡ (get_or seg.readers reader_index no_pointer).head_offset
    → l.first_offset ≡ none
    → let (iov, tag, seg') = claimed hdr reader_index iovcnt seg in
      let new = masked hdr ((get_or seg.readers reader_index no_pointer).head_offset + iovcnt) in
      fips_buf_list_add_sqe
        (suc rounds)
        hdr
        tag
        (get_or seg'.readers tag.reader_index no_pointer, l)
      ≡ some (success, record { head_offset = new; commit_offset = new }, l)
unfolding claimed
added hdr reader_index iovcnt rounds seg l small known quiet empty =
    let reader = get_or seg.readers reader_index no_pointer in
    let moved : Pointer = record reader {
      head_offset = masked hdr (reader.head_offset + iovcnt);
    } in
    let count : iovcnt % 2 ^ 16 ≡ iovcnt = omega arith in
    let own = get_or-set_self seg.readers reader_index moved no_pointer known in
    let tag = (claimed hdr reader_index iovcnt seg).1 in
    let run = add_sqe-in_order hdr tag moved l rounds quiet empty in
    let there : fips_buf_list_add_sqe (suc rounds) hdr tag
          (get_or (set seg.readers reader_index moved) reader_index no_pointer, l)
        ≡ some (
          success,
          record moved { commit_offset = masked hdr (reader.commit_offset + iovcnt % 2 ^ 16) },
          l,
        ) =
      rw own run in
    there ∙ rw (quiet, count) refl

return-claimed :
    (hdr : Header) (reader_index iovcnt rounds : ℕ) (seg : Segment)
    (segments : List (Segment × List SqeList)) (lists : List SqeList)
    → iovcnt < 2 ^ 16
    → reader_index < length seg.readers
    → (get_or seg.readers reader_index no_pointer).commit_offset
      ≡ (get_or seg.readers reader_index no_pointer).head_offset
    → let (iov, tag, seg') = claimed hdr reader_index iovcnt seg in
      get_or segments seg.index (no_segment, []) ≡ (seg', lists)
      → (get_or lists reader_index no_list).first_offset ≡ none
      → let new = masked hdr ((get_or seg.readers reader_index no_pointer).head_offset + iovcnt) in
        fips_buf_return (suc rounds) hdr tag segments
        ≡ some (
          success,
          set segments seg.index (
            record seg' {
              readers =
                  set seg'.readers reader_index (record { head_offset = new; commit_offset = new });
            },
            set lists reader_index (get_or lists reader_index no_list),
          ),
        )
unfolding claimed
return-claimed hdr reader_index iovcnt rounds seg segments lists small known quiet there empty =
    let (iov, tag, seg') = claimed hdr reader_index iovcnt seg in
    let new = masked hdr ((get_or seg.readers reader_index no_pointer).head_offset + iovcnt) in
    return-at (suc rounds) hdr tag segments seg' lists success
      (record { head_offset = new; commit_offset = new }) (get_or lists reader_index no_list) there
      (added hdr reader_index iovcnt rounds seg (get_or lists reader_index no_list) small known
        quiet empty)

-- When a claim of fewer than 2^16 lines succeeds for a reader of the segment whose commit offset is
-- at its head, the segment after it is stored at its index among the segments, and no range waits
-- in the reader's list, then `fips_buf_return` of the tag of the claim succeeds in its first round
-- and leaves the head and the commit offset of this reader at the line behind the claimed ones, its
-- list as it was, and every other segment, reader and list unchanged.
pub fips_buf_return-claim :
    (hdr : Header) (reader_index iovcnt rounds : ℕ) (seg seg' : Segment) (iov : List Iovec)
    (tag : Range) (segments : List (Segment × List SqeList)) (lists : List SqeList)
    → iovcnt < 2 ^ 16
    → reader_index < length seg.readers
    → (get_or seg.readers reader_index no_pointer).commit_offset
      ≡ (get_or seg.readers reader_index no_pointer).head_offset
    → claim hdr reader_index iovcnt seg ≡ some (iov, tag, seg')
    → get_or segments seg.index (no_segment, []) ≡ (seg', lists)
    → (get_or lists reader_index no_list).first_offset ≡ none
    → let new = masked hdr ((get_or seg.readers reader_index no_pointer).head_offset + iovcnt) in
      fips_buf_return (suc rounds) hdr tag segments
      ≡ some (
        success,
        set segments seg.index (
          record seg' {
            readers =
                set seg'.readers reader_index (record { head_offset = new; commit_offset = new });
          },
          set lists reader_index (get_or lists reader_index no_list),
        ),
      )
unfolding fips_buf_return claimed
fips_buf_return-claim hdr reader_index iovcnt rounds seg seg' iov tag segments lists small known
      quiet taken there empty =
    let got = claim-some hdr reader_index iovcnt seg (iov, tag, seg') taken in
    let tag_same = ap (λ (g : List Iovec × Range × Segment). g.1) got in
    let seg_same = ap (λ (g : List Iovec × Range × Segment). g.2) got in
    rw (← tag_same, ← seg_same)
      (return-claimed hdr reader_index iovcnt rounds seg segments lists small known quiet
        (there ∙ ap (λ (g : Segment). (g, lists)) (sym seg_same)) empty)
