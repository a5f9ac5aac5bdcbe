-- ===== src/Sf2b/IpcFipsLaws.antt =====
-- A banning thread that serves the buffer alone for its process.
use fips_ipc.Prelude.{
  ℕ, zero, suc, ◌+◌, ◌≡◌, ◌≢◌, ◌<◌, ◌⊎◌, inl, inr, refl, sym, ap, ◌∙◌, Bool-cases, ◌==◌, Option,
  none, some, List, [], ◌∷◌, length, map, All, All-get_or, get_or, set, get_or-set_self,
  get_or-set_ne, length-set, get_or-map, arith,
}
use fips_ipc.FipsBuf.{Code, success, Pointer, Header, Segment, Iovec}
use fips_ipc.FipsBuf.Ring.{Range, masked, claim, claimed, no_pointer}
use fips_ipc.FipsBuf.Assign.{Assignment}
use fips_ipc.FipsBuf.Attach.{Threads, Behind}
use fips_ipc.FipsBuf.Returns.{SqeList, no_segment, no_list, fips_buf_return}
use fips_ipc.FipsBuf.ReadReturn.{claim-some, fips_buf_return-claim}
use fips_ipc.FipsBuf.Rotation.{ReadCode, ReadState, read_empty, fips_buf_read, served, segment_of}
use fips_ipc.FipsBuf.RotationLaws.{Keeps, TooFew, fips_buf_read-Keeps}
use fips_ipc.Sf2b.IpcFips.{
  queue_size, IpcThread, segment_part, read_state, with_lists, get_lines_ipc, return_lines_ipc,
  return_served, lines_of, with_lines, after_return, serve_lines,
}

abbrev Segments : Type 0
Segments = List (Segment × List SqeList)

with_lists-map : (xs : Segments) → with_lists (map segment_part xs) xs ≡ xs
with_lists-map [] = refl
with_lists-map ((seg, lists) ∷ xs) = ap (◌∷◌ (seg, lists)) (with_lists-map xs)

with_lists-set :
    (xs : Segments) (k : ℕ) (seg : Segment)
    → with_lists (set (map segment_part xs) k seg) xs
      ≡ set xs k (seg, (get_or xs k (no_segment, [])).1)
with_lists-set [] k seg = refl
with_lists-set ((old, lists) ∷ xs) zero seg = ap (◌∷◌ (seg, lists)) (with_lists-map xs)
with_lists-set ((old, lists) ∷ xs) (suc k) seg = ap (◌∷◌ (old, lists)) (with_lists-set xs k seg)

set-set : {A : Type 0} (xs : List A) (k : ℕ) (v w : A) → set (set xs k v) k w ≡ set xs k w
set-set [] k v w = refl
set-set (x ∷ xs) zero v w = refl
set-set (x ∷ xs) (suc k) v w = ap (◌∷◌ x) (set-set xs k v w)

set-get_or : {A : Type 0} (xs : List A) (k : ℕ) (d : A) → set xs k (get_or xs k d) ≡ xs
set-get_or [] k d = refl
set-get_or (x ∷ xs) zero d = refl
set-get_or (x ∷ xs) (suc k) d = ap (◌∷◌ x) (set-get_or xs k d)

-- The segment stands at its index, the reader has returned all that it has read there, and none of
-- its ranges waits.
pub record Quiet (reader_index k : ℕ) (segments : Segments) : Type 0 where
  pub known : k < length segments
  pub own_index : (get_or segments k (no_segment, [])).0.index ≡ k
  pub own_reader : reader_index < length (get_or segments k (no_segment, [])).0.readers
  pub returned :
      (get_or (get_or segments k (no_segment, [])).0.readers reader_index no_pointer).commit_offset
      ≡ (get_or (get_or segments k (no_segment, [])).0.readers reader_index no_pointer).head_offset
  pub none_waits :
      (get_or (get_or segments k (no_segment, [])).1 reader_index no_list).first_offset ≡ none

-- The segment in which the reader stands at the offset, and has returned all before it.
abbrev pub at_offset : ℕ → ℕ → Segment × List SqeList → Segment × List SqeList
at_offset reader_index new (seg, lists) = (
  record seg {
    readers = set seg.readers reader_index (record { head_offset = new; commit_offset = new });
  },
  lists,
)

abbrev pub advanced : ℕ → ℕ → ℕ → Segments → Segments
advanced reader_index new k segments =
    set segments k (at_offset reader_index new (get_or segments k (no_segment, [])))

advanced_same :
    (reader_index new k : ℕ) (segments : Segments)
    → Quiet reader_index k segments
    → Quiet reader_index k (advanced reader_index new k segments)
advanced_same reader_index new k segments q =
    let old = get_or segments k (no_segment, []) in
    let it = get_or-set_self segments k (at_offset reader_index new old) (no_segment, []) q.known in
    let own =
      get_or-set_self old.0.readers reader_index (record { head_offset = new; commit_offset = new })
        no_pointer q.own_reader in
    record {
      known = omega (arith, length-set segments k (at_offset reader_index new old), q.known);
      own_index = rw it q.own_index;
      own_reader =
          rw
            (
              it,
              length-set old.0.readers reader_index
                  (record { head_offset = new; commit_offset = new }),
            )
            q.own_reader;
      returned = rw (it, own) refl;
      none_waits = rw it q.none_waits;
    }

advanced_other :
    (reader_index new k j : ℕ) (segments : Segments)
    → k ≢ j
    → Quiet reader_index j segments
    → Quiet reader_index j (advanced reader_index new k segments)
advanced_other reader_index new k j segments ne q =
    let old = get_or segments k (no_segment, []) in
    let it = get_or-set_ne segments k j (at_offset reader_index new old) (no_segment, []) ne in
    record {
      known = omega (arith, length-set segments k (at_offset reader_index new old), q.known);
      own_index = rw it q.own_index;
      own_reader = rw it q.own_reader;
      returned = rw it q.returned;
      none_waits = rw it q.none_waits;
    }

advanced-Quiet :
    (reader_index new k j : ℕ) (segments : Segments)
    → Quiet reader_index k segments
    → Quiet reader_index j segments
    → Quiet reader_index j (advanced reader_index new k segments)
advanced-Quiet reader_index new k j segments here q = elim (Bool-cases (k == j)) [
  | inl same ↦
      let e : k ≡ j = ground arith in rw (sym e) (advanced_same reader_index new k segments here)
  | inr other ↦ advanced_other reader_index new k j segments (ground arith) q
]

-- The offset of the reader after it has read a full queue from segment `k`.
abbrev pub next_offset : Header → ℕ → ℕ → Segments → ℕ
next_offset hdr reader_index k segments = masked hdr (
    (get_or (get_or segments k (no_segment, [])).0.readers reader_index no_pointer).head_offset
    + queue_size)

module _ (hdr : Header) (reader_index k : ℕ) (segments : Segments)
    (q : Quiet reader_index k segments) where
  abbrev here : Segment × List SqeList
  here = get_or segments k (no_segment, [])

  abbrev pub given : List Iovec × Range × Segment
  given = claimed hdr reader_index queue_size here.0

  abbrev taken : Segments
  taken = set segments k (given.2, here.1)

  return-given :
      (rounds : ℕ)
      → claim hdr reader_index queue_size here.0 ≡ some given
      → fips_buf_return (suc rounds) hdr given.1 taken
        ≡ some (success, advanced reader_index (next_offset hdr reader_index k segments) k segments)
  unfolding claimed
  return-given rounds gives =
      let new = next_offset hdr reader_index k segments in
      let at : Pointer = record { head_offset = new; commit_offset = new } in
      let there : get_or taken here.0.index (no_segment, []) ≡ (given.2, here.1) =
        ap (λ (i : ℕ). get_or taken i (no_segment, [])) q.own_index
        ∙ get_or-set_self segments k (given.2, here.1) (no_segment, []) q.known in
      let run =
        fips_buf_return-claim hdr reader_index queue_size rounds here.0 given.2 given.0 given.1
          taken here.1 (omega arith) q.own_reader q.returned gives there q.none_waits in
      let twice =
        set-set here.0.readers reader_index
          (record {
            head_offset = new;
            commit_offset = (get_or here.0.readers reader_index no_pointer).commit_offset;
          })
          at in
      let lists_same = set-get_or here.1 reader_index no_list in
      let value : at_offset reader_index new here ≡ (
        record given.2 { readers = set given.2.readers reader_index at },
        set here.1 reader_index (get_or here.1 reader_index no_list),
      ) =
        rw (twice, lists_same) refl in
      let after : Segment × List SqeList = (
        record given.2 { readers = set given.2.readers reader_index at },
        set here.1 reader_index (get_or here.1 reader_index no_list),
      ) in
      let stored : set taken here.0.index after ≡ advanced reader_index new k segments =
        ap (λ (i : ℕ). set taken i after) q.own_index
        ∙ set-set segments k (given.2, here.1) after
        ∙ ap (set segments k) (sym value) in
      run ∙ ap (λ (s : Segments). some (success, s)) stored

module _ (behind : Behind) (assignment : Option Assignment) (t : Threads) (reader_index rounds : ℕ)
    (th : IpcThread) where
  abbrev turned : ℕ → Segments → Range → IpcThread
  turned r segments tag = record { rotation = r; cache = th.cache; tag = tag; segments = segments }

  serve-nothing :
      (r : ℕ)
      → fips_buf_read behind assignment t reader_index queue_size 0 (read_state th)
        ≡ some (read_empty, record (read_state th) { rotation = r })
      → serve_lines behind assignment t reader_index (suc rounds) th
        ≡ some (0, [], turned r th.segments th.tag)
  unfolding serve_lines get_lines_ipc return_served
  serve-nothing r run =
      ap
        (λ (read : Option (ReadCode × ReadState)).
          return_served behind assignment t reader_index (suc rounds) (lines_of th read))
        run
      ∙ ap (λ (segments : Segments). some (0, [], turned r segments th.tag))
          (with_lists-map th.segments)

  serve-given :
      (r k : ℕ) (q : Quiet reader_index k th.segments)
      → claim t.header reader_index queue_size (get_or th.segments k (no_segment, [])).0
        ≡ some (given t.header reader_index k th.segments q)
      → fips_buf_read behind assignment t reader_index queue_size 0 (read_state th)
        ≡ some (
            served
              (record (read_state th) { rotation = r })
              k
              (given t.header reader_index k th.segments q))
      → serve_lines behind assignment t reader_index (suc rounds) th
        ≡ some (
          queue_size,
          (given t.header reader_index k th.segments q).0,
          turned r
              (advanced reader_index
                (next_offset t.header reader_index k th.segments)
                k
                th.segments)
              (given t.header reader_index k th.segments q).1,
        )
  unfolding serve_lines get_lines_ipc return_served return_lines_ipc
  serve-given r k q gives run =
      let got = given t.header reader_index k th.segments q in
      let serve : Segments → Option (ℕ × List Iovec × IpcThread) = λ segments.
        return_served behind assignment t reader_index (suc rounds)
          (some (queue_size, got.0, turned r segments got.1)) in
      let back = return-given t.header reader_index k th.segments q rounds gives in
      ap
        (λ (read : Option (ReadCode × ReadState)).
          return_served behind assignment t reader_index (suc rounds) (lines_of th read))
        run
      ∙ ap serve (with_lists-set th.segments k got.2)
      ∙ ap
          (λ (r' : Option (Code × Segments)).
            with_lines queue_size got.0
              (after_return (turned r (taken t.header reader_index k th.segments q) got.1) r'))
          back

All-of_All : {P Q : ℕ → Type 0} (ks : List ℕ) → ((k : ℕ) → P k → Q k) → All P ks → All Q ks
All-of_All [] f ps = tt
All-of_All (k ∷ ks) f ps = (f k ps.0, All-of_All ks f ps.1)

-- When the assignments have not changed since the thread's last update, it keeps at least one
-- segment and fewer than 256, none of them trailing, and each of them is quiet (it stands at its
-- index, the reader has returned all that it has read there, and none of its ranges waits), then a
-- round of getting and returning lines ends, keeps the cache and leaves each of these segments
-- quiet; either it receives nothing, changes no segment, and each has too few lines, or it receives
-- a full queue and moves the head and the commit offset of the reader in one of them on by its
-- length, and changes nothing else in the segments.
pub serve_lines-Quiet :
    (behind : Behind) (assignment : Option Assignment) (t : Threads) (reader_index rounds : ℕ)
    (th : IpcThread) (ks : List ℕ)
    → th.cache.assignment_generation ≡ t.generation
    → Keeps th.cache ks
    → All (λ k. Quiet reader_index k th.segments) ks
    → (recv_retval : ℕ) × (iovecs : List Iovec) × (th' : IpcThread) × (serve_lines behind assignment
          t reader_index
          (suc rounds)
          th
        ≡ some (recv_retval, iovecs, th'))
      × (th'.cache ≡ th.cache)
      × All (λ k. Quiet reader_index k th'.segments) ks
      × (((recv_retval ≡ 0)
            × (th'.segments ≡ th.segments)
            × All (TooFew t.header reader_index queue_size ks (read_state th)) ks)
          ⊎ ((r : ℕ) × (r < length ks)
              × (recv_retval ≡ queue_size)
              × (th'.segments
                  ≡ advanced reader_index
                      (next_offset t.header reader_index (get_or ks r 0) th.segments)
                      (get_or ks r 0)
                      th.segments)))
serve_lines-Quiet behind assignment t reader_index rounds th ks current keeps quiet =
    elim (fips_buf_read-Keeps behind assignment t reader_index queue_size (read_state th) ks current
      keeps) [
        | inl (r, run, few) ↦ (
          0,
          [],
          turned behind assignment t reader_index rounds th r th.segments th.tag,
          serve-nothing behind assignment t reader_index rounds th r run,
          refl,
          quiet,
          inl (refl, refl, few),
        )
        | inr (r, got, in_ks, gives, run) ↦
            let k = get_or ks r 0 in
            let q = All-get_or (λ k. Quiet reader_index k th.segments) ks r 0 quiet in_ks in
            let seg_same : segment_of (read_state th) k
                ≡ (get_or th.segments k (no_segment, [])).0 =
              get_or-map segment_part th.segments k (no_segment, []) no_segment q.known in
            let claims = ap (claim t.header reader_index queue_size) (sym seg_same) ∙ gives in
            let it =
              claim-some t.header reader_index queue_size (get_or th.segments k (no_segment, [])).0
                got claims in
            (
              queue_size,
              (given t.header reader_index k th.segments q).0,
              turned behind assignment t reader_index rounds th r
                  (advanced reader_index (next_offset t.header reader_index k th.segments) k
                    th.segments)
                  (given t.header reader_index k th.segments q).1,
              serve-given behind assignment t reader_index rounds th r k q
                  (claims ∙ ap some (sym it))
                  (run
                    ∙ ap (λ g. some (served (record (read_state th) { rotation = r }) k g))
                        (sym it)),
              refl,
              All-of_All ks
                  (λ j.
                    advanced-Quiet reader_index (next_offset t.header reader_index k th.segments) k
                      j th.segments q)
                  quiet,
              inr (r, in_ks, refl, refl),
            )
      ]
