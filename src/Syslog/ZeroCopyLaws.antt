-- ===== src/Syslog/ZeroCopyLaws.antt =====
-- The calls of `syslog` without copies, in batches.
use fips_ipc.Prelude.{
  ℕ, zero, suc, ◌+◌, ◌/◌, ◌%◌, ◌<◌, ◌≡◌, ◌≢◌, refl, ap, ◌∙◌, true, false, Bool-cases, inl, inr,
  Option, some, List, [], ◌∷◌, ◌==◌, ltb, length, All, arith,
}
use fips_ipc.FipsBuf.{Header}
use fips_ipc.FipsBuf.Ring.{masked, get_write_buffer, write, write_iovecs}
use fips_ipc.Syslog.{buffer_size, format}
use fips_ipc.Syslog.ZeroCopy.{
  ZeroThread, take_buffer, store_line, publish, with_line, with_buffer, syslog_zero_copy,
  syslog_calls, after_call,
}

-- Between batches all that has been handed out is committed; within one, a batch is handed out.
pub record IsAligned (hdr : Header) (z : ZeroThread) : Type 0 where
  pub below : z.buffer_position < buffer_size
  pub between :
      z.buffer_position ≡ 0 → z.segment.writer.head_offset ≡ z.segment.writer.commit_offset
  pub within :
      z.buffer_position ≢ 0
      → z.segment.writer.head_offset ≡ masked hdr (z.segment.writer.commit_offset + buffer_size)

abbrev HandedOut : Header → ZeroThread → Type 0
HandedOut hdr z =
    (z.buffer_position < buffer_size)
    × (z.segment.writer.head_offset ≡ masked hdr (z.segment.writer.commit_offset + buffer_size))

-- The commit offset after so many batches.
abbrev pub after_batches : Header → ℕ → ℕ → ℕ
after_batches hdr zero commit = commit
after_batches hdr (suc n) commit = after_batches hdr n (masked hdr (commit + buffer_size))

after_batches_add :
    (hdr : Header) (m n commit : ℕ)
    → after_batches hdr n (after_batches hdr m commit) ≡ after_batches hdr (m + n) commit
after_batches_add hdr zero n commit = let same : 0 + n ≡ n = omega arith in rw same refl
after_batches_add hdr (suc m) n commit =
    let next : suc m + n ≡ suc (m + n) = omega arith in
    rw next (after_batches_add hdr m n (masked hdr (commit + buffer_size)))

take_buffer-HandedOut :
    (hdr : Header) (z : ZeroThread)
    → hdr.overwrite ≡ true
    → IsAligned hdr z
    → (z' : ZeroThread) × (take_buffer hdr z ≡ some z')
      × HandedOut hdr z'
      × (z'.buffer_position ≡ z.buffer_position)
      × (z'.segment.writer.commit_offset ≡ z.segment.writer.commit_offset)
unfolding take_buffer get_write_buffer
take_buffer-HandedOut hdr z over a = elim (Bool-cases (z.buffer_position == 0)) [
  | inl first ↦
      let e = a.between (ground (arith, first)) in
      let head = z.segment.writer.head_offset in
      let new_head = masked hdr (head + buffer_size) in
      let z' : ZeroThread = record z {
        iov = write_iovecs hdr z.segment.data_offset head 0 buffer_size;
        segment = record (z.segment) {
          writer = record (z.segment.writer) { head_offset = new_head };
        };
      } in
      (
        z',
        rw (first, over) refl,
        (a.below, ap (λ (h : ℕ). masked hdr (h + buffer_size)) e),
        refl,
        refl,
      )
  | inr later ↦ (z, rw later refl, (a.below, a.within (ground (arith, later))), refl, refl)
]

publish-IsAligned :
    (hdr : Header) (written : List ℕ) (z : ZeroThread)
    → HandedOut hdr z
    → IsAligned hdr (publish hdr (store_line written z))
      × ((publish hdr (store_line written z)).buffer_position
          ≡ (z.buffer_position + 1) % buffer_size)
      × ((publish hdr (store_line written z)).segment.writer.commit_offset
          ≡ after_batches hdr
              ((z.buffer_position + 1) / buffer_size)
              z.segment.writer.commit_offset)
unfolding publish store_line write
publish-IsAligned hdr written z (below, out) =
    elim (Bool-cases ((z.buffer_position + 1) % buffer_size == 0)) [
      | inl last ↦
          let fine : ltb z.segment.writer.head_offset
                (masked hdr (z.segment.writer.commit_offset + buffer_size))
              ≡ false =
            ground (arith, out) in
          let one : (z.buffer_position + 1) / buffer_size ≡ 1 = ground (arith, last, below) in
          rw (last, fine, one)
            (
              record {
                below = omega arith;
                between = λ e. out;
                within = λ ne. absurd (ne (ground (arith, last)));
              },
              refl,
              refl,
            )
      | inr on ↦
          let none_done : (z.buffer_position + 1) / buffer_size ≡ 0 = ground (arith, on, below) in
          rw (on, none_done)
            (
              record {
                below = omega arith;
                between = λ e. absurd (ground (arith, on, e));
                within = λ ne. out;
              },
              refl,
              refl,
            )
    ]

-- With overwriting on, when each call's format finds its arguments, and the head of the writer is
-- at the commit offset between batches and a batch beyond it within one, any sequence of calls of
-- `syslog` without copies comes to its end without an exit, keeps this relation of head and commit
-- offset, leaves as the position in the batch what the calls since the start of the first give
-- modulo the batch, and has moved the commit offset by exactly the completed batches.
pub syslog_calls-IsAligned :
    (hdr : Header) (calls : List (List ℕ × List (List ℕ))) (z : ZeroThread)
    → hdr.overwrite ≡ true
    → All (λ c. (written : List ℕ) × (format c.0 c.1 ≡ some written)) calls
    → IsAligned hdr z
    → (z' : ZeroThread) × (syslog_calls hdr calls z ≡ some z')
      × IsAligned hdr z'
      × (z'.buffer_position ≡ (z.buffer_position + length calls) % buffer_size)
      × (z'.segment.writer.commit_offset
          ≡ after_batches hdr
              ((z.buffer_position + length calls) / buffer_size)
              z.segment.writer.commit_offset)
unfolding syslog_calls syslog_zero_copy
syslog_calls-IsAligned hdr [] z over formatted a =
    let none_done : (z.buffer_position + 0) / buffer_size ≡ 0 = omega (arith, a.below) in
    (z, refl, a, omega (arith, a.below), rw none_done refl)
syslog_calls-IsAligned hdr ((fmt, args) ∷ calls) z over formatted a =
    let (written, text) = formatted.0 in
    let (z1, took, out, same, kept) = take_buffer-HandedOut hdr z over a in
    let (aligned, moved, on) = publish-IsAligned hdr written z1 out in
    let z2 = publish hdr (store_line written z1) in
    let (z', run, aligned', at, commits) =
      syslog_calls-IsAligned hdr calls z2 over formatted.1 aligned in
    let first = (z1.buffer_position + 1) / buffer_size in
    let rest = (z2.buffer_position + length calls) / buffer_size in
    let batches : first + rest ≡ (z.buffer_position + suc (length calls)) / buffer_size =
      omega (arith, moved, same) in
    let call : syslog_zero_copy hdr fmt args z ≡ some z2 =
      ap (with_buffer hdr fmt args) took ∙ ap (λ (w : Option (List ℕ)). with_line hdr w z1) text in
    (
      z',
      ap (after_call (λ z3. syslog_calls hdr calls z3)) call ∙ run,
      aligned',
      omega (arith, at, moved, same),
      commits
          ∙ ap (after_batches hdr rest) (on ∙ ap (after_batches hdr first) kept)
          ∙ after_batches_add hdr first rest z.segment.writer.commit_offset
          ∙ ap (λ (n : ℕ). after_batches hdr n z.segment.writer.commit_offset) batches,
    )
