-- ===== src/ShmRing/InitLaws.antt =====
-- Lemmas on the memory that a writer sets up, and on the registration of readers.
use fips_ipc.Prelude.{
  ℕ, zero, suc, ◌+◌, ◌-◌, ◌*◌, ◌/◌, ◌%◌, ◌^◌, ◌<◌, ◌≡◌, inl, inr, Option-cases, Bool-cases, refl,
  ap, ◌∙◌, Bool, true, false, none, some, List, [], ◌∷◌, length, get_or, set, replicate, All, arith,
  length-replicate, ◌==◌, ==_iff,
}
use native.Mathlib.Nat.{mod-eq_of_lt, mul-div_cancel, add-mul}
use fips_ipc.ShmRing.{GlobalHdr, Shm, WriterArg, ReaderArg}
use fips_ipc.ShmRing.Invariant.{IsValid}
use fips_ipc.ShmRing.Calls.{IsValidShm}
use fips_ipc.ShmRing.Init.{
  success, Kernel, lines_bytes, memory_size, new_header, new_segment, Inited, has_flag, reatt,
  noreg,
}
use fips_ipc.ShmRing.InitWriter.{init_writer, attach_writer, create_writer}
use fips_ipc.ShmRing.InitReader.{register, init_reader, open_reader}

replicate-All {ℓ κ} : {A : Type ℓ} (P : A → Type κ) (n : ℕ) (a : A) → P a → All P (replicate n a)
replicate-All P zero a h = tt
replicate-All P (suc n) a h = (h, replicate-All P n a h)

-- No line is lost where the bytes of all lines are counted in 32 bits.
lines_bytes-exact :
    (line_count line_size : ℕ)
    → 0 < line_size
    → line_count * line_size < 2 ^ 32
    → lines_bytes line_count line_size / line_size ≡ line_count
lines_bytes-exact line_count line_size h fits = rw (mod-eq_of_lt fits) (mul-div_cancel line_count h)

new_segment-IsValid :
    (hdr : GlobalHdr)
    → 0 < hdr.line_count
    → 0 < hdr.line_size
    → hdr.line_count * hdr.line_size < 2 ^ 32
    → IsValid hdr (new_segment hdr)
unfolding new_segment
new_segment-IsValid hdr h pos fits =
    rw (lines_bytes-exact hdr.line_count hdr.line_size pos fits) record {
      lines_count = length-replicate hdr.line_count (replicate hdr.line_size 0);
      lines_size =
          replicate-All (λ l. length l ≡ hdr.line_size) hdr.line_count (replicate hdr.line_size 0)
            (length-replicate {A = ℕ} hdr.line_size 0);
      writer_in = h;
      readers_count = length-replicate {A = ℕ} hdr.reader_count 0;
      readers_in = replicate-All (λ r. r < hdr.line_count) hdr.reader_count 0 h;
    }

-- The slot that a reader registers for is a free one, which is taken afterwards; all others are as
-- before.
register_from :
    (i : ℕ) (flags : List Bool) (id : ℕ) (flags' : List Bool)
    → register i flags ≡ some (id, flags')
    → (j : ℕ) × (id ≡ i + j)
      × (j < length flags)
      × (get_or flags j true ≡ false)
      × (flags' ≡ set flags j true)
unfolding register
register_from i [] id flags' e = absurd (ground arith)
register_from i (false ∷ fs) id flags' e = (0, ground arith, omega arith, refl, ground arith)
register_from i (true ∷ fs) id flags' e = elim (Option-cases (register (i + 1) fs)) [
  | inl full ↦ absurd (ground arith)
  | inr ((id', gs), found) ↦
      let (j, at, below, free, rest) = register_from (i + 1) fs id' gs found in
      (suc j, ground arith, omega arith, free, ground arith)
]

-- The registration of a reader takes a slot that exists and was free, marks it as taken and leaves
-- all other slots as they were.
pub register-free :
    (flags : List Bool) (id : ℕ) (flags' : List Bool)
    → register 0 flags ≡ some (id, flags')
    → (id < length flags) × (get_or flags id true ≡ false) × (flags' ≡ set flags id true)
register-free flags id flags' e =
    let (j, at, below, free, taken) = register_from 0 flags id flags' e in
    let same : id ≡ j = omega arith in rw same (below, free, taken)

pos-ne : {n : ℕ} → 0 < n → (n == 0) ≡ false
pos-ne h = ground arith

==_refl : (n : ℕ) → (n == n) ≡ true
==_refl n = (==_iff n n).1 refl

register_fresh :
    (n : ℕ) → 0 < n → register 0 (replicate n false) ≡ some (0, set (replicate n false) 0 true)
unfolding register
register_fresh zero h = absurd (omega arith)
register_fresh (suc n) h = refl

-- The bytes that a memory needs: the header, which has the flag of one reader, the flags of the
-- others, and the indices and lines of each segment.
abbrev pub needed : Kernel → WriterArg → ℕ
needed k args =
    k.sizeof_global_hdr
    + (args.reader_count - 1) * k.sizeof_bool
    + args.segment_count
      * (args.line_count * args.line_size + (args.reader_count + 1) * k.sizeof_index)

-- A kernel that grants all that a call asks for, if this is a memory of a size.
pub record Grants (k : Kernel) (size : ℕ) : Type 0 where
  pub ftok_ok : k.ftok_fails ≡ none
  pub shmget_ok : k.shmget_fails size ≡ none
  pub shmat_ok : k.shmat_fails ≡ none
  pub calloc_ok : k.calloc_fails ≡ false

-- An argument that a writer may pass.
pub record IsProper (args : WriterArg) : Type 0 where
  pub some_size : 0 < args.line_size
  pub some_lines : 0 < args.line_count
  pub some_segments : 0 < args.segment_count
  pub some_readers : 0 < args.reader_count
  pub bytes_in : args.line_count * args.line_size < 2 ^ 32

-- The memory that a writer makes.
unfoldable pub made : WriterArg → ℕ → Shm
unfolding new_header new_segment
made args key =
    let hdr = new_header args key in
    record { global_hdr = hdr; segments = replicate hdr.segment_count (new_segment hdr) }

wrap_extra :
    (h r b t : ℕ)
    → 0 < r
    → h + (r - 1) * b + t < 2 ^ 64
    → (h + (r + 2 ^ 64 - 1) * b + t) % 2 ^ 64 ≡ h + (r - 1) * b + t
wrap_extra h r b t pos fits =
    let same : r + 2 ^ 64 - 1 ≡ (r - 1) + 2 ^ 64 = omega arith in
    rw (same, add-mul (r - 1) (2 ^ 64) b) (omega arith)

module _ (args : WriterArg) (proper : IsProper args) (k : Kernel) (room : needed k args < 2 ^ 64)
    (grants : Grants k (needed k args)) where
  memory_size-needed : memory_size k args ≡ needed k args
  unfolding memory_size
  memory_size-needed =
      rw (mod-eq_of_lt proper.bytes_in)
        (wrap_extra k.sizeof_global_hdr args.reader_count k.sizeof_bool _ proper.some_readers room)

  asked : init_writer true args k none ≡ create_writer args k (k.shmget_fails (memory_size k args))
  unfolding init_writer memory_size create_writer
  asked = elim (Bool-cases (has_flag args.flags reatt)) [
    | inl e ↦ rw (e, grants.ftok_ok) refl
    | inr e ↦
        rw
          (
            e,
            pos-ne proper.some_size,
            pos-ne proper.some_lines,
            pos-ne proper.some_segments,
            pos-ne proper.some_readers,
            grants.ftok_ok,
          )
          refl
  ]

  given : create_writer args k none ≡ record {
    status = success;
    arg = record args { attached = true };
    memory = some (made args k.ftok_key);
  }
  unfolding create_writer made
  given = rw grants.shmat_ok (rw (grants.calloc_ok, attach_writer))

  created : init_writer true args k none ≡ record {
    status = success;
    arg = record args { attached = true };
    memory = some (made args k.ftok_key);
  }
  created =
      asked
      ∙ ap (λ (size : ℕ). create_writer args k (k.shmget_fails size)) memory_size-needed
      ∙ ap (create_writer args k) grants.shmget_ok
      ∙ given

  made-IsValidShm : IsValidShm (made args k.ftok_key)
  unfolding made
  made-IsValidShm = record {
    segments_count = length-replicate args.segment_count _;
    segments_valid =
        replicate-All (IsValid (new_header args k.ftok_key)) args.segment_count
          (new_segment (new_header args k.ftok_key))
          (new_segment-IsValid (new_header args k.ftok_key) proper.some_lines proper.some_size
            proper.bytes_in);
  }

  -- A reader that comes with the same key after the writer is let in, at place 0.
  opened :
      (reader : ReaderArg)
      → has_flag reader.flags noreg ≡ false
      → let r = init_reader true reader k (some (made args k.ftok_key)) in
        (r.status ≡ success) × (r.arg ≡ record reader { reader_id = 0; attached = true })
  unfolding init_reader made register
  opened reader reg =
      rw (grants.ftok_ok, grants.shmat_ok)
        (rw
          (
            open_reader,
            ==_refl,
            pos-ne proper.some_size,
            pos-ne proper.some_lines,
            pos-ne proper.some_segments,
            reg,
            register_fresh args.reader_count proper.some_readers,
            grants.calloc_ok,
          )
          (refl, refl))

  -- When the operating system grants a memory that has exactly the bytes needed for its header and
  -- for the indices and lines of its segments, fewer than 2^64, and all else that is asked for, no
  -- memory with the key exists and the writer's argument has sizes that are not 0 and lines of less than 2^32 bytes together,
  -- `shmrbuf_init` for the writer succeeds with a memory that is well formed, and `shmrbuf_init`
  -- for a registering reader with the same key on that memory succeeds with reader id 0.
  pub init-roundtrip :
      (reader : ReaderArg)
      → has_flag reader.flags noreg ≡ false
      → let r = init_reader true reader k (init_writer true args k none).memory in
        ((init_writer true args k none).status ≡ success)
        × ((init_writer true args k none).memory ≡ some (made args k.ftok_key))
        × IsValidShm (made args k.ftok_key)
        × (r.status ≡ success)
        × (r.arg ≡ record reader { reader_id = 0; attached = true })
  init-roundtrip reader reg =
      let (o, a) : (init_reader true reader k (init_writer true args k none).memory).status
            ≡ success
          × (init_reader true reader k (init_writer true args k none).memory).arg
            ≡ record reader { reader_id = 0; attached = true } =
        rw (created) (opened reader reg) in
      (
        ap (λ (i : Inited WriterArg). i.status) created,
        ap (λ (i : Inited WriterArg). i.memory) created,
        made-IsValidShm,
        o,
        a,
      )
