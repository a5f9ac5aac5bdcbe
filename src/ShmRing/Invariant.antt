-- ===== src/ShmRing/Invariant.antt =====
-- The well-formed segments, and what each reader sees of one.
use fips_ipc.Prelude.{ℕ, ◌<◌, ◌≡◌, List, [], map, length, All}
use fips_ipc.ShmRing.{GlobalHdr, Segment}
use fips_ipc.ShmRing.Window.{backlog, window}

pub record IsValid (hdr : GlobalHdr) (seg : Segment) : Type 0 where
  pub lines_count : length seg.lines ≡ hdr.line_count
  pub lines_size : All (λ l. length l ≡ hdr.line_size) seg.lines
  pub writer_in : seg.write_index < hdr.line_count
  pub readers_count : length seg.read_index ≡ hdr.reader_count
  pub readers_in : All (λ r. r < hdr.line_count) seg.read_index

-- The lines from a read index up to the write index.
abbrev pub pending : GlobalHdr → Segment → ℕ → List (List ℕ)
pending hdr seg r = window [] hdr.line_count seg.lines r (backlog hdr.line_count r seg.write_index)

-- The queues of all readers.
abbrev pub view : GlobalHdr → Segment → List (List (List ℕ))
view hdr seg = map (pending hdr seg) seg.read_index
