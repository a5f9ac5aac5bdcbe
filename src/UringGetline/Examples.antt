-- ===== src/UringGetline/Examples.antt =====
-- Lines of a block, and of a file.
use fips_ipc.Prelude.{
  ℕ, ◌≡◌, refl, arith, true, false, some, none, List, [], ◌∷◌, map, replicate, take,
}
use fips_ipc.UringGetline.Line.{rdlines}
use fips_ipc.UringGetline.Split.{lines, strip}
use fips_ipc.UringGetline.Equivalence.{rdlines-lines}
use fips_ipc.UringGetline.File.{FileIo, Block, Uring, uring_getlines}

abbrev text : List ℕ
text = 0 ∷ 65 ∷ 10 ∷ 66 ∷ 67 ∷ 10 ∷ 68 ∷ []

rdlines-lines_example : rdlines 7 text 0 7 ≡ map strip (lines (take 7 text))
rdlines-lines_example = rdlines-lines text 7 7 (omega arith) (omega arith)

text_lines : map strip (lines text) ≡ (65 ∷ 10 ∷ []) ∷ (66 ∷ 67 ∷ 10 ∷ []) ∷ (68 ∷ []) ∷ []
unfolding lines strip
text_lines = refl

abbrev empty_block : Block
empty_block = record { fbuf = replicate 8 0; offset = 0; rsize = 0 }

abbrev file : FileIo
file = record {
  block1 = empty_block;
  block2 = empty_block;
  scnd_buf = false;
  sqe = none;
  file_offset = 0;
}

abbrev uring : Uring
uring = record { submits = true; reads = some text; submits_next = false }

-- The second line is longer than a slot, which stays empty though two lines are counted.
file_lines :
    let (read, iovecs, f) =
      uring_getlines (uring ∷ uring ∷ uring ∷ []) 2 0 0 ([] ∷ [] ∷ [] ∷ []) file in
    ◌≡◌ {A = ℕ × List (List ℕ)} (read, iovecs) (2, (65 ∷ 10 ∷ []) ∷ [] ∷ (65 ∷ 10 ∷ []) ∷ [])
unfolding uring_getlines
file_lines = refl
