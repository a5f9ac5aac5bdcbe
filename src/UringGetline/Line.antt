-- ===== src/UringGetline/Line.antt =====
-- `_rdline`, and its calls on a block that was read.
use fips_ipc.Prelude.{
  ℕ, zero, suc, ◌+◌, ◌-◌, List, [], ◌∷◌, ◌==◌, if◌then◌else◌, get_or, take, drop,
}

abbrev pub newline : ℕ
newline = 10

-- The loop up to the end of the line, with as many rounds as there are bytes left.
unfoldable pub scan : List ℕ → ℕ → ℕ → ℕ
scan buf offset zero = offset
scan buf offset (suc rounds) =
    let rest = scan buf (offset + 1) rounds in
    if get_or buf offset 0 == newline then offset + 1 else rest

-- The loop past leading null bytes, with as many rounds as the line has bytes.
unfoldable pub skip : List ℕ → ℕ → ℕ → ℕ
skip buf start zero = start
skip buf start (suc rounds) =
    let rest = skip buf (start + 1) rounds in if get_or buf start 0 == 0 then rest else start

-- The line, and the new `*offset` and `*rsize`; the length returned is that of the line.
unfoldable pub rdline : List ℕ → ℕ → ℕ → List ℕ × ℕ × ℕ
unfolding scan skip
rdline buf offset rsize =
    let stop = scan buf offset (rsize - offset) in
    let start = skip buf offset (stop - offset) in
    (
      take (stop - start) (drop start buf),
      (if stop == rsize then 0 else stop),
      (if stop == rsize then 0 else rsize),
    )

-- The lines that the calls of `uring_getline` return of a block until `*rsize` is 0, with a bound
-- on the calls.
unfoldable pub rdlines : ℕ → List ℕ → ℕ → ℕ → List (List ℕ)
rdlines zero buf offset rsize = []
rdlines (suc calls) buf offset rsize =
    let (line, offset', rsize') = rdline buf offset rsize in
    let rest = rdlines calls buf offset' rsize' in if rsize == 0 then [] else line ∷ rest
