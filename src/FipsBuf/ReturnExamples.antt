-- ===== src/FipsBuf/ReturnExamples.antt =====
-- A buffer of 16 lines, whose reader has read the lines 0 to 9 in three ranges.
use fips_ipc.Prelude.{
  ℕ, ◌-◌, ◌≡◌, refl, ap, arith, false, List, [], ◌∷◌, ◌++◌, none, some, length, map, take, All,
}
use fips_ipc.FipsBuf.{success, Pointer, Header, Segment}
use fips_ipc.FipsBuf.Ring.{Range, claim, claimed}
use fips_ipc.FipsBuf.Returns.{SqeList, fips_buf_list_add_sqe, fips_buf_return}
use fips_ipc.FipsBuf.Waiting.{Cells, cell_range, return_range, Chain}
use fips_ipc.FipsBuf.ReturnsLaws.{fips_buf_list_add_sqe-return_range}
use fips_ipc.FipsBuf.ReturnOrder.{
  Passes, Among, Holds, fips_buf_list_add_sqe-Passes, fips_buf_list_add_sqe-lost,
}
use fips_ipc.FipsBuf.ReadReturn.{fips_buf_return-claim}
use fips_ipc.FipsBuf.ReturnAll.{add_from_last, IsNew, add_from_last-commits}

abbrev hdr : Header
hdr = record {
  initialized = 1;
  checksum = 0;
  segment_count = 1;
  max_reader_count = 1;
  max_reader_thread_count = 2;
  reader_count = 1;
  writer_count = 1;
  line_count_exp = 4;
  overwrite = false;
  line_size = 254;
  max_sqe_count = 4;
  first_segment_offset = 0;
  writer_assignments_offset = 0;
  reader_assignments_offset = 0;
}

abbrev range : ℕ → ℕ → Range
range start count = record {
  start_index = start;
  count = count;
  segment_index = 0;
  reader_index = 0;
}

abbrev reader : Pointer
reader = record { head_offset = 10; commit_offset = 0 }

-- The second range waits.
abbrev waiting : SqeList
waiting = record {
  capacity = 4;
  write_index = 1;
  read_index = 0;
  first_offset = some 0;
  sqes = λ i. record { range = range 4 2; next_offset = none };
}

abbrev cells : Cells
cells = (0, range 4 2) ∷ []

waiting-Chain : Chain waiting.sqes waiting.first_offset cells
unfolding Chain
waiting-Chain = (refl, refl, refl, refl)

waiting-Holds : Holds waiting cells
waiting-Holds = record {
  room = λ e. absurd (omega (arith, e));
  unused = refl;
  chain = waiting-Chain;
}

fips_buf_list_add_sqe-return_range_example :
    let (commit, rest) = return_range hdr (range 0 4) (0, map cell_range cells) in
    (l' : SqeList) × (after : Cells) × (fips_buf_list_add_sqe 3 hdr (range 0 4) (reader, waiting)
      ≡ some (success, record reader { commit_offset = commit }, l'))
    × Chain l'.sqes l'.first_offset after
    × (map cell_range after ≡ rest)
fips_buf_list_add_sqe-return_range_example =
    fips_buf_list_add_sqe-return_range hdr (range 0 4) reader waiting cells 3 (omega arith)
      (λ e. absurd (omega (arith, e))) refl waiting-Chain

fips_buf_list_add_sqe-Passes_example :
    (commit : ℕ) × (l' : SqeList) × (passed : List Range) × (fips_buf_list_add_sqe 3 hdr
        (range 0 4)
        (reader, waiting)
      ≡ some (success, record reader { commit_offset = commit }, l'))
    × Passes hdr 0 passed commit
    × All (λ r. Among r (range 0 4 ∷ map cell_range cells)) passed
fips_buf_list_add_sqe-Passes_example =
    fips_buf_list_add_sqe-Passes hdr (range 0 4) reader waiting cells 3 (omega arith) waiting-Holds

-- The third range takes the place of the second, which is not committed any more.
fips_buf_list_add_sqe-lost_example :
    (l' : SqeList) × (after : Cells) × (fips_buf_list_add_sqe 3 hdr (range 6 4) (reader, waiting)
      ≡ some (success, reader, l'))
    × Chain l'.sqes l'.first_offset after
    × (map cell_range after ≡ take (length cells - 1) (map cell_range cells) ++ (range 6 4 ∷ []))
fips_buf_list_add_sqe-lost_example =
    fips_buf_list_add_sqe-lost hdr (range 6 4) reader waiting cells 3 (omega arith) waiting-Holds
      (λ e. absurd (omega (arith, ap length e))) (omega arith) (omega arith)

abbrev new_list : SqeList
new_list = record {
  capacity = 4;
  write_index = 0;
  read_index = 0;
  first_offset = none;
  sqes = λ i. record { range = range 0 0; next_offset = none };
}

new_list-IsNew : IsNew new_list
new_list-IsNew = record { first = refl; read = refl; write = refl }

add_from_last-commits_example :
    (l' : SqeList) × (add_from_last 4 hdr
        (range 0 4 ∷ range 4 2 ∷ range 6 4 ∷ [])
        (reader, new_list)
      ≡ some (success, record reader { commit_offset = 10 }, l'))
    × (l'.first_offset ≡ none)
add_from_last-commits_example =
    add_from_last-commits hdr (range 0 4) (range 4 2 ∷ range 6 4 ∷ []) 10 reader new_list 3
      new_list-IsNew (omega arith) (omega arith) (omega arith) (omega arith)

-- The segment in which the lines 10 and 11 have been written since.
abbrev ahead : Segment
ahead = record {
  index = 0;
  writer = record { head_offset = 12; commit_offset = 12 };
  readers = record { head_offset = 10; commit_offset = 10 } ∷ [];
  data_offset = 4096;
  width_at = λ o. 20;
}

abbrev ahead' : Segment
ahead' = record ahead { readers = record { head_offset = 12; commit_offset = 10 } ∷ [] }

fips_buf_return-claim_example :
    fips_buf_return 1 hdr (range 10 2) ((ahead', new_list ∷ []) ∷ [])
    ≡ some (
      success,
      (
        record ahead { readers = record { head_offset = 12; commit_offset = 12 } ∷ [] },
        new_list ∷ [],
      )
          ∷ [],
    )
unfolding claimed claim
fips_buf_return-claim_example =
    fips_buf_return-claim hdr 0 2 0 ahead ahead' (claimed hdr 0 2 ahead).0 (range 10 2)
      ((ahead', new_list ∷ []) ∷ []) (new_list ∷ []) (omega arith) (omega arith) refl refl refl refl
