-- ===== src/FipsBuf/AttachLaws.antt =====
-- `fips_buf_attach` for a writer thread.
use fips_ipc.Prelude.{ℕ, ◌≡◌, ◌≢◌, length}
use fips_ipc.FipsBuf.AssignLaws.{NoTrailing}
use fips_ipc.FipsBuf.Attach.{Threads, Behind}

module _ (behind : Behind) (t : Threads) (ready : t.header.initialized ≢ 0)
    (size : length t.writers ≡ t.header.segment_count) (plain : NoTrailing t.writers) where
  abbrev n : ℕ
  n = t.header.segment_count
