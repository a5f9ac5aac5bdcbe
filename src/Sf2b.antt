-- ===== src/Sf2b.antt =====
-- src/programs/sf2b: the prevention program over the table, the list and the maps of the kernel.
pub mod Ban
pub mod BanBinary
pub mod Parse
pub mod BanThread
mod BanThreadLaws
mod ParseLaws
mod BanLaws
mod BanLimit
pub mod IpcFips
mod IpcFipsLaws
mod IpcFipsExamples
pub mod Segments
pub mod Args
mod ArgsLaws
pub mod Unban
pub mod UnbanList
pub mod UnbanLoop
mod UnbanLaws
mod Examples
use fips_ipc.Prelude.{ℕ, Bool}
use fips_ipc.HashTable.{ℤ, Table}
use fips_ipc.LinkedList.{Llist}

-- The calls of libbpf on a map of addresses: the result and the map.
pub record Bpf : Type 1 where
  pub Map : Type 0
  pub is_in : Map → ℕ → Bool
  pub update_elem : Map → ℕ → ℤ × Map
  pub delete_elem : Map → ℕ → ℤ × Map
