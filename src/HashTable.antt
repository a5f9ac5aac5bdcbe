-- ===== src/HashTable.antt =====
-- src/lib/ip_hashtable.c and src/lib/include/ip_hashtable.h: counters for IPv4 and IPv6 addresses.
pub mod Chains
pub mod Ops
pub mod Lookup
pub mod Counters
pub mod Setup
pub mod Invariant
pub mod Clearing
pub mod SearchTime
mod Defined
mod Examples
use fips_ipc.Prelude.{ℕ, ◌-◌, ◌/◌, ◌%◌, ◌^◌, Bool, false, Option, List, ◌==◌, ltb, if◌then◌else◌}

-- `int domain`
pub data Domain : Type 0 where
  af_inet af_inet6 : Domain
  other_domain : ℕ → Domain

-- `struct ip_hashtable_entry_t`, less its `next`: `key` is the 16 bytes of the union, the first
-- byte the lowest.
pub record Entry : Type 0 where
  pub key : ℕ
  pub domain : Domain
  pub last_access : ℕ
  pub count : ℕ

-- `struct ip_hashtable_t`: each bin and the free list as the list of its entries.
pub record Table : Type 0 where
  pub hbins : ℕ → List Entry
  pub free_list : List Entry
  pub free_list_size : ℕ
  pub search_time : ℕ

-- `int`
pub data ℤ : Type 0 where
  pos : ℕ → ℤ
  negsuc : ℕ → ℤ

abbrev pub success : ℤ
success = pos 0

abbrev pub arg_err : ℤ
arg_err = negsuc 0

abbrev pub nullptr_err : ℤ
nullptr_err = negsuc 1

abbrev pub mem_err : ℤ
mem_err = negsuc 2

abbrev pub mutex_err : ℤ
mutex_err = negsuc 3

abbrev pub noexist : ℤ
noexist = negsuc 4

abbrev pub nbins : ℕ
nbins = 65536

-- `(int) count` for a `uint32_t`
unfoldable pub to_int : ℕ → ℤ
to_int c = if ltb c (2 ^ 31) then pos c else negsuc (2 ^ 32 - 1 - c)

-- `hash_ip`
unfoldable pub hash_ip : ℕ → Domain → ℕ
hash_ip key af_inet = key % 2 ^ 32 / 2 ^ 16
hash_ip key af_inet6 = key % 2 ^ 16
hash_ip key (other_domain d) = 0

-- The test of the loops: `memcmp` of 4 bytes, or of 16.
unfoldable pub key_matches : Domain → ℕ → Entry → Bool
key_matches af_inet key e = e.key % 2 ^ 32 == key % 2 ^ 32
key_matches af_inet6 key e = e.key == key
key_matches (other_domain d) key e = false

-- `htable->hbins[bin_index].entry = ...`
unfoldable pub put_bin : Table → ℕ → List Entry → Table
put_bin t i es = record t { hbins = λ j. if j == i then es else t.hbins j }

-- What the operating system answers during one call.
pub record Env : Type 0 where
  pub bin_lock_fails : Bool
  pub free_lock_fails : Bool
  pub mmap_fails : Bool
  -- `getpagesize() / sizeof(struct ip_hashtable_entry_t)`
  pub page_entries : ℕ
