-- ===== src/Sf2b/Args.antt =====
-- src/programs/sf2b/main.c: `parse_arg`.
use fips_ipc.Prelude.{
  ℕ, ◌%◌, ◌^◌, Bool, true, false, not, ◌&&◌, Option, none, some, List, [], ◌∷◌, ltb, leb, ◌==◌,
  if◌then◌else◌,
}

-- `enum ipc_type_t`
pub data IpcType : Type 0 where
  shm : IpcType
  disk : IpcType
  posix_io : IpcType
  fips : IpcType

abbrev pub is_shm : IpcType → Bool
is_shm shm = true
is_shm disk = false
is_shm posix_io = false
is_shm fips = false

-- `ipc_type == DISK || ipc_type == POSIX_IO`
abbrev pub is_file : IpcType → Bool
is_file shm = false
is_file disk = true
is_file posix_io = true
is_file fips = false

-- `DEFAULT_BAN_THRESHOLD`, `DEFAULT_BAN_TIME`, `DEFAULT_BAN_FINDTIME`, `DEFAULT_THREAD_COUNT`
abbrev pub default_limit : ℕ
default_limit = 3

abbrev pub default_time : ℕ
default_time = 30

abbrev pub default_thread_count : ℕ
default_thread_count = 1

-- Strings are a parameter.
module _ (Text : Type 0) where
  -- What `parse_arg` changes of `config_t`.
  pub record Config : Type 0 where
    pub ipc_type : IpcType
    pub thread_count : ℕ
    pub bantime : ℕ
    pub limit : ℕ
    pub findtime : ℕ
    pub matching : Bool
    pub verbose : Bool
    pub wload_stealing : Bool
    pub shm_key : Text
    pub logfile : Text
    pub regex : Text
    pub interface : Text

  -- The configuration with `struct arguments`.
  pub record Parser : Type 0 where
    pub config : Config
    pub ipc_set : Bool
    pub grpc_ip : Text

  -- A key with its argument, NULL where that is optional; the last ones have `state->arg_num`.
  pub data Key : Type 0 where
    key_f : Option Text → Key
    key_p : Option Text → Key
    key_s : Option Text → Key
    key_t : Option Text → Key
    key_l : Text → Key
    key_b : Text → Key
    key_d : Text → Key
    key_r : Option Text → Key
    key_m : Key
    key_w : Key
    key_v : Key
    key_g : Option Text → Key
    key_arg : ℕ → Text → Key
    key_end : ℕ → Key
    key_other : Key

  abbrev pub or_old : Option Text → Text → Text
  or_old none old = old
  or_old (some new) old = new

  abbrev pub with_config : Config → Parser → Parser
  with_config c p = record p { config = c }

-- The cases for an IPC type: `none` is the exit of `argp_usage`.
unfoldable pub set_ipc : {Text : Type 0} → Config Text → Parser Text → Option (Parser Text)
set_ipc c p = if p.ipc_set then none else some (record p { config = c; ipc_set = true })

-- `get_nprocs()` is a parameter.
unfoldable pub set_threads : {Text : Type 0} → ℕ → ℕ → Config Text → Config Text
set_threads nprocs wanted c =
    let casted = wanted % 2 ^ 8 in
    let most = if ltb nprocs casted then nprocs % 2 ^ 8 else casted in
    record c { thread_count = if most == 0 then 1 else most }

-- `(uint16_t)strtol(...)`, with the default for 0.
unfoldable pub at_least_one : ℕ → ℕ → ℕ
at_least_one default wanted = if wanted % 2 ^ 16 == 0 then default else wanted % 2 ^ 16

-- The case of `ARGP_KEY_END`.
unfoldable pub finish : {Text : Type 0} → Text → ℕ → Config Text → Config Text
finish default_iface arg_num c = record c {
  interface = if ltb arg_num 1 then default_iface else c.interface;
  thread_count = if ltb 1 c.thread_count && is_file c.ipc_type then 1 else c.thread_count;
  wload_stealing = if c.wload_stealing && not (is_shm c.ipc_type) then false else c.wload_stealing;
}

-- The number that `strtol` reads as a `long` modulo 2^64, the test of `inet_pton`, and
-- the default path and interface.
module _ {Text : Type 0} (strtol : Text → ℕ) (is_address : Text → Bool)
    (default_log default_iface : Text) where
  -- `none` is the exit of `argp_usage`; a key that is not known changes nothing.
  unfoldable pub parse_arg : ℕ → Key Text → Parser Text → Option (Parser Text)
  unfolding set_ipc set_threads at_least_one finish
  parse_arg nprocs (key_f arg) p =
      let c = p.config in
      set_ipc (record c { ipc_type = disk; logfile = or_old Text arg c.logfile }) p
  parse_arg nprocs (key_p arg) p =
      let c = p.config in
      set_ipc (record c { ipc_type = posix_io; logfile = or_old Text arg c.logfile }) p
  parse_arg nprocs (key_s arg) p =
      set_ipc (record (p.config) { ipc_type = shm; shm_key = or_old Text arg default_log }) p
  parse_arg nprocs (key_t none) p =
      some (with_config Text (record (p.config) { thread_count = default_thread_count }) p)
  parse_arg nprocs (key_t (some arg)) p =
      some (with_config Text (set_threads nprocs (strtol arg) p.config) p)
  parse_arg nprocs (key_l arg) p =
      some
        (with_config Text (record (p.config) { limit = at_least_one default_limit (strtol arg) }) p)
  parse_arg nprocs (key_b arg) p =
      some (
        with_config Text (record (p.config) { bantime = at_least_one default_time (strtol arg) }) p)
  parse_arg nprocs (key_d arg) p =
      some (
        with_config Text (record (p.config) { findtime = at_least_one default_time (strtol arg) })
          p)
  parse_arg nprocs (key_r arg) p =
      let c = p.config in
      some (with_config Text (record c { matching = true; regex = or_old Text arg c.regex }) p)
  parse_arg nprocs key_m p = some (with_config Text (record (p.config) { matching = true }) p)
  parse_arg nprocs key_w p = some (with_config Text (record (p.config) { wload_stealing = true }) p)
  parse_arg nprocs key_v p = some (with_config Text (record (p.config) { verbose = true }) p)
  parse_arg nprocs (key_g none) p = some p
  parse_arg nprocs (key_g (some arg)) p =
      some (if is_address arg then record p { grpc_ip = arg } else p)
  parse_arg nprocs (key_arg arg_num arg) p =
      if leb 2 arg_num
      then none
      else some (with_config Text (record (p.config) { interface = arg }) p)
  parse_arg nprocs (key_end arg_num) p =
      some (with_config Text (finish default_iface arg_num p.config) p)
  parse_arg nprocs key_other p = some p

  abbrev pub then_parse :
      (Parser Text → Option (Parser Text)) → Option (Parser Text) → Option (Parser Text)
  then_parse f none = none
  then_parse f (some p) = f p

  -- The calls of `argp_parse`, ending with `ARGP_KEY_END`.
  unfoldable pub parse_args : ℕ → List (Key Text) → ℕ → Parser Text → Option (Parser Text)
  unfolding parse_arg
  parse_args nprocs [] arg_num p = parse_arg nprocs (key_end arg_num) p
  parse_args nprocs (key ∷ keys) arg_num p =
      then_parse (parse_args nprocs keys arg_num) (parse_arg nprocs key p)
