-- ===== src/Sf2b/ArgsLaws.antt =====
-- The configuration after `parse_arg`.
use fips_ipc.Prelude.{
  ℕ, ◌%◌, ◌^◌, ◌<◌, ◌≡◌, refl, ◌⊎◌, inl, inr, Bool, true, Bool-cases, Option-cases, ◌&&◌, Option,
  none, some, List, [], ◌∷◌, ltb, leb, ◌==◌, arith,
}
use native.Mathlib.Nat.{mod-lt}
use fips_ipc.Sf2b.Args.{
  is_shm, is_file, Config, Parser, Key, key_f, key_p, key_s, key_t, key_l, key_b, key_d, key_r,
  key_m, key_w, key_v, key_g, key_arg, key_end, key_other, set_ipc, set_threads, at_least_one,
  finish, parse_arg, parse_args,
}

-- A configuration with which threads can work, as `uint8_t` and `uint16_t`.
abbrev pub IsUsable : {Text : Type 0} → Config Text → Type 0
IsUsable c =
    ((0 < c.thread_count) × (c.thread_count < 2 ^ 8))
    × ((0 < c.limit) × (c.limit < 2 ^ 16))
    × ((0 < c.bantime) × (c.bantime < 2 ^ 16))
    × ((0 < c.findtime) × (c.findtime < 2 ^ 16))

-- One thread only for files, and stealing only with shared memory.
abbrev pub IsConsistent : {Text : Type 0} → Config Text → Type 0
IsConsistent c =
    (is_file c.ipc_type ≡ true → c.thread_count ≡ 1)
    × (c.wload_stealing ≡ true → is_shm c.ipc_type ≡ true)

at_least_one-range :
    (default wanted : ℕ)
    → 0 < default
    → default < 2 ^ 16
    → (0 < at_least_one default wanted) × (at_least_one default wanted < 2 ^ 16)
unfolding at_least_one
at_least_one-range default wanted lo hi =
    let bound : wanted % 2 ^ 16 < 2 ^ 16 = mod-lt wanted (omega arith) in
    elim (Bool-cases (wanted % 2 ^ 16 == 0)) [
      | inl e ↦ rw e (lo, hi)
      | inr e ↦ rw e (ground arith, bound)
    ]

module _ {Text : Type 0} (strtol : Text → ℕ) (is_address : Text → Bool)
    (default_log default_iface : Text) (nprocs : ℕ) where
  abbrev parse : Key Text → Parser Text → Option (Parser Text)
  parse = parse_arg strtol is_address default_log default_iface nprocs

  set_threads-range :
      (wanted : ℕ) (c : Config Text)
      → (0 < (set_threads nprocs wanted c).thread_count)
        × ((set_threads nprocs wanted c).thread_count < 2 ^ 8)
  unfolding set_threads
  set_threads-range wanted c =
      let one : wanted % 2 ^ 8 < 2 ^ 8 = mod-lt wanted (omega arith) in
      let two : nprocs % 2 ^ 8 < 2 ^ 8 = mod-lt nprocs (omega arith) in ground arith

  abbrev AllUsable : Option (Parser Text) → Type 0
  AllUsable none = Unit {0}
  AllUsable (some p) = IsUsable p.config

  set_ipc-AllUsable : (c : Config Text) (p : Parser Text) → IsUsable c → AllUsable (set_ipc c p)
  unfolding set_ipc
  set_ipc-AllUsable c p u = elim (Bool-cases p.ipc_set) [ inl e ↦ rw e tt | inr e ↦ rw e u ]

  finish-IsUsable :
      (arg_num : ℕ) (c : Config Text) → IsUsable c → IsUsable (finish default_iface arg_num c)
  unfolding finish
  finish-IsUsable arg_num c (threads, limit, bantime, findtime) =
      elim (Bool-cases (ltb 1 c.thread_count && is_file c.ipc_type)) [
        | inl e ↦ rw e ((omega arith, omega arith), limit, bantime, findtime)
        | inr e ↦ rw e (threads, limit, bantime, findtime)
      ]

  finish-IsConsistent :
      (arg_num : ℕ) (c : Config Text) → IsUsable c → IsConsistent (finish default_iface arg_num c)
  unfolding finish
  finish-IsConsistent arg_num c ((one, byte), limit, bantime, findtime) =
      (λ file. ground (arith, file), λ stealing. ground (arith, stealing))

  parse_arg-AllUsable :
      (key : Key Text) (p : Parser Text) → IsUsable p.config → AllUsable (parse key p)
  unfolding parse_arg
  parse_arg-AllUsable (key_f arg) p u = set_ipc-AllUsable _ p u
  parse_arg-AllUsable (key_p arg) p u = set_ipc-AllUsable _ p u
  parse_arg-AllUsable (key_s arg) p u = set_ipc-AllUsable _ p u
  parse_arg-AllUsable (key_t none) p (threads, limit, bantime, findtime) =
      ((omega arith, omega arith), limit, bantime, findtime)
  parse_arg-AllUsable (key_t (some arg)) p (threads, limit, bantime, findtime) =
      (set_threads-range (strtol arg) p.config, limit, bantime, findtime)
  parse_arg-AllUsable (key_l arg) p (threads, limit, bantime, findtime) =
      (threads, at_least_one-range 3 (strtol arg) (omega arith) (omega arith), bantime, findtime)
  parse_arg-AllUsable (key_b arg) p (threads, limit, bantime, findtime) =
      (threads, limit, at_least_one-range 30 (strtol arg) (omega arith) (omega arith), findtime)
  parse_arg-AllUsable (key_d arg) p (threads, limit, bantime, findtime) =
      (threads, limit, bantime, at_least_one-range 30 (strtol arg) (omega arith) (omega arith))
  parse_arg-AllUsable (key_r arg) p u = u
  parse_arg-AllUsable key_m p u = u
  parse_arg-AllUsable key_w p u = u
  parse_arg-AllUsable key_v p u = u
  parse_arg-AllUsable (key_g none) p u = u
  parse_arg-AllUsable (key_g (some arg)) p u = elim (Bool-cases (is_address arg)) [
    | inl e ↦ rw e u
    | inr e ↦ rw e u
  ]
  parse_arg-AllUsable (key_arg arg_num arg) p u = elim (Bool-cases (leb 2 arg_num)) [
    | inl e ↦ rw e tt
    | inr e ↦ rw e u
  ]
  parse_arg-AllUsable (key_end arg_num) p u = finish-IsUsable arg_num p.config u
  parse_arg-AllUsable key_other p u = u

  -- From a configuration with at least one thread and a limit, a time of banning and a find time
  -- above 0, all within their types, the calls of `parse_arg` for any options and arguments, ending
  -- with ARGP_KEY_END, either exit with the usage or leave such a configuration, with one thread
  -- only where the messages come from a file, and with workload stealing only for shared memory.
  pub parse_args-IsUsable :
      (keys : List (Key Text)) (arg_num : ℕ) (p : Parser Text)
      → IsUsable p.config
      → let r = parse_args strtol is_address default_log default_iface nprocs keys arg_num p in
        (r ≡ none) ⊎ ((q : Parser Text) × (r ≡ some q) × IsUsable q.config × IsConsistent q.config)
  unfolding parse_args parse_arg
  parse_args-IsUsable [] arg_num p u =
      let c = finish default_iface arg_num p.config in
      inr (
        record p { config = c },
        refl,
        finish-IsUsable arg_num p.config u,
        finish-IsConsistent arg_num p.config u,
      )
  parse_args-IsUsable (key ∷ keys) arg_num p u = elim (Option-cases (parse key p)) [
    | inl exits ↦ inl (rw exits refl)
    | inr (q, more) ↦
        let usable : IsUsable q.config = rw more at (parse_arg-AllUsable key p u) in
        rw more (parse_args-IsUsable keys arg_num q usable)
  ]
