-- ===== src/Sf2b/BanThread.antt =====
-- src/programs/sf2b/string.c: the event loop of `ban_thread_routine`, in the build without GRPC.
use fips_ipc.Prelude.{
  ℕ, ◌+◌, ◌%◌, ◌^◌, false, Bool, true, Option, none, some, List, [], ◌∷◌, get_or, set, take, length,
}
use fips_ipc.HashTable.{other_domain, Domain, ℤ, pos, negsuc, Env}
use fips_ipc.LinkedList.{Grant, M, ◌>>=◌, pure}
use fips_ipc.Sf2b.{Bpf}
use fips_ipc.Sf2b.Ban.{Limits, Message, Server, ban_clients}
use fips_ipc.Sf2b.Parse.{Text, Context, DateCache, parse_str}

-- What `get_lines_ipc` answers in a round: an error, nothing, or lines, with the time at which each is
-- parsed and, for the messages among them, the answers and the times in `ban_clients`.
pub data Round : Type 0 where
  failed nothing : Round
  lines : List (List ℕ × ℕ) → List (Grant × ℕ) → Round

-- The thread's array of contexts, its cache of dates and its count of lines.
pub record BanThread : Type 0 where
  pub contexts : List Context
  pub dates : DateCache
  pub rcv_count : ℕ

abbrev pub no_context : Context
no_context = record {
  domain = none;
  matched = false;
  rate_limit_match = false;
  logstr = [];
  ip_addr = 0;
  from = 0;
  timestamp = 0;
}

-- `if (ret < 0) continue;` and `parsed_lines++`
abbrev pub count_parsed : ℤ → ℕ → ℕ
count_parsed (pos r) parsed_lines = parsed_lines + 1
count_parsed (negsuc e) parsed_lines = parsed_lines

-- The loop over the lines; one that is refused leaves its element of the array to the next line.
unfoldable pub parse_lines :
    Text → List (List ℕ × ℕ) → ℕ → List Context → DateCache → ℕ × List Context × DateCache
parse_lines text [] parsed_lines contexts dates = (parsed_lines, contexts, dates)
parse_lines text ((logstr, now) ∷ ls) parsed_lines contexts dates =
    let (code, c, dates') =
      parse_str text now logstr (get_or contexts parsed_lines no_context) dates in
    parse_lines text ls (count_parsed code parsed_lines) (set contexts parsed_lines c) dates'

-- The family that `switch` reads; -1 is none of its cases.
abbrev pub domain_or_other : Option Domain → Domain
domain_or_other none = other_domain 0
domain_or_other (some d) = d

abbrev pub message_of : Context → Message
message_of c = record {
  domain = domain_or_other c.domain;
  ip_addr = c.ip_addr;
  timestamp = c.timestamp;
}

-- Each message with what its round of `ban_clients` gets.
abbrev pub with_answers : List Context → List (Grant × ℕ) → List (Message × Grant × ℕ)
with_answers [] answers = []
with_answers (c ∷ cs) [] = []
with_answers (c ∷ cs) ((grant, ts) ∷ answers) = (message_of c, grant, ts) ∷ with_answers cs answers

module _ (text : Text) (bpf : Bpf) (conf : Limits) (env : Env) where
  -- A round of the loop: `none` is the return with EXIT_FAIL.
  unfoldable pub ban_round : Round → BanThread → Server bpf → M (Option (BanThread × Server bpf))
  unfolding parse_lines
  ban_round failed t s = pure none
  ban_round nothing t s = pure (some (t, s))
  ban_round (lines ls answers) t s =
      let (parsed_lines, contexts, dates) = parse_lines text ls 0 t.contexts t.dates in
      let t' : BanThread = record {
        contexts = contexts;
        dates = dates;
        rcv_count = (t.rcv_count + length ls) % 2 ^ 64;
      } in
      (do
        s' ← ban_clients bpf conf env (with_answers (take parsed_lines contexts) answers) s
        pure (some (t', s')))

  -- The rounds up to the end of `server_running`, or to an error; and whether there was none.
  unfoldable pub ban_thread_routine :
      List Round → BanThread → Server bpf → M (Bool × BanThread × Server bpf)
  unfolding ban_round
  ban_thread_routine [] t s = pure (true, t, s)
  ban_thread_routine (r ∷ rs) t s = do
    after ← ban_round r t s
    elim after [ none ↦ pure (false, t, s) | some (t', s') ↦ ban_thread_routine rs t' s' ]
