-- ===== src/Options/Texts.antt =====
-- iperf2-code/src/Settings.cpp: the options, the table of the environment's variables, and the functions on the texts
-- of arguments.
use Prim.Native.Nat.{ℕ, ◌+◌}
use Prim.Native.String.{String}
use flexfcapf.Prelude.{
  Bool, false, not, ◌&&◌, ◌||◌, Option, none, some, List, [], ◌∷◌, ◌==◌, if◌then◌else◌, ◌>>=◌, leb,
  drop,
}
use flexfcapf.Prelude.Bits.{set_bit}
use flexfcapf.Numbers.{Text, to_upper}
use flexfcapf.Options.{
  nosettreport_flag, noconnreport_flag, nodatareport_flag, noservreport_flag, nomultreport_flag,
}

-- The options by their names in `long_options`; `other` is a letter that the switch does not know.
pub data Opt : Type 0 where
  singleclient bandwidth client dualtest enhancedreports format help interval key len print_mss :
      Opt
  num output port tradeoff server time udp version window reportexclude reportstyle realtime : Opt
  bind compatibility daemon file_input stdin_input mss nodelay listenport parallel reverse : Opt
  tos ttl single_udp ipv6_domain suggest_win_size peer_detect linux_congestion : Opt
  udp_counters_64bit other : Opt

-- `Settings_GetUpperCaseArg` and `Settings_GetLowerCaseArg`: the last character in the other case.
unfoldable pub upper_case_arg : Text → Text
upper_case_arg [] = []
upper_case_arg (c ∷ []) = to_upper c ∷ []
upper_case_arg (c ∷ c' ∷ cs) = c ∷ upper_case_arg (c' ∷ cs)

unfoldable pub lower_case_arg : Text → Text
lower_case_arg [] = []
lower_case_arg (c ∷ []) = (if leb b'A' c && leb c b'Z' then c + 32 else c) ∷ []
lower_case_arg (c ∷ c' ∷ cs) = c ∷ lower_case_arg (c' ∷ cs)

-- `strtok_r` on a text: what stands before the first of the delimiters that follow something else, and the rest
-- after it; no result for a text of delimiters only.
unfoldable pub token_end : ℕ → Text → Text × Text
token_end sep [] = ([], [])
token_end sep (c ∷ cs) =
    let (token, rest) = token_end sep cs in if c == sep then ([], cs) else (c ∷ token, rest)

unfoldable pub strtok : ℕ → Text → Option (Text × Text)
strtok sep [] = none
strtok sep (c ∷ cs) =
    let rest = strtok sep cs in if c == sep then rest else some (token_end sep (c ∷ cs))

abbrev pub starts_with : ℕ → Text → Bool
starts_with c [] = false
starts_with c (c' ∷ cs) = c' == c

-- The first character, and 0 at the end of the text.
abbrev pub first_of : Text → ℕ
first_of [] = 0
first_of (c ∷ cs) = c

-- The flag that a character of the argument of `case 'x'` turns on.
unfoldable pub excluded_flag : ℕ → Option ℕ
excluded_flag c =
    if c == b's' || c == b'S'
    then some nosettreport_flag
    else if c == b'c' || c == b'C'
    then some noconnreport_flag
    else if c == b'd' || c == b'D'
    then some nodatareport_flag
    else if c == b'v' || c == b'V'
    then some noservreport_flag
    else if c == b'm' || c == b'M'
    then some nomultreport_flag
    else none

unfoldable pub exclude_one : Option ℕ → ℕ → ℕ
exclude_one none flags = flags
exclude_one (some k) flags = set_bit flags k

unfoldable pub exclude : Text → ℕ → ℕ
unfolding exclude_one excluded_flag
exclude [] flags = flags
exclude (c ∷ cs) flags = exclude cs (exclude_one (excluded_flag c) flags)

-- The host and the port that `case 'B'` reads from its argument for a client.
unfoldable pub bind_parts : Text → Bool → Option (Text × Option Text)
bind_parts arg ipv6 =
    if not ipv6
    then (strtok b':' arg >>= λ (host, rest). some (host, strtok b':' rest >>= λ (p, _). some p))
    else if starts_with b'[' arg
    then (strtok b']' arg >>= λ (host, rest).
        some (drop 1 host, strtok b':' rest >>= λ (p, _). some p))
    else none

-- `env_options`
abbrev pub env_options : List (String × Opt)
env_options =
    ("IPERF_IPV6_DOMAIN", Opt.ipv6_domain)
    ∷ ("IPERF_SINGLECLIENT", Opt.singleclient)
    ∷ ("IPERF_BANDWIDTH", Opt.bandwidth)
    ∷ ("IPERF_CLIENT", Opt.client)
    ∷ ("IPERF_DUALTEST", Opt.dualtest)
    ∷ ("IPERF_ENHANCEDREPORTS", Opt.enhancedreports)
    ∷ ("IPERF_FORMAT", Opt.format)
    ∷ ("IPERF_INTERVAL", Opt.interval)
    ∷ ("IPERF_KEY", Opt.key)
    ∷ ("IPERF_LEN", Opt.len)
    ∷ ("IPERF_PRINT_MSS", Opt.print_mss)
    ∷ ("IPERF_NUM", Opt.num)
    ∷ ("IPERF_PORT", Opt.port)
    ∷ ("IPERF_TRADEOFF", Opt.tradeoff)
    ∷ ("IPERF_SERVER", Opt.server)
    ∷ ("IPERF_TIME", Opt.time)
    ∷ ("IPERF_UDP", Opt.udp)
    ∷ ("TCP_WINDOW_SIZE", Opt.window)
    ∷ ("IPERF_REPORTEXCLUDE", Opt.reportexclude)
    ∷ ("IPERF_REPORTSTYLE", Opt.reportstyle)
    ∷ ("IPERF_BIND", Opt.bind)
    ∷ ("IPERF_COMPAT", Opt.compatibility)
    ∷ ("IPERF_DAEMON", Opt.daemon)
    ∷ ("IPERF_FILE_INPUT", Opt.file_input)
    ∷ ("IPERF_STDIN_INPUT", Opt.stdin_input)
    ∷ ("IPERF_MSS", Opt.mss)
    ∷ ("IPERF_NODELAY", Opt.nodelay)
    ∷ ("IPERF_LISTENPORT", Opt.listenport)
    ∷ ("IPERF_PARALLEL", Opt.parallel)
    ∷ ("IPERF_TOS", Opt.tos)
    ∷ ("IPERF_TTL", Opt.ttl)
    ∷ ("IPERF_SINGLE_UDP", Opt.single_udp)
    ∷ ("IPERF_SUGGEST_WIN_SIZE", Opt.suggest_win_size)
    ∷ ("IPERF_PEER_DETECT", Opt.peer_detect)
    ∷ ("IPERF_CONGESTION_CONTROL", Opt.linux_congestion)
    ∷ []

-- `Settings_ParseEnvironment`: the variables that are set, in the order of `env_options`.
unfoldable pub set_variables : (String → Option Text) → List (String × Opt) → List (Opt × Text)
set_variables getenv [] = []
set_variables getenv ((name, opt) ∷ rest) =
    let others = set_variables getenv rest in
    elim (getenv name) [ none ↦ others | some value ↦ (opt, value) ∷ others ]
