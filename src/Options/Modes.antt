-- ===== src/Options/Modes.antt =====
-- What the options of iperf2-code/src/Settings.cpp leave of the mode of the thread and of what depends on it.
use Prim.Native.String.{String}
use flexfcapf.Prelude.{
  ℕ, ◌≡◌, refl, Bool, true, false, Option, none, some, List, [], ◌∷◌, ◌>>=◌, if_intro, Ensures,
  Ensures->>=, Ensures-trivial, arith,
}
use flexfcapf.Prelude.Double.{Double}
use flexfcapf.Settings.{ThreadMode, TestMode, is_client, is_set}
use flexfcapf.Numbers.{Text}
use flexfcapf.Address.{set_hostname, zero_address, is_multicast}
use flexfcapf.Options.{ThreadSettings, multicast_flag, is_flag, initialize, domain_flag, set_flag}
use flexfcapf.Options.Texts.{Opt}
use flexfcapf.Options.Interpret.{
  Library, test_multicast, client_from, bind_to, test_name, ipv6_for, option_bandwidth,
  option_client, option_mode, option_interval, option_server, option_udp, option_style, option_bind,
  option_compatibility, option_file, option_stdin, option_listenport, option_ipv6, interpret,
  interpret_esoteric, interpret_all, option_len, option_num, option_output, option_time,
  parse_command_line, parse_environment,
}

abbrev pub IsSome : Option Text → Type 0
IsSome none = ⊥
IsSome (some t) = Unit

-- By the mode: a client has a host; whatever is none has no test mode, no listening port and no input file.
abbrev pub IsConsistentFor : ThreadMode → Option Text → TestMode → ℕ → Option Text → Type 0
IsConsistentFor ThreadMode.client host mode listen file = IsSome host
IsConsistentFor ThreadMode.unknown host mode listen file =
    (mode ≡ TestMode.normal) × (listen ≡ 0) × (file ≡ none)
IsConsistentFor ThreadMode.listener host mode listen file =
    (mode ≡ TestMode.normal) × (listen ≡ 0) × (file ≡ none)
IsConsistentFor _ host mode listen file = ⊥

module _ {W : Type 0} ⦃d : Double W⦄ where
  abbrev pub IsConsistent : ThreadSettings W → Type 0
  IsConsistent s = IsConsistentFor s.thread_mode s.host s.mode s.listen_port s.file_name

  -- A test for multicast changes one flag at most.
  pub test_multicast-keeps :
      (lib : Library W) (name : Text) (ipv6 : Bool) (s : ThreadSettings W)
      (P : ThreadSettings W → Type 0)
      → P (set_flag multicast_flag s)
      → P s
      → Ensures P (test_multicast lib name ipv6 s)
  unfolding test_multicast
  test_multicast-keeps lib name ipv6 s P h k =
      Ensures->>= (λ _. Unit {0}) P (set_hostname lib.resolve (lib.string name) zero_address ipv6) _
        (Ensures-trivial _) (λ temp _. if_intro P (is_multicast lib.order temp) (λ e. h) (λ e. k))

  client_from-IsConsistent :
      (m : ThreadMode) (lib : Library W) (arg : Text) (s : ThreadSettings W)
      → IsConsistentFor m s.host s.mode s.listen_port s.file_name
      → Ensures IsConsistent (client_from m lib arg (record s { host = some arg; thread_mode = m }))
  unfolding client_from
  client_from-IsConsistent ThreadMode.unknown lib arg s h =
      Ensures->>= (λ t. IsSome t.host) IsConsistent
        (test_multicast lib arg (is_flag domain_flag s)
          (record s { host = some arg; thread_mode = ThreadMode.unknown }))
        _ (test_multicast-keeps lib arg _ _ (λ t. IsSome t.host) tt tt) (λ t q. q)
  client_from-IsConsistent ThreadMode.client lib arg s h = tt
  client_from-IsConsistent ThreadMode.listener lib arg s h = h
  client_from-IsConsistent ThreadMode.server lib arg s h = absurd h
  client_from-IsConsistent ThreadMode.reporter lib arg s h = absurd h

  bind_to-IsConsistent :
      (parts : Option (Text × Option Text)) (lib : Library W) (arg : Text) (s : ThreadSettings W)
      → IsConsistent s
      → Ensures IsConsistent (bind_to parts lib arg s)
  unfolding bind_to
  bind_to-IsConsistent none lib arg s h = test_multicast-keeps lib arg _ _ IsConsistent h h
  bind_to-IsConsistent (some (host, none)) lib arg s h =
      test_multicast-keeps lib host _ _ IsConsistent h h
  bind_to-IsConsistent (some (host, some p)) lib arg s h =
      test_multicast-keeps lib host _ _ IsConsistent h h

  test_name-IsConsistent :
      (missing : Option (ThreadSettings W)) (name : Option Text) (lib : Library W)
      (s : ThreadSettings W)
      → Ensures IsConsistent missing
      → IsConsistent s
      → Ensures IsConsistent (test_name missing name lib s)
  unfolding test_name
  test_name-IsConsistent missing none lib s m h = m
  test_name-IsConsistent missing (some name) lib s m h =
      test_multicast-keeps lib name true s IsConsistent h h

  ipv6_for-IsConsistent :
      (m : ThreadMode) (lib : Library W) (s : ThreadSettings W)
      → IsConsistent s
      → Ensures IsConsistent (ipv6_for m lib s)
  unfolding ipv6_for
  ipv6_for-IsConsistent ThreadMode.server lib s h =
      test_name-IsConsistent (some s) s.localhost lib s h h
  ipv6_for-IsConsistent ThreadMode.client lib s h = test_name-IsConsistent none s.host lib s tt h
  ipv6_for-IsConsistent ThreadMode.unknown lib s h = h
  ipv6_for-IsConsistent ThreadMode.listener lib s h = h
  ipv6_for-IsConsistent ThreadMode.reporter lib s h = h

  -- What only a client may set.
  client_only :
      (m : ThreadMode) (s : ThreadSettings W) (mode : TestMode) (listen : ℕ) (file : Option Text)
      → IsConsistentFor m s.host s.mode s.listen_port s.file_name
      → is_client m ≡ true
      → IsConsistentFor m s.host mode listen file
  client_only ThreadMode.client s mode listen file h e = h
  client_only ThreadMode.unknown s mode listen file h e = absurd (ground arith)
  client_only ThreadMode.listener s mode listen file h e = absurd (ground arith)
  client_only ThreadMode.server s mode listen file h e = absurd h
  client_only ThreadMode.reporter s mode listen file h e = absurd h

  server_from :
      (m : ThreadMode) (s : ThreadSettings W)
      → IsConsistentFor m s.host s.mode s.listen_port s.file_name
      → is_set m ≡ false
      → IsConsistentFor ThreadMode.listener s.host s.mode s.listen_port s.file_name
  server_from ThreadMode.unknown s h e = h
  server_from ThreadMode.client s h e = absurd (ground arith)
  server_from ThreadMode.listener s h e = h
  server_from ThreadMode.server s h e = absurd h
  server_from ThreadMode.reporter s h e = absurd h

  compatible :
      (m : ThreadMode) (s : ThreadSettings W)
      → IsConsistentFor m s.host s.mode s.listen_port s.file_name
      → IsConsistentFor m s.host TestMode.normal s.listen_port s.file_name
  compatible ThreadMode.unknown s h = (refl, h.1, h.2)
  compatible ThreadMode.listener s h = (refl, h.1, h.2)
  compatible ThreadMode.client s h = h
  compatible ThreadMode.server s h = absurd h
  compatible ThreadMode.reporter s h = absurd h

  bandwidth-IsConsistent :
      (lib : Library W) (arg : Text) (s : ThreadSettings W)
      → IsConsistent s
      → Ensures IsConsistent (option_bandwidth lib arg s)
  unfolding option_bandwidth
  bandwidth-IsConsistent lib arg s h =
      Ensures->>= (λ _. Unit {0}) IsConsistent (lib.c.strtoll arg) _ (Ensures-trivial _) (λ a _. h)

  -- Every option keeps the settings consistent: a client has a host, and settings that are no client's have no test
  -- mode but the normal one, no listening port and no input file.
  pub interpret-IsConsistent :
      (lib : Library W) (opt : Opt) (arg : Text) (s : ThreadSettings W)
      → IsConsistent s
      → Ensures IsConsistent (interpret lib opt arg s)
  unfolding interpret interpret_esoteric option_client option_mode option_interval option_len
      option_num option_output option_server option_time option_udp option_style option_bind
      option_compatibility option_file option_stdin option_listenport option_ipv6
  interpret-IsConsistent lib Opt.singleclient arg s h = h
  interpret-IsConsistent lib Opt.bandwidth arg s h = bandwidth-IsConsistent lib arg s h
  interpret-IsConsistent lib Opt.client arg s h = client_from-IsConsistent s.thread_mode lib arg s h
  interpret-IsConsistent lib Opt.dualtest arg s h =
      if_intro IsConsistent (is_client s.thread_mode) (client_only s.thread_mode s _ _ _ h) (λ e. h)
  interpret-IsConsistent lib Opt.enhancedreports arg s h = h
  interpret-IsConsistent lib Opt.format arg s h = h
  interpret-IsConsistent lib Opt.help arg s h = tt
  interpret-IsConsistent lib Opt.interval arg s h = h
  interpret-IsConsistent lib Opt.key arg s h = h
  interpret-IsConsistent lib Opt.len arg s h = h
  interpret-IsConsistent lib Opt.print_mss arg s h = h
  interpret-IsConsistent lib Opt.num arg s h = h
  interpret-IsConsistent lib Opt.output arg s h = h
  interpret-IsConsistent lib Opt.port arg s h = h
  interpret-IsConsistent lib Opt.tradeoff arg s h =
      if_intro IsConsistent (is_client s.thread_mode) (client_only s.thread_mode s _ _ _ h) (λ e. h)
  interpret-IsConsistent lib Opt.server arg s h =
      if_intro IsConsistent (is_set s.thread_mode) (λ e. h) (λ e. server_from s.thread_mode s h e)
  interpret-IsConsistent lib Opt.time arg s h = h
  interpret-IsConsistent lib Opt.udp arg s h = h
  interpret-IsConsistent lib Opt.version arg s h = tt
  interpret-IsConsistent lib Opt.window arg s h = h
  interpret-IsConsistent lib Opt.reportexclude arg s h = h
  interpret-IsConsistent lib Opt.reportstyle arg s h = h
  interpret-IsConsistent lib Opt.realtime arg s h = h
  interpret-IsConsistent lib Opt.bind arg s h = bind_to-IsConsistent _ lib arg s h
  interpret-IsConsistent lib Opt.compatibility arg s h = compatible s.thread_mode s h
  interpret-IsConsistent lib Opt.daemon arg s h = h
  interpret-IsConsistent lib Opt.file_input arg s h =
      if_intro IsConsistent (is_client s.thread_mode) (client_only s.thread_mode s _ _ _ h) (λ e. h)
  interpret-IsConsistent lib Opt.stdin_input arg s h =
      if_intro IsConsistent (is_client s.thread_mode) (client_only s.thread_mode s _ _ _ h) (λ e. h)
  interpret-IsConsistent lib Opt.mss arg s h = h
  interpret-IsConsistent lib Opt.nodelay arg s h = h
  interpret-IsConsistent lib Opt.listenport arg s h =
      if_intro IsConsistent (is_client s.thread_mode) (client_only s.thread_mode s _ _ _ h) (λ e. h)
  interpret-IsConsistent lib Opt.parallel arg s h = h
  interpret-IsConsistent lib Opt.reverse arg s h = tt
  interpret-IsConsistent lib Opt.tos arg s h = h
  interpret-IsConsistent lib Opt.ttl arg s h = h
  interpret-IsConsistent lib Opt.single_udp arg s h = h
  interpret-IsConsistent lib Opt.ipv6_domain arg s h =
      ipv6_for-IsConsistent s.thread_mode lib (set_flag domain_flag s) h
  interpret-IsConsistent lib Opt.suggest_win_size arg s h = h
  interpret-IsConsistent lib Opt.peer_detect arg s h = h
  interpret-IsConsistent lib Opt.linux_congestion arg s h = h
  interpret-IsConsistent lib Opt.udp_counters_64bit arg s h = h
  interpret-IsConsistent lib Opt.other arg s h = h

  pub interpret_all-IsConsistent :
      (lib : Library W) (opts : List (Opt × Text)) (s : ThreadSettings W)
      → IsConsistent s
      → Ensures IsConsistent (interpret_all lib opts s)
  unfolding interpret_all
  interpret_all-IsConsistent lib [] s h = h
  interpret_all-IsConsistent lib ((opt, arg) ∷ rest) s h =
      Ensures->>= IsConsistent IsConsistent (interpret lib opt arg s) (interpret_all lib rest)
        (interpret-IsConsistent lib opt arg s h) (interpret_all-IsConsistent lib rest)

  -- Whatever the environment and the command line say, if the program goes on then its settings are consistent: a
  -- client has a host, and settings that are no client's have no test mode but the normal one, no listening port and
  -- no input file.
  pub parse-IsConsistent :
      (lib : Library W) (getenv : String → Option Text) (priority opts : List (Opt × Text))
      → Ensures IsConsistent
          (parse_environment lib getenv initialize >>= parse_command_line lib priority opts)
  unfolding parse_command_line parse_environment initialize
  parse-IsConsistent lib getenv priority opts =
      Ensures->>= IsConsistent IsConsistent (parse_environment lib getenv initialize) _
        (interpret_all-IsConsistent lib _ initialize (refl, refl, refl))
        (λ s h.
          Ensures->>= IsConsistent IsConsistent (interpret_all lib priority s) _
            (interpret_all-IsConsistent lib priority s h) (interpret_all-IsConsistent lib opts))
