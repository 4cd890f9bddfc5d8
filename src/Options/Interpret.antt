-- ===== src/Options/Interpret.antt =====
-- `Settings_Interpret` of iperf2-code/src/Settings.cpp: what an option of the command line or of the environment does
-- to the settings. Warnings are not modelled; `none` is `exit(1)`.
use Prim.Native.Nat.{◌*◌}
use Prim.Native.String.{String}
use flexfcapf.Prelude.Bits.{has_bit, set_bit}
use flexfcapf.Prelude.{
  Bool, true, ◌&&◌, ◌||◌, Option, none, some, List, [], ◌∷◌, ◌==◌, if◌then◌else◌, ◌>>=◌,
}
use flexfcapf.Prelude.Int.{pos, to_unsigned, to_signed}
use flexfcapf.Prelude.Double.{Double, of_int, to_int, ltb_w}
use flexfcapf.Settings.{ThreadMode, ReportMode, TestMode, RateUnits, is_client, is_set}
use flexfcapf.Numbers.{Text, CLibrary, byte_atoi, quotient, times}
use flexfcapf.Address.{Resolver, set_hostname, zero_address, is_multicast, ByteOrder}
use flexfcapf.Options.Texts.{
  Opt, upper_case_arg, first_of, bind_parts, exclude, set_variables, env_options,
}
use flexfcapf.Options.{
  ThreadSettings, is_flag, set_flag, unset_flag, set_extended, buflenset_flag, compat_flag,
  daemon_flag, domain_flag, fileinput_flag, nodelay_flag, printmss_flag, stdin_flag, stdout_flag,
  suggestwin_flag, udp_flag, modetime_flag, multicast_flag, singleclient_flag, singleudp_flag,
  congestion_flag, realtime_flag, bwset_flag, enhancedreport_flag, servermodetime_flag,
  peerver_flag, seqno64_flag,
}

-- What the parser takes from the C library and the network; `string` is the text as the resolver takes it.
pub record Library (W : Type 0) : Type 0 where
  pub c : CLibrary W
  pub string : Text → String
  pub resolve : Resolver
  pub order : ByteOrder

module _ {W : Type 0} ⦃d : Double W⦄ where
  -- `// Test for Multicast`: the name is resolved, or the program ends.
  unfoldable pub test_multicast :
      Library W → Text → Bool → ThreadSettings W → Option (ThreadSettings W)
  test_multicast lib name ipv6 s = do
    temp ← set_hostname lib.resolve (lib.string name) zero_address ipv6
    some (if is_multicast lib.order temp then set_flag multicast_flag s else s)

  -- `case 'b'`
  unfoldable pub option_bandwidth : Library W → Text → ThreadSettings W → Option (ThreadSettings W)
  option_bandwidth lib arg s = do
    (rate, rest) ← lib.c.strtoll arg
    let is_pps = first_of rest == b'p' || first_of rest == b'P'
    let flags = set_bit s.flags bwset_flag
    some (record s {
      udp_rate_units = if is_pps then RateUnits.pps else RateUnits.bw;
      udp_rate = if is_pps then rate else byte_atoi lib.c arg;
      flags = flags;
      buf_len = if has_bit flags buflenset_flag then s.buf_len else pos 1470;
    })

  -- `case 'c'`, by the mode so far
  unfoldable pub client_from :
      ThreadMode → Library W → Text → ThreadSettings W → Option (ThreadSettings W)
  client_from ThreadMode.unknown lib arg s = do
    t ← test_multicast lib arg (is_flag domain_flag s) s
    some (record t { thread_mode = ThreadMode.client; threads = pos 1 })
  client_from _ lib arg s = some s

  unfoldable pub option_client : Library W → Text → ThreadSettings W → Option (ThreadSettings W)
  unfolding client_from
  option_client lib arg s = client_from s.thread_mode lib arg (record s { host = some arg })

  -- `case 'd'` and `case 'r'`
  unfoldable pub option_mode : TestMode → ThreadSettings W → ThreadSettings W
  option_mode mode s = if is_client s.thread_mode then record s { mode = mode } else s

  -- `case 'i'`
  unfoldable pub option_interval : Library W → Text → ThreadSettings W → ThreadSettings W
  option_interval lib arg s =
      let (given, rest) = lib.c.strtof arg in
      let smallest = quotient (of_int (pos 5)) 1000 in
      let is_valid = first_of rest == 0 in
      let kept = if is_valid && ltb_w given smallest then smallest else given in
      let is_short = is_valid && ltb_w kept (quotient (of_int (pos 5)) 10) in
      record s {
        interval = kept;
        flags = if is_short then set_bit s.flags enhancedreport_flag else s.flags;
      }

  -- `case 'l'`
  unfoldable pub option_len : Library W → Text → ThreadSettings W → ThreadSettings W
  option_len lib arg s =
      set_flag buflenset_flag
        (record s { buf_len = to_signed 32 (byte_atoi lib.c (upper_case_arg arg)) })

  -- `case 'n'`
  unfoldable pub option_num : Library W → Text → ThreadSettings W → ThreadSettings W
  option_num lib arg s = record (unset_flag modetime_flag s) {
    amount = to_unsigned 64 (byte_atoi lib.c (upper_case_arg arg));
  }

  -- `case 'o'`
  unfoldable pub option_output : Text → ThreadSettings W → ThreadSettings W
  option_output arg s = record (unset_flag stdout_flag s) { output_file_name = some arg }

  -- `case 's'`
  unfoldable pub option_server : ThreadSettings W → ThreadSettings W
  option_server s =
      if is_set s.thread_mode then s else record s { thread_mode = ThreadMode.listener }

  -- `case 't'`
  unfoldable pub option_time : Library W → Text → ThreadSettings W → ThreadSettings W
  option_time lib arg s = record (set_flag servermodetime_flag (set_flag modetime_flag s)) {
    amount = to_unsigned 64 (to_signed 32 (to_int (times (lib.c.atof arg) 100)));
  }

  -- `case 'u'`
  unfoldable pub option_udp : ThreadSettings W → ThreadSettings W
  option_udp s =
      let flags = if is_flag udp_flag s then s.flags else set_bit s.flags udp_flag in
      record s {
        flags = flags;
        udp_rate =
            if is_flag udp_flag s || has_bit flags bwset_flag
            then s.udp_rate
            else pos (1024 * 1024);
        buf_len = if has_bit flags buflenset_flag then s.buf_len else pos 1470;
      }

  -- `case 'y'`
  unfoldable pub option_style : Text → ThreadSettings W → ThreadSettings W
  option_style arg s =
      let is_csv = first_of arg == b'c' || first_of arg == b'C' in
      record s { report_mode = if is_csv then ReportMode.csv else s.report_mode }

  -- `case 'B'`
  unfoldable pub bind_to :
      Option (Text × Option Text) → Library W → Text → ThreadSettings W → Option (ThreadSettings W)
  bind_to none lib arg s =
      test_multicast lib arg (is_flag domain_flag s) (record s { localhost = some arg })
  bind_to (some (host, none)) lib arg s =
      test_multicast lib host (is_flag domain_flag s) (record s { localhost = some host })
  bind_to (some (host, some p)) lib arg s =
      test_multicast lib host (is_flag domain_flag s)
        (record s { localhost = some host; bind_port = to_unsigned 16 (lib.c.atoi p) })

  unfoldable pub option_bind : Library W → Text → ThreadSettings W → Option (ThreadSettings W)
  unfolding bind_to
  option_bind lib arg s =
      let parts =
        if is_client s.thread_mode then bind_parts arg (is_flag domain_flag s) else none in
      bind_to parts lib arg s

  -- `case 'C'`
  unfoldable pub option_compatibility : ThreadSettings W → ThreadSettings W
  option_compatibility s = record (set_flag compat_flag s) { mode = TestMode.normal }

  -- `case 'F'`
  unfoldable pub option_file : Text → ThreadSettings W → ThreadSettings W
  option_file arg s =
      if is_client s.thread_mode
      then record (set_flag fileinput_flag s) { file_name = some arg }
      else s

  -- `case 'I'`; the file's name is "<stdin>".
  unfoldable pub option_stdin : ThreadSettings W → ThreadSettings W
  option_stdin s =
      if is_client s.thread_mode
      then record (set_flag stdin_flag (set_flag fileinput_flag s)) {
        file_name = some (b'<' ∷ b's' ∷ b't' ∷ b'd' ∷ b'i' ∷ b'n' ∷ b'>' ∷ []);
      }
      else s

  -- `case 'L'`
  unfoldable pub option_listenport : Library W → Text → ThreadSettings W → ThreadSettings W
  option_listenport lib arg s =
      if is_client s.thread_mode
      then record s { listen_port = to_unsigned 16 (lib.c.atoi arg) }
      else s

  -- `case 'V'`, for a name that is there or is not
  unfoldable pub test_name :
      Option (ThreadSettings W)
      → Option Text
      → Library W
      → ThreadSettings W
      → Option (ThreadSettings W)
  test_name missing none lib s = missing
  test_name missing (some name) lib s = test_multicast lib name true s

  -- By the mode. A client's null host would be read: there is no result.
  unfoldable pub ipv6_for : ThreadMode → Library W → ThreadSettings W → Option (ThreadSettings W)
  unfolding test_name
  ipv6_for ThreadMode.server lib s = test_name (some s) s.localhost lib s
  ipv6_for ThreadMode.client lib s = test_name none s.host lib s
  ipv6_for _ lib s = some s

  unfoldable pub option_ipv6 : Library W → ThreadSettings W → Option (ThreadSettings W)
  unfolding ipv6_for
  option_ipv6 lib s = ipv6_for s.thread_mode lib (set_flag domain_flag s)

  -- `Settings_Interpret` from `// more esoteric options`
  unfoldable pub interpret_esoteric :
      Library W → Opt → Text → ThreadSettings W → Option (ThreadSettings W)
  interpret_esoteric lib Opt.bind arg s = option_bind lib arg s
  interpret_esoteric lib Opt.compatibility arg s = some (option_compatibility s)
  interpret_esoteric lib Opt.daemon arg s = some (set_flag daemon_flag s)
  interpret_esoteric lib Opt.file_input arg s = some (option_file arg s)
  interpret_esoteric lib Opt.stdin_input arg s = some (option_stdin s)
  interpret_esoteric lib Opt.mss arg s =
      some (record s { mss = to_signed 32 (byte_atoi lib.c (upper_case_arg arg)) })
  interpret_esoteric lib Opt.nodelay arg s = some (set_flag nodelay_flag s)
  interpret_esoteric lib Opt.listenport arg s = some (option_listenport lib arg s)
  interpret_esoteric lib Opt.parallel arg s = some (record s { threads = lib.c.atoi arg })
  interpret_esoteric lib Opt.reverse arg s = none
  interpret_esoteric lib Opt.tos arg s = some (record s { tos = to_signed 32 (lib.c.strtol arg) })
  interpret_esoteric lib Opt.ttl arg s = some (record s { ttl = lib.c.atoi arg })
  interpret_esoteric lib Opt.single_udp arg s = some (set_flag singleudp_flag s)
  interpret_esoteric lib Opt.ipv6_domain arg s = option_ipv6 lib s
  interpret_esoteric lib Opt.suggest_win_size arg s = some (set_flag suggestwin_flag s)
  interpret_esoteric lib Opt.peer_detect arg s = some (set_extended peerver_flag s)
  interpret_esoteric lib Opt.linux_congestion arg s =
      some (record (set_flag congestion_flag s) { congestion = some arg })
  interpret_esoteric lib Opt.udp_counters_64bit arg s = some (set_extended seqno64_flag s)
  interpret_esoteric lib _ arg s = some s

  -- `Settings_Interpret`
  unfoldable pub interpret : Library W → Opt → Text → ThreadSettings W → Option (ThreadSettings W)
  interpret lib Opt.singleclient arg s = some (set_flag singleclient_flag s)
  interpret lib Opt.bandwidth arg s = option_bandwidth lib arg s
  interpret lib Opt.client arg s = option_client lib arg s
  interpret lib Opt.dualtest arg s = some (option_mode TestMode.dual_test s)
  interpret lib Opt.enhancedreports arg s = some (set_flag enhancedreport_flag s)
  interpret lib Opt.format arg s = some (record s { format = first_of arg })
  interpret lib Opt.help arg s = none
  interpret lib Opt.interval arg s = some (option_interval lib arg s)
  interpret lib Opt.key arg s = some (record s { flow_id = lib.c.atoi arg })
  interpret lib Opt.len arg s = some (option_len lib arg s)
  interpret lib Opt.print_mss arg s = some (set_flag printmss_flag s)
  interpret lib Opt.num arg s = some (option_num lib arg s)
  interpret lib Opt.output arg s = some (option_output arg s)
  interpret lib Opt.port arg s = some (record s { port = to_unsigned 16 (lib.c.atoi arg) })
  interpret lib Opt.tradeoff arg s = some (option_mode TestMode.trade_off s)
  interpret lib Opt.server arg s = some (option_server s)
  interpret lib Opt.time arg s = some (option_time lib arg s)
  interpret lib Opt.udp arg s = some (option_udp s)
  interpret lib Opt.version arg s = none
  interpret lib Opt.window arg s =
      some (record s { tcp_win = to_signed 32 (byte_atoi lib.c (upper_case_arg arg)) })
  interpret lib Opt.reportexclude arg s = some (record s { flags = exclude arg s.flags })
  interpret lib Opt.reportstyle arg s = some (option_style arg s)
  interpret lib Opt.realtime arg s = some (set_flag realtime_flag s)
  interpret lib opt arg s = interpret_esoteric lib opt arg s

  -- One option after the other.
  unfoldable pub interpret_all :
      Library W → List (Opt × Text) → ThreadSettings W → Option (ThreadSettings W)
  interpret_all lib [] s = some s
  interpret_all lib ((opt, arg) ∷ rest) s = interpret lib opt arg s >>= interpret_all lib rest

  -- `Settings_ParseEnvironment`
  unfoldable pub parse_environment :
      Library W → (String → Option Text) → ThreadSettings W → Option (ThreadSettings W)
  parse_environment lib getenv s = interpret_all lib (set_variables getenv env_options) s

  -- `Settings_ParseCommandLine`: what getopt finds with the options of priority, and then with all of them.
  unfoldable pub parse_command_line :
      Library W
      → List (Opt × Text)
      → List (Opt × Text)
      → ThreadSettings W
      → Option (ThreadSettings W)
  parse_command_line lib priority opts s = interpret_all lib priority s >>= interpret_all lib opts
