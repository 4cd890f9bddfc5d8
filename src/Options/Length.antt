-- ===== src/Options/Length.antt =====
-- The buffer length that the options of iperf2-code/src/Settings.cpp leave, whatever their order.
use flexfcapf.Prelude.{
  ℕ, ◌*◌, ◌≡◌, refl, ap, ap₂, sym, ◌∙◌, Bool, true, false, not, ◌&&◌, ◌||◌, Option, none, some,
  List, [], ◌∷◌, if◌then◌else◌, if_intro, Ensures, Ensures->>=, Ensures-trivial, Ensures-mono,
  arith,
}
use flexfcapf.Prelude.Int.{ℤ, pos, to_signed}
use flexfcapf.Prelude.Bits.{has_bit, set_bit}
use flexfcapf.Prelude.Double.{Double}
use flexfcapf.Settings.{ThreadMode, is_client, is_set}
use flexfcapf.Numbers.{Text, byte_atoi}
use flexfcapf.Options.{
  ThreadSettings, initialize, is_flag, set_flag, buflenset_flag, domain_flag, multicast_flag,
}
use flexfcapf.Options.Texts.{Opt, upper_case_arg, exclude, exclude_one, excluded_flag}
use flexfcapf.Options.Flags.{flag_cases}
use flexfcapf.Options.Modes.{test_multicast-keeps}
use flexfcapf.Options.Interpret.{
  Library, test_multicast, client_from, bind_to, test_name, ipv6_for, option_bandwidth,
  option_client, option_mode, option_interval, option_len, option_num, option_output, option_server,
  option_time, option_udp, option_style, option_bind, option_compatibility, option_file,
  option_stdin, option_listenport, option_ipv6, interpret, interpret_esoteric, interpret_all,
}

-- The options that make the default length that of a datagram.
abbrev pub is_datagram : Opt → Bool
is_datagram Opt.udp = true
is_datagram Opt.bandwidth = true
is_datagram _ = false

abbrev pub is_len : Opt → Bool
is_len Opt.len = true
is_len _ = false

abbrev pub any_datagram : List (Opt × Text) → Bool
any_datagram [] = false
any_datagram ((opt, arg) ∷ rest) = is_datagram opt || any_datagram rest

-- What a later -l gives goes before what an earlier one does.
abbrev later : Option ℤ → Option ℤ → Option ℤ
later (some n) earlier = some n
later none earlier = earlier

-- The length that is given, or else the default.
abbrev pub settle : Option ℤ → Bool → Bool → ℤ → ℤ
settle (some n) is_udp is_given len = n
settle none is_udp is_given len = if not is_given && is_udp then pos 1470 else len

settle_step :
    (o : Option ℤ) (u f l g : Bool) (n len : ℤ)
    → settle o u (f || l) (if l then n else if g && not f then pos 1470 else len)
      ≡ settle (later o (if l then some n else none)) (g || u) f len
settle_step (some m) u f l g n len = refl
settle_step none u f true g n len = ground arith
settle_step none u f false g n len = ground arith

set_multicast-keeps : (flags : ℕ) → has_bit (set_bit flags multicast_flag) 0 ≡ has_bit flags 0
set_multicast-keeps flags = ground arith

or_false : (b : Bool) → b ≡ b || false
or_false b = ground arith

exclude_one-keeps :
    (c flags : ℕ) → has_bit (exclude_one (excluded_flag c) flags) 0 ≡ has_bit flags 0
unfolding exclude_one
exclude_one-keeps c flags =
    flag_cases c (λ o. has_bit (exclude_one o flags) 0 ≡ has_bit flags 0) refl (ground arith)
      (ground arith) (ground arith) (ground arith) (ground arith)

exclude-keeps : (arg : Text) (flags : ℕ) → has_bit (exclude arg flags) 0 ≡ has_bit flags 0
unfolding exclude
exclude-keeps [] flags = refl
exclude-keeps (c ∷ cs) flags =
    exclude-keeps cs (exclude_one (excluded_flag c) flags) ∙ exclude_one-keeps c flags

module _ {W : Type 0} ⦃d : Double W⦄ where
  -- The length that an argument of -l gives.
  abbrev pub given_len : Library W → Text → ℤ
  given_len lib arg = to_signed 32 (byte_atoi lib.c (upper_case_arg arg))

  -- What the last -l gives, and whether there is a -u or a -b.
  abbrev pub last_len : Library W → List (Opt × Text) → Option ℤ
  last_len lib [] = none
  last_len lib ((opt, arg) ∷ rest) =
      later (last_len lib rest) (if is_len opt then some (given_len lib arg) else none)

  -- The length after the options, from whether a -l was given before and from the length so far.
  abbrev pub len_after : Library W → List (Opt × Text) → Bool → ℤ → ℤ
  len_after lib opts is_given len = settle (last_len lib opts) (any_datagram opts) is_given len

  -- What one option does to the length and to its flag.
  record Lengthens (lib : Library W) (opt : Opt) (arg : Text) (s t : ThreadSettings W)
      : Type 0 where
    flag : is_flag buflenset_flag t ≡ is_flag buflenset_flag s || is_len opt
    len : t.buf_len ≡ (
        if is_len opt
        then given_len lib arg
        else if is_datagram opt && not (is_flag buflenset_flag s)
        then pos 1470
        else s.buf_len)

  -- The settings keep their length and the flag for it.
  record Keeps (s t : ThreadSettings W) : Type 0 where
    flag : is_flag buflenset_flag t ≡ is_flag buflenset_flag s
    len : t.buf_len ≡ s.buf_len

  test_multicast-Keeps :
      (lib : Library W) (name : Text) (ipv6 : Bool) (s t : ThreadSettings W)
      → Keeps s t
      → Ensures (Keeps s) (test_multicast lib name ipv6 t)
  test_multicast-Keeps lib name ipv6 s t k =
      test_multicast-keeps lib name ipv6 t (Keeps s)
        (record { flag = set_multicast-keeps t.flags ∙ k.flag; len = k.len }) k

  client_from-Keeps :
      (m : ThreadMode) (lib : Library W) (arg : Text) (s : ThreadSettings W)
      → Ensures (Keeps s) (client_from m lib arg s)
  unfolding client_from
  client_from-Keeps ThreadMode.unknown lib arg s =
      Ensures->>= (Keeps s) (Keeps s) (test_multicast lib arg (is_flag domain_flag s) s) _
        (test_multicast-Keeps lib arg _ s s (record { flag = refl; len = refl }))
        (λ t k. record { flag = k.flag; len = k.len })
  client_from-Keeps ThreadMode.client lib arg s = record { flag = refl; len = refl }
  client_from-Keeps ThreadMode.listener lib arg s = record { flag = refl; len = refl }
  client_from-Keeps ThreadMode.server lib arg s = record { flag = refl; len = refl }
  client_from-Keeps ThreadMode.reporter lib arg s = record { flag = refl; len = refl }

  bind_to-Keeps :
      (parts : Option (Text × Option Text)) (lib : Library W) (arg : Text) (s : ThreadSettings W)
      → Ensures (Keeps s) (bind_to parts lib arg s)
  unfolding bind_to
  bind_to-Keeps none lib arg s =
      test_multicast-Keeps lib arg _ s _ (record { flag = refl; len = refl })
  bind_to-Keeps (some (host, none)) lib arg s =
      test_multicast-Keeps lib host _ s _ (record { flag = refl; len = refl })
  bind_to-Keeps (some (host, some p)) lib arg s =
      test_multicast-Keeps lib host _ s _ (record { flag = refl; len = refl })

  test_name-Keeps :
      (missing : Option (ThreadSettings W)) (name : Option Text) (lib : Library W)
      (s : ThreadSettings W)
      → Ensures (Keeps s) missing
      → Ensures (Keeps s) (test_name missing name lib s)
  unfolding test_name
  test_name-Keeps missing none lib s h = h
  test_name-Keeps missing (some name) lib s h =
      test_multicast-Keeps lib name true s s (record { flag = refl; len = refl })

  ipv6_for-Keeps :
      (m : ThreadMode) (lib : Library W) (s : ThreadSettings W)
      → Ensures (Keeps s) (ipv6_for m lib s)
  unfolding ipv6_for
  ipv6_for-Keeps ThreadMode.server lib s =
      test_name-Keeps (some s) s.localhost lib s (record { flag = refl; len = refl })
  ipv6_for-Keeps ThreadMode.client lib s = test_name-Keeps none s.host lib s tt
  ipv6_for-Keeps ThreadMode.unknown lib s = record { flag = refl; len = refl }
  ipv6_for-Keeps ThreadMode.listener lib s = record { flag = refl; len = refl }
  ipv6_for-Keeps ThreadMode.reporter lib s = record { flag = refl; len = refl }

  Keeps-if :
      (b : Bool) (s t u : ThreadSettings W) → Keeps s t → Keeps s u → Keeps s (if b then t else u)
  Keeps-if b s t u h k = if_intro (Keeps s) b (λ e. h) (λ e. k)

  kept :
      (lib : Library W) (opt : Opt) (arg : Text) (s t : ThreadSettings W)
      → is_len opt ≡ false
      → is_datagram opt ≡ false
      → Keeps s t
      → Lengthens lib opt arg s t
  kept lib opt arg s t l g k = record {
    flag = k.flag ∙ or_false _ ∙ ap (λ b. is_flag buflenset_flag s || b) (sym l);
    len = ground (arith, k.len);
  }

  interpret-Lengthens :
      (lib : Library W) (opt : Opt) (arg : Text) (s : ThreadSettings W)
      → Ensures (Lengthens lib opt arg s) (interpret lib opt arg s)
  unfolding interpret interpret_esoteric option_client option_mode option_interval option_len
      option_num option_output option_server option_time option_udp option_style option_bind
      option_compatibility option_file option_stdin option_listenport option_ipv6 option_bandwidth
  interpret-Lengthens lib Opt.singleclient arg s =
      kept lib Opt.singleclient arg s _ refl refl (record { flag = ground arith; len = refl })
  interpret-Lengthens lib Opt.bandwidth arg s =
      Ensures->>= (λ _. Unit {0}) (Lengthens lib Opt.bandwidth arg s) (lib.c.strtoll arg) _
        (Ensures-trivial _) (λ a _. record { flag = ground arith; len = ground arith })
  interpret-Lengthens lib Opt.client arg s =
      Ensures-mono (Keeps (record s { host = some arg })) (Lengthens lib Opt.client arg s) _
        (client_from-Keeps s.thread_mode lib arg (record s { host = some arg }))
        (λ t k. kept lib Opt.client arg s t refl refl (record { flag = k.flag; len = k.len }))
  interpret-Lengthens lib Opt.dualtest arg s = kept lib Opt.dualtest arg s _ refl refl (
      Keeps-if (is_client s.thread_mode) s _ s (record { flag = refl; len = refl })
        (record { flag = refl; len = refl }))
  interpret-Lengthens lib Opt.enhancedreports arg s =
      kept lib Opt.enhancedreports arg s _ refl refl (record { flag = ground arith; len = refl })
  interpret-Lengthens lib Opt.format arg s =
      kept lib Opt.format arg s _ refl refl (record { flag = refl; len = refl })
  interpret-Lengthens lib Opt.help arg s = tt
  interpret-Lengthens lib Opt.interval arg s =
      kept lib Opt.interval arg s _ refl refl (record { flag = ground arith; len = refl })
  interpret-Lengthens lib Opt.key arg s =
      kept lib Opt.key arg s _ refl refl (record { flag = refl; len = refl })
  interpret-Lengthens lib Opt.len arg s = record { flag = ground arith; len = refl }
  interpret-Lengthens lib Opt.print_mss arg s =
      kept lib Opt.print_mss arg s _ refl refl (record { flag = ground arith; len = refl })
  interpret-Lengthens lib Opt.num arg s =
      kept lib Opt.num arg s _ refl refl (record { flag = ground arith; len = refl })
  interpret-Lengthens lib Opt.output arg s =
      kept lib Opt.output arg s _ refl refl (record { flag = ground arith; len = refl })
  interpret-Lengthens lib Opt.port arg s =
      kept lib Opt.port arg s _ refl refl (record { flag = refl; len = refl })
  interpret-Lengthens lib Opt.tradeoff arg s = kept lib Opt.tradeoff arg s _ refl refl (
      Keeps-if (is_client s.thread_mode) s _ s (record { flag = refl; len = refl })
        (record { flag = refl; len = refl }))
  interpret-Lengthens lib Opt.server arg s = kept lib Opt.server arg s _ refl refl (
      Keeps-if (is_set s.thread_mode) s s _ (record { flag = refl; len = refl })
        (record { flag = refl; len = refl }))
  interpret-Lengthens lib Opt.time arg s =
      kept lib Opt.time arg s _ refl refl (record { flag = ground arith; len = refl })
  interpret-Lengthens lib Opt.udp arg s = record { flag = ground arith; len = ground arith }
  interpret-Lengthens lib Opt.version arg s = tt
  interpret-Lengthens lib Opt.window arg s =
      kept lib Opt.window arg s _ refl refl (record { flag = refl; len = refl })
  interpret-Lengthens lib Opt.reportexclude arg s =
      kept lib Opt.reportexclude arg s _ refl refl
        (record { flag = exclude-keeps arg s.flags; len = refl })
  interpret-Lengthens lib Opt.reportstyle arg s =
      kept lib Opt.reportstyle arg s _ refl refl (record { flag = refl; len = refl })
  interpret-Lengthens lib Opt.realtime arg s =
      kept lib Opt.realtime arg s _ refl refl (record { flag = ground arith; len = refl })
  interpret-Lengthens lib Opt.bind arg s =
      Ensures-mono (Keeps s) (Lengthens lib Opt.bind arg s) _ (bind_to-Keeps _ lib arg s)
        (λ t k. kept lib Opt.bind arg s t refl refl (record { flag = k.flag; len = k.len }))
  interpret-Lengthens lib Opt.compatibility arg s =
      kept lib Opt.compatibility arg s _ refl refl (record { flag = ground arith; len = refl })
  interpret-Lengthens lib Opt.daemon arg s =
      kept lib Opt.daemon arg s _ refl refl (record { flag = ground arith; len = refl })
  interpret-Lengthens lib Opt.file_input arg s = kept lib Opt.file_input arg s _ refl refl (
      Keeps-if (is_client s.thread_mode) s _ s (record { flag = ground arith; len = refl })
        (record { flag = refl; len = refl }))
  interpret-Lengthens lib Opt.stdin_input arg s = kept lib Opt.stdin_input arg s _ refl refl (
      Keeps-if (is_client s.thread_mode) s _ s (record { flag = ground arith; len = refl })
        (record { flag = refl; len = refl }))
  interpret-Lengthens lib Opt.mss arg s =
      kept lib Opt.mss arg s _ refl refl (record { flag = refl; len = refl })
  interpret-Lengthens lib Opt.nodelay arg s =
      kept lib Opt.nodelay arg s _ refl refl (record { flag = ground arith; len = refl })
  interpret-Lengthens lib Opt.listenport arg s = kept lib Opt.listenport arg s _ refl refl (
      Keeps-if (is_client s.thread_mode) s _ s (record { flag = refl; len = refl })
        (record { flag = refl; len = refl }))
  interpret-Lengthens lib Opt.parallel arg s =
      kept lib Opt.parallel arg s _ refl refl (record { flag = refl; len = refl })
  interpret-Lengthens lib Opt.reverse arg s = tt
  interpret-Lengthens lib Opt.tos arg s =
      kept lib Opt.tos arg s _ refl refl (record { flag = refl; len = refl })
  interpret-Lengthens lib Opt.ttl arg s =
      kept lib Opt.ttl arg s _ refl refl (record { flag = refl; len = refl })
  interpret-Lengthens lib Opt.single_udp arg s =
      kept lib Opt.single_udp arg s _ refl refl (record { flag = ground arith; len = refl })
  interpret-Lengthens lib Opt.ipv6_domain arg s =
      Ensures-mono (Keeps (set_flag domain_flag s)) (Lengthens lib Opt.ipv6_domain arg s) _
        (ipv6_for-Keeps s.thread_mode lib (set_flag domain_flag s))
        (λ t k.
          kept lib Opt.ipv6_domain arg s t refl refl
            (record { flag = ground (arith, k.flag); len = k.len }))
  interpret-Lengthens lib Opt.suggest_win_size arg s =
      kept lib Opt.suggest_win_size arg s _ refl refl (record { flag = ground arith; len = refl })
  interpret-Lengthens lib Opt.peer_detect arg s =
      kept lib Opt.peer_detect arg s _ refl refl (record { flag = refl; len = refl })
  interpret-Lengthens lib Opt.linux_congestion arg s =
      kept lib Opt.linux_congestion arg s _ refl refl (record { flag = ground arith; len = refl })
  interpret-Lengthens lib Opt.udp_counters_64bit arg s =
      kept lib Opt.udp_counters_64bit arg s _ refl refl (record { flag = refl; len = refl })
  interpret-Lengthens lib Opt.other arg s =
      kept lib Opt.other arg s _ refl refl (record { flag = refl; len = refl })

  abbrev HasLen : ℤ → ThreadSettings W → Type 0
  HasLen n t = t.buf_len ≡ n

  interpret_all-len_after :
      (lib : Library W) (opts : List (Opt × Text)) (s : ThreadSettings W)
      → Ensures
          (λ t. t.buf_len ≡ len_after lib opts (is_flag buflenset_flag s) s.buf_len)
          (interpret_all lib opts s)
  unfolding interpret_all
  interpret_all-len_after lib [] s = ground arith
  interpret_all-len_after lib ((opt, arg) ∷ rest) s =
      let goal = len_after lib ((opt, arg) ∷ rest) (is_flag buflenset_flag s) s.buf_len in
      Ensures->>= (Lengthens lib opt arg s) (HasLen goal) (interpret lib opt arg s)
        (interpret_all lib rest) (interpret-Lengthens lib opt arg s)
        (λ t l.
          Ensures-mono (HasLen (len_after lib rest (is_flag buflenset_flag t) t.buf_len))
            (HasLen goal) (interpret_all lib rest t) (interpret_all-len_after lib rest t)
            (λ r e.
              e
              ∙ ap₂ (len_after lib rest) l.flag l.len
              ∙ settle_step (last_len lib rest) (any_datagram rest) (is_flag buflenset_flag s)
                  (is_len opt) (is_datagram opt) (given_len lib arg) s.buf_len))

  -- If the program goes on after its options, then the length of its buffers is that of the last -l; without one it
  -- is that of a datagram if there is a -u or a -b, in whatever order, and else the default.
  pub interpret_all-buf_len :
      (lib : Library W) (opts : List (Opt × Text))
      → Ensures
          (λ t. t.buf_len ≡ settle (last_len lib opts) (any_datagram opts) false (pos (128 * 1024)))
          (interpret_all lib opts initialize)
  unfolding initialize
  interpret_all-buf_len lib opts = interpret_all-len_after lib opts initialize
