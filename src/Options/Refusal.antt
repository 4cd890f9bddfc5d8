-- ===== src/Options/Refusal.antt =====
-- Which options end the program in iperf2-code/src/Settings.cpp.
use flexfcapf.Prelude.{
  ◌≡◌, refl, ap, subst, inl, inr, ◌↔◌, Bool, true, false, ◌||◌, Option, none, some, List, [], ◌∷◌,
  ◌>>=◌, Returns, Returns->>=, Returns-and, Bool-cases, arith,
}
use flexfcapf.Prelude.Double.{Double}
use flexfcapf.Settings.{ThreadMode}
use flexfcapf.Numbers.{Text}
use flexfcapf.Address.{set_hostname, zero_address}
use flexfcapf.Options.{ThreadSettings, is_flag, set_flag, domain_flag}
use flexfcapf.Options.Texts.{Opt}
use flexfcapf.Options.Modes.{IsSome, IsConsistent, IsConsistentFor, interpret-IsConsistent}
use flexfcapf.Options.Interpret.{
  Library, test_multicast, client_from, bind_to, test_name, ipv6_for, option_bandwidth,
  option_client, option_bind, option_ipv6, interpret, interpret_esoteric, interpret_all,
}

-- Something is there.
abbrev IsDefined {ℓ} : {A : Type ℓ} → Option A → Type 0
IsDefined o = Returns (λ _. Unit {0}) o

abbrev pub is_none {ℓ} : {A : Type ℓ} → Option A → Bool
is_none none = true
is_none (some a) = false

chain-IsDefined {ℓ κ} :
    {A : Type ℓ} {B : Type κ} (o : Option A) (f : A → B)
    → is_none o ≡ false
    → IsDefined (o >>= λ a. some (f a))
chain-IsDefined none f h = absurd (ground arith)
chain-IsDefined (some a) f h = tt

chain_missing {ℓ κ} :
    {A : Type ℓ} {B : Type κ} (o : Option A) (f : A → Option B)
    → is_none o ≡ true
    → (o >>= f) ≡ none
chain_missing none f h = refl
chain_missing (some a) f h = absurd (ground arith)

chain_refuses {ℓ κ} :
    {A : Type ℓ} {B : Type κ} (o : Option A) (f : A → Option B)
    → ((a : A) → f a ≡ none)
    → (o >>= f) ≡ none
chain_refuses none f h = refl
chain_refuses (some a) f h = h a

module _ {W : Type 0} ⦃d : Double W⦄ where
  -- Help, the version, a test backwards, and a bandwidth that is no number.
  abbrev pub is_refused : Library W → Opt → Text → Bool
  is_refused lib Opt.help arg = true
  is_refused lib Opt.version arg = true
  is_refused lib Opt.reverse arg = true
  is_refused lib Opt.bandwidth arg = is_none (lib.c.strtoll arg)
  is_refused lib _ arg = false

  abbrev pub any_refused : Library W → List (Opt × Text) → Bool
  any_refused lib [] = false
  any_refused lib ((opt, arg) ∷ rest) = is_refused lib opt arg || any_refused lib rest

  -- Every name has an address.
  abbrev pub Resolves : Library W → Type 0
  Resolves lib =
      (name : Text) (ipv6 : Bool)
      → is_none (set_hostname lib.resolve (lib.string name) zero_address ipv6) ≡ false

  test_multicast-IsDefined :
      (lib : Library W) (name : Text) (ipv6 : Bool) (s : ThreadSettings W)
      → Resolves lib
      → IsDefined (test_multicast lib name ipv6 s)
  unfolding test_multicast
  test_multicast-IsDefined lib name ipv6 s r =
      chain-IsDefined (set_hostname lib.resolve (lib.string name) zero_address ipv6) _ (r name ipv6)

  client_from-IsDefined :
      (m : ThreadMode) (lib : Library W) (arg : Text) (s : ThreadSettings W)
      → Resolves lib
      → IsDefined (client_from m lib arg s)
  unfolding client_from
  client_from-IsDefined ThreadMode.unknown lib arg s r =
      Returns->>= (λ _. Unit {0}) (λ _. Unit {0}) (test_multicast lib arg (is_flag domain_flag s) s)
        _ (test_multicast-IsDefined lib arg _ s r) (λ t k. tt)
  client_from-IsDefined ThreadMode.client lib arg s r = tt
  client_from-IsDefined ThreadMode.listener lib arg s r = tt
  client_from-IsDefined ThreadMode.server lib arg s r = tt
  client_from-IsDefined ThreadMode.reporter lib arg s r = tt

  bind_to-IsDefined :
      (parts : Option (Text × Option Text)) (lib : Library W) (arg : Text) (s : ThreadSettings W)
      → Resolves lib
      → IsDefined (bind_to parts lib arg s)
  unfolding bind_to
  bind_to-IsDefined none lib arg s r = test_multicast-IsDefined lib arg _ _ r
  bind_to-IsDefined (some (host, none)) lib arg s r = test_multicast-IsDefined lib host _ _ r
  bind_to-IsDefined (some (host, some p)) lib arg s r = test_multicast-IsDefined lib host _ _ r

  host-IsDefined :
      (host : Option Text) (lib : Library W) (s : ThreadSettings W)
      → Resolves lib
      → IsSome host
      → IsDefined (test_name none host lib s)
  unfolding test_name
  host-IsDefined none lib s r h = absurd h
  host-IsDefined (some name) lib s r h = test_multicast-IsDefined lib name true s r

  ipv6_for-IsDefined :
      (m : ThreadMode) (lib : Library W) (s : ThreadSettings W)
      → Resolves lib
      → IsConsistentFor m s.host s.mode s.listen_port s.file_name
      → IsDefined (ipv6_for m lib s)
  unfolding ipv6_for
  ipv6_for-IsDefined ThreadMode.server lib s r h = absurd h
  ipv6_for-IsDefined ThreadMode.client lib s r h = host-IsDefined s.host lib s r h
  ipv6_for-IsDefined ThreadMode.unknown lib s r h = tt
  ipv6_for-IsDefined ThreadMode.listener lib s r h = tt
  ipv6_for-IsDefined ThreadMode.reporter lib s r h = tt

  interpret-IsDefined :
      (lib : Library W) (opt : Opt) (arg : Text) (s : ThreadSettings W)
      → Resolves lib
      → IsConsistent s
      → is_refused lib opt arg ≡ false
      → IsDefined (interpret lib opt arg s)
  unfolding interpret interpret_esoteric option_client option_bind option_ipv6 option_bandwidth
  interpret-IsDefined lib Opt.singleclient arg s r h e = tt
  interpret-IsDefined lib Opt.bandwidth arg s r h e = chain-IsDefined (lib.c.strtoll arg) _ e
  interpret-IsDefined lib Opt.client arg s r h e = client_from-IsDefined s.thread_mode lib arg _ r
  interpret-IsDefined lib Opt.dualtest arg s r h e = tt
  interpret-IsDefined lib Opt.enhancedreports arg s r h e = tt
  interpret-IsDefined lib Opt.format arg s r h e = tt
  interpret-IsDefined lib Opt.help arg s r h e = absurd (ground arith)
  interpret-IsDefined lib Opt.interval arg s r h e = tt
  interpret-IsDefined lib Opt.key arg s r h e = tt
  interpret-IsDefined lib Opt.len arg s r h e = tt
  interpret-IsDefined lib Opt.print_mss arg s r h e = tt
  interpret-IsDefined lib Opt.num arg s r h e = tt
  interpret-IsDefined lib Opt.output arg s r h e = tt
  interpret-IsDefined lib Opt.port arg s r h e = tt
  interpret-IsDefined lib Opt.tradeoff arg s r h e = tt
  interpret-IsDefined lib Opt.server arg s r h e = tt
  interpret-IsDefined lib Opt.time arg s r h e = tt
  interpret-IsDefined lib Opt.udp arg s r h e = tt
  interpret-IsDefined lib Opt.version arg s r h e = absurd (ground arith)
  interpret-IsDefined lib Opt.window arg s r h e = tt
  interpret-IsDefined lib Opt.reportexclude arg s r h e = tt
  interpret-IsDefined lib Opt.reportstyle arg s r h e = tt
  interpret-IsDefined lib Opt.realtime arg s r h e = tt
  interpret-IsDefined lib Opt.bind arg s r h e = bind_to-IsDefined _ lib arg s r
  interpret-IsDefined lib Opt.compatibility arg s r h e = tt
  interpret-IsDefined lib Opt.daemon arg s r h e = tt
  interpret-IsDefined lib Opt.file_input arg s r h e = tt
  interpret-IsDefined lib Opt.stdin_input arg s r h e = tt
  interpret-IsDefined lib Opt.mss arg s r h e = tt
  interpret-IsDefined lib Opt.nodelay arg s r h e = tt
  interpret-IsDefined lib Opt.listenport arg s r h e = tt
  interpret-IsDefined lib Opt.parallel arg s r h e = tt
  interpret-IsDefined lib Opt.reverse arg s r h e = absurd (ground arith)
  interpret-IsDefined lib Opt.tos arg s r h e = tt
  interpret-IsDefined lib Opt.ttl arg s r h e = tt
  interpret-IsDefined lib Opt.single_udp arg s r h e = tt
  interpret-IsDefined lib Opt.ipv6_domain arg s r h e =
      ipv6_for-IsDefined s.thread_mode lib (set_flag domain_flag s) r h
  interpret-IsDefined lib Opt.suggest_win_size arg s r h e = tt
  interpret-IsDefined lib Opt.peer_detect arg s r h e = tt
  interpret-IsDefined lib Opt.linux_congestion arg s r h e = tt
  interpret-IsDefined lib Opt.udp_counters_64bit arg s r h e = tt
  interpret-IsDefined lib Opt.other arg s r h e = tt

  interpret_refuses :
      (lib : Library W) (opt : Opt) (arg : Text) (s : ThreadSettings W)
      → is_refused lib opt arg ≡ true
      → interpret lib opt arg s ≡ none
  unfolding interpret interpret_esoteric option_bandwidth
  interpret_refuses lib Opt.singleclient arg s e = absurd (ground arith)
  interpret_refuses lib Opt.bandwidth arg s e = chain_missing (lib.c.strtoll arg) _ e
  interpret_refuses lib Opt.client arg s e = absurd (ground arith)
  interpret_refuses lib Opt.dualtest arg s e = absurd (ground arith)
  interpret_refuses lib Opt.enhancedreports arg s e = absurd (ground arith)
  interpret_refuses lib Opt.format arg s e = absurd (ground arith)
  interpret_refuses lib Opt.help arg s e = refl
  interpret_refuses lib Opt.interval arg s e = absurd (ground arith)
  interpret_refuses lib Opt.key arg s e = absurd (ground arith)
  interpret_refuses lib Opt.len arg s e = absurd (ground arith)
  interpret_refuses lib Opt.print_mss arg s e = absurd (ground arith)
  interpret_refuses lib Opt.num arg s e = absurd (ground arith)
  interpret_refuses lib Opt.output arg s e = absurd (ground arith)
  interpret_refuses lib Opt.port arg s e = absurd (ground arith)
  interpret_refuses lib Opt.tradeoff arg s e = absurd (ground arith)
  interpret_refuses lib Opt.server arg s e = absurd (ground arith)
  interpret_refuses lib Opt.time arg s e = absurd (ground arith)
  interpret_refuses lib Opt.udp arg s e = absurd (ground arith)
  interpret_refuses lib Opt.version arg s e = refl
  interpret_refuses lib Opt.window arg s e = absurd (ground arith)
  interpret_refuses lib Opt.reportexclude arg s e = absurd (ground arith)
  interpret_refuses lib Opt.reportstyle arg s e = absurd (ground arith)
  interpret_refuses lib Opt.realtime arg s e = absurd (ground arith)
  interpret_refuses lib Opt.bind arg s e = absurd (ground arith)
  interpret_refuses lib Opt.compatibility arg s e = absurd (ground arith)
  interpret_refuses lib Opt.daemon arg s e = absurd (ground arith)
  interpret_refuses lib Opt.file_input arg s e = absurd (ground arith)
  interpret_refuses lib Opt.stdin_input arg s e = absurd (ground arith)
  interpret_refuses lib Opt.mss arg s e = absurd (ground arith)
  interpret_refuses lib Opt.nodelay arg s e = absurd (ground arith)
  interpret_refuses lib Opt.listenport arg s e = absurd (ground arith)
  interpret_refuses lib Opt.parallel arg s e = absurd (ground arith)
  interpret_refuses lib Opt.reverse arg s e = refl
  interpret_refuses lib Opt.tos arg s e = absurd (ground arith)
  interpret_refuses lib Opt.ttl arg s e = absurd (ground arith)
  interpret_refuses lib Opt.single_udp arg s e = absurd (ground arith)
  interpret_refuses lib Opt.ipv6_domain arg s e = absurd (ground arith)
  interpret_refuses lib Opt.suggest_win_size arg s e = absurd (ground arith)
  interpret_refuses lib Opt.peer_detect arg s e = absurd (ground arith)
  interpret_refuses lib Opt.linux_congestion arg s e = absurd (ground arith)
  interpret_refuses lib Opt.udp_counters_64bit arg s e = absurd (ground arith)
  interpret_refuses lib Opt.other arg s e = absurd (ground arith)

  interpret_all_refuses :
      (lib : Library W) (opts : List (Opt × Text)) (s : ThreadSettings W)
      → any_refused lib opts ≡ true
      → interpret_all lib opts s ≡ none
  unfolding interpret_all
  interpret_all_refuses lib [] s e = absurd (ground arith)
  interpret_all_refuses lib ((opt, arg) ∷ rest) s e = elim (Bool-cases (is_refused lib opt arg)) [
    | inl r ↦
        chain_missing (interpret lib opt arg s) _ (ap is_none (interpret_refuses lib opt arg s r))
    | inr r ↦
        chain_refuses (interpret lib opt arg s) (interpret_all lib rest)
          (λ t. interpret_all_refuses lib rest t (ground arith))
  ]

  interpret_all-IsDefined :
      (lib : Library W) (opts : List (Opt × Text)) (s : ThreadSettings W)
      → Resolves lib
      → IsConsistent s
      → any_refused lib opts ≡ false
      → IsDefined (interpret_all lib opts s)
  unfolding interpret_all
  interpret_all-IsDefined lib [] s r h e = tt
  interpret_all-IsDefined lib ((opt, arg) ∷ rest) s r h e =
      Returns->>= (λ t. Unit × IsConsistent t) (λ _. Unit {0}) (interpret lib opt arg s)
        (interpret_all lib rest)
        (Returns-and (λ _. Unit {0}) IsConsistent (interpret lib opt arg s)
          (interpret-IsDefined lib opt arg s r h (ground arith))
          (interpret-IsConsistent lib opt arg s h))
        (λ t k. interpret_all-IsDefined lib rest t r k.1 (ground arith))

  -- If every name has an address, then from consistent settings the options end the program exactly if one of them
  -- asks for help, for the version or for a test backwards, or gives a bandwidth that is no number.
  pub interpret_all-none :
      (lib : Library W) (opts : List (Opt × Text)) (s : ThreadSettings W)
      → Resolves lib
      → IsConsistent s
      → (interpret_all lib opts s ≡ none) ↔ (any_refused lib opts ≡ true)
  interpret_all-none lib opts s r h = (
    λ e. elim (Bool-cases (any_refused lib opts)) [
      | inl b ↦ b
      | inr b ↦ absurd (subst IsDefined e (interpret_all-IsDefined lib opts s r h b))
    ],
    interpret_all_refuses lib opts s,
  )
