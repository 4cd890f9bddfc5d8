-- ===== src/Launch/Started.antt =====
-- The threads that iperf2-code/src/main.cpp starts.
use flexfcapf.Prelude.{
  ◌-◌, ◌≡◌, refl, true, not, ◌&&◌, ◌||◌, Option, none, some, List, [], ◌∷◌, if◌then◌else◌,
  replicate, length, max, Ensures, Ensures-mono, if_intro, arith,
}
use Prim.Native.String.{String}
use flexfcapf.Prelude.Int.{pos, pos_part, ◌+ℤ◌}
use flexfcapf.Prelude.Double.{Double}
use flexfcapf.Settings.{ThreadMode, is_client, is_listener}
use flexfcapf.Numbers.{Text}
use flexfcapf.Options.{
  ThreadSettings, is_flag, copy, set_flag, unset_flag, reportsettings_flag, daemon_flag,
}
use flexfcapf.Options.Texts.{Opt}
use flexfcapf.Options.Interpret.{Library}
use flexfcapf.Options.Modes.{IsConsistent, IsSome, parse-IsConsistent}
use flexfcapf.Options.Generate.{generate_listener_settings}
use flexfcapf.Thread
use flexfcapf.Launch.{one_or_none, chain, client_init, main_threads, main_settings}
use flexfcapf.Launch.Many.{
  is_reporter, how_many, comes_back, ClientsHaveHosts, how_many-client_init, none_back, one_back,
  hosts_back, settings_once, comes_back-set, hosts-append, hosts-replicate, runs, is_listener_not,
  host_of,
}

module _ {W : Type 0} where
  -- The threads that are started for settings: one reporter, which starts them all; as many clients as -P says, one of which
  -- reports the settings, and each with a host; and a listener, for a client only for the way back.
  pub record IsLaunched (s : ThreadSettings W) (ts : List (ThreadSettings W)) : Type 0 where
    pub reporters : how_many (λ t. is_reporter t.thread_mode) ts ≡ 1
    pub clients :
        how_many (λ t. is_client t.thread_mode) ts
        ≡ (if is_client s.thread_mode then max 1 (pos_part s.threads) else 0)
    pub listeners :
        how_many (λ t. is_listener t.thread_mode) ts
        ≡ (if is_client s.thread_mode then (if comes_back s then 1 else 0) else 1)
    pub settings :
        how_many (λ t. is_client t.thread_mode && is_flag reportsettings_flag t) ts
        ≡ (if is_client s.thread_mode then 1 else 0)
    pub hosts : ClientsHaveHosts ts
    pub running :
        (c : Thread.Counts)
        → (Thread.thread_start (λ n. true) (chain 0 ts) c).counts.running
          ≡ c.running +ℤ pos (length ts)

  -- What `main` has started, or why it has started nothing.
  abbrev pub Launches : ThreadSettings W → Option (List (ThreadSettings W)) → Type 0
  Launches s none =
      (not (is_client s.thread_mode || is_listener s.thread_mode)
        || is_flag daemon_flag s && not (is_listener s.thread_mode))
      ≡ true
  Launches s (some ts) = IsLaunched s ts

  -- What is started for a client.
  client-IsLaunched :
      (s : ThreadSettings W) (r : ThreadSettings W)
      → is_client s.thread_mode ≡ true
      → IsSome s.host
      → r.thread_mode ≡ ThreadMode.reporter
      → IsLaunched s (r ∷ client_init s)
  unfolding client_init copy
  client-IsLaunched s r m h e =
      let first = set_flag reportsettings_flag s in
      let next = unset_flag reportsettings_flag (copy first) in
      let reporter = is_reporter s.thread_mode in
      record {
        reporters = ground (
          arith,
          m,
          e,
          how_many-client_init (λ t. is_reporter t.thread_mode) s,
          none_back is_reporter first refl,
        );
        clients = ground (
          arith,
          m,
          e,
          how_many-client_init (λ t. is_client t.thread_mode) s,
          none_back is_client first refl,
        );
        listeners = ground (
          arith,
          m,
          e,
          how_many-client_init (λ t. is_listener t.thread_mode) s,
          one_back first,
          comes_back-set s,
        );
        settings = ground (arith, e, settings_once s m);
        hosts = (
          λ q. absurd (ground arith),
          (
            λ q. h,
            hosts-append (one_or_none (generate_listener_settings first))
                (replicate (pos_part s.threads - 1) next) (hosts_back first)
                (hosts-replicate (pos_part s.threads - 1) next h),
          ),
        );
        running = runs (r ∷ client_init s);
      }

  listener-IsLaunched :
      (s : ThreadSettings W) (r : ThreadSettings W)
      → s.thread_mode ≡ ThreadMode.listener
      → r.thread_mode ≡ ThreadMode.reporter
      → IsLaunched s (r ∷ s ∷ [])
  listener-IsLaunched s r m e = record {
    reporters = rw (m, e);
    clients = rw (m, e);
    listeners = rw (m, e);
    settings = rw (m, e);
    hosts = (λ q. absurd (ground arith), (λ q. absurd (ground arith), tt));
    running = runs (r ∷ s ∷ []);
  }

module _ {W : Type 0} ⦃d : Double W⦄ where
  main_threads-IsLaunched : (s : ThreadSettings W) → IsConsistent s → Launches s (main_threads s)
  unfolding main_threads copy
  main_threads-IsLaunched s c =
      if_intro (Launches s) (is_client s.thread_mode || is_listener s.thread_mode)
        (λ known.
          if_intro (Launches s) (is_flag daemon_flag s && not (is_listener s.thread_mode))
            (λ q. ground arith)
            (λ q.
              if_intro
                (λ ts. IsLaunched s (record (copy s) { thread_mode = ThreadMode.reporter } ∷ ts))
                (is_client s.thread_mode)
                (λ m.
                  client-IsLaunched s _ m
                    (host_of s.thread_mode s.host s.mode s.listen_port s.file_name c m) refl)
                (λ n. listener-IsLaunched s _ (is_listener_not s.thread_mode n known) refl)))
        (λ q. ground arith)

  -- Whatever the environment and the command line say, if the options do not end the program then it starts threads or none, and the threads are: one reporter; for a
  -- client as many clients as -P says and at least one, one of which alone reports the settings, each with a host, and a
  -- listener exactly for a test of both ways without compatibility; else one listener and no client. It starts none only if it
  -- is neither a client nor a listener or is a client that is to be a daemon. If every thread can be
  -- created then `thread_start` of the reporter adds all of them to the count of those that are waited for.
  pub main-IsLaunched :
      (lib : Library W) (getenv : String → Option Text) (priority opts : List (Opt × Text))
      → Ensures (λ s. Launches s (main_threads s)) (main_settings lib getenv priority opts)
  unfolding main_settings
  main-IsLaunched lib getenv priority opts =
      Ensures-mono IsConsistent (λ s. Launches s (main_threads s))
        (main_settings lib getenv priority opts) (parse-IsConsistent lib getenv priority opts)
        main_threads-IsLaunched
