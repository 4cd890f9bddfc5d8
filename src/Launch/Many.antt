-- ===== src/Launch/Many.antt =====
-- The threads of one start in iperf2-code/src/Launch.cpp, counted by a test.
use flexfcapf.Prelude.{
  ℕ, zero, suc, ◌+◌, ◌-◌, ◌≡◌, refl, ap, ◌∙◌, Bool, true, false, not, ◌&&◌, ◌||◌, Option, List, [],
  ◌∷◌, ◌++◌, if◌then◌else◌, replicate, length, length-append, if_intro, arith,
}
use flexfcapf.Prelude.Int.{pos, pos_part, ◌+ℤ◌}
use flexfcapf.Prelude.Bits.{has_bit, set_bit, clear_bit}
use flexfcapf.Settings.{ThreadMode, TestMode, is_client, is_listener}
use flexfcapf.Numbers.{Text}
use flexfcapf.Options.{
  ThreadSettings, is_flag, compat_flag, copy, set_flag, unset_flag, reportsettings_flag,
}
use flexfcapf.Options.Modes.{IsConsistentFor, IsSome}
use flexfcapf.Options.Generate.{generate_listener_settings, is_dual_test, is_trade_off}
use flexfcapf.Thread
use flexfcapf.Thread.Count.{thread_start-counts}
use flexfcapf.Launch.{one_or_none, chain, client_init}

abbrev pub is_reporter : ThreadMode → Bool
is_reporter ThreadMode.reporter = true
is_reporter _ = false

report_set : (f : ℕ) → has_bit (set_bit f 13) 13 ≡ true
report_set f = ground arith

report_unset : (f : ℕ) → has_bit (clear_bit f 13) 13 ≡ false
report_unset f = ground arith

compat_kept : (f : ℕ) → has_bit (set_bit f 13) 1 ≡ has_bit f 1
compat_kept f = ground arith

once :
    (c b1 b2 : Bool) (back k : ℕ)
    → c ≡ true
    → b1 ≡ true
    → b2 ≡ false
    → back ≡ 0
    → (if c && b1 then 1 else 0) + (back + (if c && b2 then k else 0)) ≡ 1
once c b1 b2 back k hc h1 h2 hb = ground arith

pub is_listener_not :
    (m : ThreadMode)
    → is_client m ≡ false
    → (is_client m || is_listener m) ≡ true
    → m ≡ ThreadMode.listener
is_listener_not ThreadMode.listener h k = refl
is_listener_not ThreadMode.unknown h k = absurd (ground arith)
is_listener_not ThreadMode.client h k = absurd (ground arith)
is_listener_not ThreadMode.server h k = absurd (ground arith)
is_listener_not ThreadMode.reporter h k = absurd (ground arith)

pub host_of :
    (m : ThreadMode) (host : Option Text) (mode : TestMode) (listen : ℕ) (file : Option Text)
    → IsConsistentFor m host mode listen file
    → is_client m ≡ true
    → IsSome host
host_of ThreadMode.client host mode listen file c h = c
host_of ThreadMode.unknown host mode listen file c h = absurd (ground arith)
host_of ThreadMode.listener host mode listen file c h = absurd (ground arith)
host_of ThreadMode.server host mode listen file c h = absurd c
host_of ThreadMode.reporter host mode listen file c h = absurd c

module _ {W : Type 0} where
  -- How many settings pass a test.
  abbrev pub how_many : (ThreadSettings W → Bool) → List (ThreadSettings W) → ℕ
  how_many test [] = 0
  how_many test (s ∷ rest) = (if test s then 1 else 0) + how_many test rest

  -- A test of both ways needs a listener for the way back.
  abbrev pub comes_back : ThreadSettings W → Bool
  comes_back s = not (is_flag compat_flag s) && (is_dual_test s.mode || is_trade_off s.mode)

  abbrev pub ClientsHaveHosts : List (ThreadSettings W) → Type 0
  ClientsHaveHosts [] = Unit
  ClientsHaveHosts (s ∷ rest) =
      (is_client s.thread_mode ≡ true → IsSome s.host) × ClientsHaveHosts rest

  how_many-append :
      (test : ThreadSettings W → Bool) (xs ys : List (ThreadSettings W))
      → how_many test (xs ++ ys) ≡ how_many test xs + how_many test ys
  how_many-append test [] ys = omega arith
  how_many-append test (x ∷ xs) ys = omega (arith, how_many-append test xs ys)

  how_many-replicate :
      (test : ThreadSettings W → Bool) (n : ℕ) (t : ThreadSettings W)
      → how_many test (replicate n t) ≡ (if test t then n else 0)
  how_many-replicate test zero t = ground arith
  how_many-replicate test (suc n) t = ground (arith, how_many-replicate test n t)

  pub hosts-append :
      (xs ys : List (ThreadSettings W))
      → ClientsHaveHosts xs
      → ClientsHaveHosts ys
      → ClientsHaveHosts (xs ++ ys)
  hosts-append [] ys a b = b
  hosts-append (x ∷ xs) ys a b = (a.0, hosts-append xs ys a.1 b)

  pub hosts-replicate :
      (n : ℕ) (t : ThreadSettings W) → IsSome t.host → ClientsHaveHosts (replicate n t)
  hosts-replicate zero t h = tt
  hosts-replicate (suc n) t h = (λ e. h, hosts-replicate n t h)

  -- Every thread of a chain is created if each of them can be.
  length-created :
      (n : ℕ) (ts : List (ThreadSettings W)) (c : Thread.Counts)
      → length (Thread.thread_start (λ m. true) (chain n ts) c).created ≡ length ts
  unfolding Thread.thread_start chain
  length-created n [] c = refl
  length-created n (t ∷ ts) c = omega (
    arith,
    length-append (Thread.thread_start (λ m. true) (chain (n + 1) ts) c).created (n ∷ []),
    length-created (n + 1) ts c,
  )

  pub runs :
      (ts : List (ThreadSettings W)) (c : Thread.Counts)
      → (Thread.thread_start (λ n. true) (chain 0 ts) c).counts.running
        ≡ c.running +ℤ pos (length ts)
  runs ts c =
      (thread_start-counts (λ n. true) (chain 0 ts) c).0
      ∙ ap (λ k. c.running +ℤ pos k) (length-created 0 ts c)

  -- What `client_init` starts, by a test.
  pub how_many-client_init :
      (test : ThreadSettings W → Bool) (s : ThreadSettings W)
      → let first = set_flag reportsettings_flag s in
        let next = unset_flag reportsettings_flag (copy first) in
        how_many test (client_init s)
        ≡ (if test first then 1 else 0)
          + (how_many test (one_or_none (generate_listener_settings first))
              + (if test next then pos_part s.threads - 1 else 0))
  unfolding client_init copy
  how_many-client_init test s =
      let first = set_flag reportsettings_flag s in
      let next = unset_flag reportsettings_flag (copy first) in
      let n = pos_part s.threads - 1 in
      let back = one_or_none (generate_listener_settings first) in
      omega (arith, how_many-append test back (replicate n next), how_many-replicate test n next)

  -- The listener is no client, and it is there for a test of both ways.
  pub none_back :
      (test : ThreadMode → Bool) (s : ThreadSettings W)
      → test ThreadMode.listener ≡ false
      → how_many (λ t. test t.thread_mode) (one_or_none (generate_listener_settings s)) ≡ 0
  unfolding generate_listener_settings
  none_back test s h =
      if_intro (λ o. how_many (λ t. test t.thread_mode) (one_or_none o) ≡ 0) (comes_back s)
        (λ q. ground arith) (λ q. refl)

  pub one_back :
      (s : ThreadSettings W)
      → how_many (λ t. is_listener t.thread_mode) (one_or_none (generate_listener_settings s))
        ≡ (if comes_back s then 1 else 0)
  unfolding generate_listener_settings
  one_back s =
      if_intro
        (λ o.
          how_many (λ t. is_listener t.thread_mode) (one_or_none o)
          ≡ (if comes_back s then 1 else 0))
        (comes_back s) (λ q. ground arith) (λ q. ground arith)

  pub hosts_back :
      (s : ThreadSettings W) → ClientsHaveHosts (one_or_none (generate_listener_settings s))
  unfolding generate_listener_settings
  hosts_back s =
      if_intro (λ o. ClientsHaveHosts (one_or_none o)) (comes_back s)
        (λ q. (λ e. absurd (ground arith), tt)) (λ q. tt)

  no_settings_back :
      (s : ThreadSettings W)
      → how_many
          (λ t. is_client t.thread_mode && is_flag reportsettings_flag t)
          (one_or_none (generate_listener_settings s))
        ≡ 0
  unfolding generate_listener_settings
  no_settings_back s =
      if_intro
        (λ o.
          how_many (λ t. is_client t.thread_mode && is_flag reportsettings_flag t) (one_or_none o)
          ≡ 0)
        (comes_back s) (λ q. refl) (λ q. refl)

  pub comes_back-set :
      (s : ThreadSettings W) → comes_back (set_flag reportsettings_flag s) ≡ comes_back s
  comes_back-set s =
      ap (λ b. not b && (is_dual_test s.mode || is_trade_off s.mode)) (compat_kept s.flags)

  pub settings_once :
      (s : ThreadSettings W)
      → is_client s.thread_mode ≡ true
      → how_many (λ t. is_client t.thread_mode && is_flag reportsettings_flag t) (client_init s) ≡ 1
  unfolding copy
  settings_once s m =
      let first = set_flag reportsettings_flag s in
      how_many-client_init (λ t. is_client t.thread_mode && is_flag reportsettings_flag t) s
      ∙ once (is_client s.thread_mode) _ _ _ _ m (report_set s.flags) (report_unset first.flags)
          (no_settings_back first)
