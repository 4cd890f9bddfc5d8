-- ===== src/Launch.antt =====
-- `client_init` of iperf2-code/src/Launch.cpp and `main` of iperf2-code/src/main.cpp: the threads that the program starts.
-- Signals, locks and the detachment of a daemon from its terminal are left out.
pub mod Many
pub mod Started
use flexfcapf.Prelude.{
  ℕ, ◌+◌, ◌-◌, Bool, true, false, not, ◌&&◌, ◌||◌, Option, none, some, List, [], ◌∷◌, ◌++◌,
  if◌then◌else◌, ◌>>=◌, replicate,
}
use Prim.Native.String.{String}
use flexfcapf.Prelude.Int.{ℤ, pos_part}
use flexfcapf.Prelude.Double.{Double}
use flexfcapf.Settings.{ThreadMode, is_client, is_listener}
use flexfcapf.Numbers.{Text}
use flexfcapf.Options.{
  ThreadSettings, is_flag, set_flag, unset_flag, copy, initialize, daemon_flag, reportsettings_flag,
}
use flexfcapf.Options.Texts.{Opt}
use flexfcapf.Options.Interpret.{Library, parse_environment, parse_command_line}
use flexfcapf.Options.Generate.{generate_listener_settings}
use flexfcapf.Thread

abbrev pub one_or_none : {A : Type 0} → Option A → List A
one_or_none none = []
one_or_none (some a) = a ∷ []

-- The settings each of which is the `runNow` of the one before, as `thread_start` reads them.
unfoldable pub chain : {W : Type 0} → ℕ → List (ThreadSettings W) → Thread.Settings
chain name [] = Thread.Settings.null
chain name (s ∷ rest) =
    Thread.Settings.thread name false (chain (name + 1) rest) Thread.Settings.null

module _ {W : Type 0} where
  -- `client_init`: the client that is passed in, which is to report the settings, the listener for the way back and
  -- the other clients.
  unfoldable pub client_init : ThreadSettings W → List (ThreadSettings W)
  client_init clients =
      let first = set_flag reportsettings_flag clients in
      let next = unset_flag reportsettings_flag (copy first) in
      first
      ∷ (one_or_none (generate_listener_settings first)
          ++ replicate (pos_part first.threads - 1) next)

  -- `main` from the test of the mode on: the reporter and what it starts, or nothing if the program ends before.
  unfoldable pub main_threads : ThreadSettings W → Option (List (ThreadSettings W))
  unfolding client_init
  main_threads settings =
      if is_client settings.thread_mode || is_listener settings.thread_mode
      then (if is_flag daemon_flag settings && not (is_listener settings.thread_mode)
          then none
          else let started =
              if is_client settings.thread_mode then client_init settings else settings ∷ [] in
            some (record (copy settings) { thread_mode = ThreadMode.reporter } ∷ started))
      else none

module _ {W : Type 0} ⦃d : Double W⦄ where
  -- `main` up to there.
  unfoldable pub main_settings :
      Library W
      → (String → Option Text)
      → List (Opt × Text)
      → List (Opt × Text)
      → Option (ThreadSettings W)
  main_settings lib getenv priority opts =
      parse_environment lib getenv initialize >>= parse_command_line lib priority opts
