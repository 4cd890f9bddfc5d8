-- ===== src/Thread.antt =====
-- iperf2-code/compat/Thread.c: the threads that are started before and after another, and the count of those that
-- `thread_joinall` waits for. Each operation changes the counts under one lock, so it is one step.
pub mod Count
use flexfcapf.Prelude.{
  ℕ, ◌+◌, ◌-◌, Bool, true, false, List, [], ◌∷◌, ◌++◌, ◌==◌, if◌then◌else◌, ◌&&◌, not, ltb,
}
use flexfcapf.Prelude.Int.{ℤ, pos, ◌+ℤ◌, ◌-ℤ◌, ltb_ℤ}
use flexfcapf.Settings.{ThreadMode}

-- `thread_sNum` and `nonterminating_num`
pub record Counts : Type 0 where
  pub running : ℤ
  pub nonterm : ℕ

-- The settings of a thread that thread_start reads: a number for the object, whether `mTID` is set, `runNow`
-- and `runNext`.
pub data Settings : Type 0 where
  null : Settings
  thread : (name : ℕ) → (has_id : Bool) → (now : Settings) → (next : Settings) → Settings

-- The objects as they are after a call, the counts, and the threads that were created, in their order.
pub record Started : Type 0 where
  pub object : Settings
  pub counts : Counts
  pub created : List ℕ

abbrev pub inc : Counts → Counts
inc c = record c { running = c.running +ℤ pos 1 }

abbrev pub dec : Counts → Counts
dec c = record c { running = c.running -ℤ pos 1 }

-- `thread_start`; `creates` says for which objects `pthread_create` succeeds. Its recursive call does nothing
-- for a null `runNow`.
unfoldable pub thread_start : (ℕ → Bool) → Settings → Counts → Started
thread_start creates null c = record { object = null; counts = c; created = [] }
thread_start creates (thread name has_id now next) c =
    let before = thread_start creates now c in
    if has_id
    then record { object = thread name has_id now next; counts = c; created = [] }
    else (if creates name
        then record {
          object = thread name true before.object next;
          counts = inc before.counts;
          created = before.created ++ (name ∷ []);
        }
        else record {
          object = thread name false before.object next;
          counts = dec (inc before.counts);
          created = before.created;
        })

-- `thread_setignore`, and the end of `thread_stop` and of `thread_run_wrapper`
unfoldable pub thread_setignore : Counts → Counts
thread_setignore c = dec c

-- `thread_unsetignore`
unfoldable pub thread_unsetignore : Counts → Counts
thread_unsetignore c = inc c

-- `thread_register_nonterm`
unfoldable pub thread_register_nonterm : Counts → Counts
thread_register_nonterm c = record c { nonterm = c.nonterm + 1 }

-- `thread_unregister_nonterm`
unfoldable pub thread_unregister_nonterm : Counts → Counts
thread_unregister_nonterm c =
    if c.nonterm == 0
    then record c { running = c.running +ℤ pos 1 }
    else record c { nonterm = c.nonterm - 1 }

-- `thread_release_nonterm`: the counts, and whether it says that it waits for server threads.
unfoldable pub thread_release_nonterm : Bool → Counts → Counts × Bool
thread_release_nonterm interrupt c =
    let running = c.running -ℤ pos c.nonterm in
    (
      record { running = running; nonterm = 0 },
      ltb_ℤ (pos 1) running && ltb 0 c.nonterm && interrupt,
    )

-- `thread_stop`, from the thread itself or from another: `mTID` is set, or it does nothing.
unfoldable pub thread_stop : Bool → Counts → Counts
thread_stop has_id c = if has_id then dec c else c

-- The part of `thread_run_wrapper` before the thread's own work, and whether it goes on: a thread of
-- another mode ends here by `thread_stop`, as its `mTID` is set.
unfoldable pub wrapper_begin : ThreadMode → Counts → Counts × Bool
unfolding thread_register_nonterm thread_stop
wrapper_begin ThreadMode.listener c = (thread_register_nonterm c, true)
wrapper_begin ThreadMode.unknown c = (thread_stop true c, false)
wrapper_begin _ c = (c, true)

-- The part after it, with the start of `runNext`.
unfoldable pub wrapper_end : (ℕ → Bool) → ThreadMode → Settings → Counts → Started
unfolding thread_unregister_nonterm thread_start
wrapper_end creates ThreadMode.listener next c =
    thread_start creates next (dec (thread_unregister_nonterm c))
wrapper_end creates _ next c = thread_start creates next (dec c)

-- The condition on which `thread_joinall` waits.
abbrev pub joinall_waits : Counts → Bool
joinall_waits c = ltb_ℤ (pos 0) c.running
