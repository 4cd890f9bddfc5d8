-- ===== src/Tests/Rings.antt =====
-- The ring with three slots.
use flexfcapf.Prelude.{ℕ, ◌++◌, ◌≡◌, ◌<◌, refl, Bool, List, [], ◌∷◌, ◌==◌, arith, replicate, inr}
use flexfcapf.Reporter.Ring.{
  at, Thread, the_agent, the_reporter, init, agent_move, reporter_move, step, run,
}
use flexfcapf.Reporter.Ring.Window.{pending}
use flexfcapf.Reporter.Ring.Safety.{run_in_order, StoreIsSafe, run-StoreIsSafe, run_waits_for_work}

abbrev is_zero : ℕ → Bool
is_zero n = n == 0

abbrev empty_slot : ℕ → ℕ
empty_slot n = 99

-- The agent reports a packet, the reporter takes it, and then they do so again with the last one.
abbrev two_turns : List Thread
two_turns =
    replicate 4 the_agent
    ++ (replicate 6 the_reporter ++ (replicate 4 the_agent ++ replicate 5 the_reporter))

run_in_order_example :
    (queue : List ℕ) × ((run 3 is_zero two_turns (init 3 is_zero empty_slot (7 ∷ 0 ∷ []))).handled
        ++ queue
      ≡ 7 ∷ 0 ∷ [])
run_in_order_example =
    run_in_order 3 is_zero empty_slot (7 ∷ 0 ∷ []) (omega arith) (refl, refl) two_turns

run-StoreIsSafe_example :
    StoreIsSafe 3
      (run 3 is_zero (the_agent ∷ the_agent ∷ []) (init 3 is_zero empty_slot (7 ∷ 0 ∷ [])))
      7
      2
unfolding init agent_move reporter_move step run
run-StoreIsSafe_example =
    run-StoreIsSafe 3 is_zero empty_slot (7 ∷ 0 ∷ []) (omega arith) (refl, refl)
      (the_agent ∷ the_agent ∷ []) 7 (at 2) 2 refl refl

run_waits_for_work_example :
    0
    < pending 3 2
        (run 3 is_zero (replicate 6 the_agent) (init 3 is_zero empty_slot (7 ∷ 0 ∷ []))).agentindex
unfolding init agent_move reporter_move step run
run_waits_for_work_example =
    run_waits_for_work 3 is_zero empty_slot (7 ∷ 0 ∷ []) (omega arith) (refl, refl)
      (replicate 6 the_agent) 2 refl (inr (refl, refl))
