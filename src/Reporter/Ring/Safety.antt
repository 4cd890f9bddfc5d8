-- ===== src/Reporter/Ring/Safety.antt =====
-- What the ring promises whatever the schedule of its two threads.
use mathlib.Core.List.{append-nil}
use flexfcapf.Prelude.{
  ℕ, ◌<◌, ◌≡◌, ◌≢◌, refl, ◌∙◌, subst, Bool, true, ◌⊎◌, inl, inr, List, [], ◌∷◌, ◌++◌, arith,
}
use flexfcapf.Reporter.Ring.{
  Index, at, minus_one, AgentPc, ready, entered, wrapping, lapping, copied, closing, ended,
  ReporterPc, Ring, Thread, the_agent, the_reporter, is_at, is_lapped, agent_move, step, init, run,
  update,
}
use flexfcapf.Reporter.Ring.Window.{pending, window, pending-start, window-update}
use flexfcapf.Reporter.Ring.Order.{Closes, Inv, Live, IsDone, AgentInv, rest}
use flexfcapf.Reporter.Ring.Writer.{agent-Live, ring}
use flexfcapf.Reporter.Ring.Reader.{reporter-Inv}

module _ {P : Type 0} (size : ℕ) (last : P → Bool) where
  abbrev pub Invariant : List P → Ring P → Type 0
  Invariant all s = Inv size all last s s.reporterindex

  reporterindex-agent_move :
      (pc : AgentPc) (todo : List P) (s : Ring P)
      → (agent_move size last pc todo s).reporterindex ≡ s.reporterindex
  unfolding agent_move
  reporterindex-agent_move ready [] s = ground arith
  reporterindex-agent_move ready (p ∷ ps) s = refl
  reporterindex-agent_move (entered i) todo s = refl
  reporterindex-agent_move (wrapping i) todo s = ground arith
  reporterindex-agent_move (lapping i) [] s = refl
  reporterindex-agent_move (lapping i) (p ∷ ps) s = ground arith
  reporterindex-agent_move copied [] s = refl
  reporterindex-agent_move copied (p ∷ ps) s = refl
  reporterindex-agent_move closing todo s = refl
  reporterindex-agent_move ended todo s = refl

  -- The agent leaves a ring alone whose last packet was handled.
  agent-IsDone :
      (all : List P) (pc : AgentPc) (todo : List P) (s : Ring P)
      → todo ≡ []
      → IsDone size all s
      → IsDone size all (agent_move size last pc todo s)
  unfolding agent_move
  agent-IsDone all ready [] s e d = ground arith
  agent-IsDone all (entered i) todo s e d = d
  agent-IsDone all (wrapping i) todo s e d = ground arith
  agent-IsDone all (lapping i) [] s e d = d
  agent-IsDone all copied [] s e d = d
  agent-IsDone all closing todo s e d = d
  agent-IsDone all ended todo s e d = d
  agent-IsDone all _ (p ∷ ps) s e d = cc

  agent-Inv :
      (all : List P) (pc : AgentPc) (todo : List P) (rp : ReporterPc) (i : Index) (a : ℕ)
      (slot : ℕ → P) (handled : List P)
      → Inv size all last (ring pc todo rp i a slot handled) i
      → Inv size all last (agent_move size last pc todo (ring pc todo rp i a slot handled)) i
  agent-Inv all pc todo rp (at r) a slot handled v =
      agent-Live size last all pc todo rp r a slot handled v
  agent-Inv all pc todo rp minus_one a slot handled v = agent-IsDone all pc todo _ v.0 v

  pub step-Invariant :
      (all : List P) (t : Thread) (s : Ring P)
      → Invariant all s
      → Invariant all (step size last t s)
  unfolding step
  step-Invariant all the_agent s v =
      rw (reporterindex-agent_move s.agent s.todo s)
        (agent-Inv all s.agent s.todo s.reporter s.reporterindex s.agentindex s.slot s.handled v)
  step-Invariant all the_reporter s v =
      reporter-Inv size last all s.agent s.todo s.reporter s.reporterindex s.agentindex s.slot
        s.handled v

  pub run-Invariant :
      (all : List P) (ts : List Thread) (s : Ring P)
      → Invariant all s
      → Invariant all (run size last ts s)
  unfolding run
  run-Invariant all [] s v = v
  run-Invariant all (t ∷ ts) s v =
      run-Invariant all ts (step size last t s) (step-Invariant all t s v)

  pub init-Invariant :
      (slot : ℕ → P) (all : List P)
      → 2 < size
      → Closes last all
      → Invariant all (init size last slot all)
  unfolding init
  init-Invariant slot all big c = record {
    r_in = omega arith;
    a_in = omega arith;
    apart = omega arith;
    agent_inv = tt;
    reporter_inv = tt;
    kept = rw (pending-start size big);
    closes = rw (pending-start size big) c;
    finished = tt;
  }

  module _ (slot : ℕ → P) (all : List P) (big : 2 < size) (c : Closes last all) where
    reached : (ts : List Thread) → Invariant all (run size last ts (init size last slot all))
    reached ts = run-Invariant all ts (init size last slot all) (init-Invariant slot all big c)

-- The packets that are handled when the reporter stands at any slot, or has finished.
handled-Inv :
    {P : Type 0} (size : ℕ) (last : P → Bool) (all : List P) (s : Ring P) (i : Index)
    → Inv size all last s i
    → (queue : List P) × (s.handled ++ queue ≡ all)
handled-Inv size last all s (at r) v = (rest size s r, v.kept)
handled-Inv size last all s minus_one v = ([], append-nil s.handled ∙ v.1)

-- In a ring of more than two slots, an agent that reports the packets `all`, of which the last one
-- alone closes the report: after any schedule of the agent's and the reporter's steps, what the
-- reporter has handled is a first part of `all`. No packet is lost, repeated or overtaken.
pub run_in_order :
    {P : Type 0} (size : ℕ) (last : P → Bool) (slot : ℕ → P) (all : List P)
    → 2 < size
    → Closes last all
    → (ts : List Thread)
    → (queue : List P) × ((run size last ts (init size last slot all)).handled ++ queue ≡ all)
run_in_order size last slot all big c ts =
    handled-Inv size last all _ _ (reached size last slot all big c ts)

IsDone-Inv :
    {P : Type 0} (size : ℕ) (last : P → Bool) (all : List P) (s : Ring P) (i : Index)
    → i ≡ minus_one
    → Inv size all last s i
    → IsDone size all s
IsDone-Inv size last all s (at r) e v = cc
IsDone-Inv size last all s minus_one e v = v

-- In a ring of more than two slots, with an agent whose last packet alone closes the report, after any
-- schedule: once `reporterindex` is -1, which `GetReport` and `EndReport` wait for,
-- the agent has nothing left to report and the reporter has handled exactly the packets `all`.
pub run_complete :
    {P : Type 0} (size : ℕ) (last : P → Bool) (slot : ℕ → P) (all : List P)
    → 2 < size
    → Closes last all
    → (ts : List Thread) → (run size last ts (init size last slot all)).reporterindex ≡ minus_one
    → ((run size last ts (init size last slot all)).todo ≡ [])
      × ((run size last ts (init size last slot all)).handled ≡ all)
run_complete size last slot all big c ts e =
    IsDone-Inv size last all _ _ e (reached size last slot all big c ts)

waits-Live :
    {P : Type 0} (size : ℕ) (big : 2 < size) (last : P → Bool) (all : List P) (s : Ring P) (r : ℕ)
    → Live size all last s r
    → ((s.agent ≡ wrapping (at r)) × (is_at (at r) 0 ≡ true))
      ⊎ ((s.agent ≡ lapping (at r)) × (is_lapped (at r) s.agentindex ≡ true))
    → 0 < pending size r s.agentindex
waits-Live size big last all s r v (inl (ea, e)) =
    let inv = subst (λ pc. AgentInv size pc s.slot s.todo r s.agentindex) ea v.agent_inv in
    let end : s.agentindex ≡ size = inv.1 in ground arith
waits-Live size big last all s r v (inr (ea, e)) =
    let inv = subst (λ pc. AgentInv size pc s.slot s.todo r s.agentindex) ea v.agent_inv in
    let within : s.agentindex < size = inv.1 in ground arith

-- What a store of `p` in the slot `agentindex` may touch, with `r` taken last.
pub record StoreIsSafe {P : Type 0} (size : ℕ) (s : Ring P) (p : P) (r : ℕ) : Type 0 where
  pub in_bounds : s.agentindex < size
  pub taken_in_bounds : r < size
  pub apart : r ≢ s.agentindex
  pub queue_kept :
      window size (update s.slot s.agentindex p) r (pending size r s.agentindex)
      ≡ window size s.slot r (pending size r s.agentindex)

store-Live :
    {P : Type 0} (size : ℕ) (last : P → Bool) (all : List P) (s : Ring P) (p : P) (i : Index)
    (r : ℕ)
    → AgentInv size (lapping i) s.slot s.todo r s.agentindex
    → Live size all last s r
    → StoreIsSafe size s p r
store-Live size last all s p i r inv v = record {
  in_bounds = inv.1;
  taken_in_bounds = v.r_in;
  apart = v.apart;
  queue_kept =
      window-update size s.slot p r s.agentindex (pending size r s.agentindex) v.r_in inv.1
        (ground arith) (λ _. v.apart);
}

-- In a ring of more than two slots, with an agent whose last packet alone closes the report, after any
-- schedule: when the agent stands before its store (`memcpy`) and the reporter has
-- taken slot `r` last: the store is within the slots, it does not touch slot `r`, which the reporter
-- may still be reading, and it leaves every record that waits as it is.
pub run-StoreIsSafe :
    {P : Type 0} (size : ℕ) (last : P → Bool) (slot : ℕ → P) (all : List P)
    → 2 < size
    → Closes last all
    → (ts : List Thread) (p : P) (i : Index) (r : ℕ)
    → (run size last ts (init size last slot all)).agent ≡ lapping i
    → (run size last ts (init size last slot all)).reporterindex ≡ at r
    → StoreIsSafe size (run size last ts (init size last slot all)) p r
run-StoreIsSafe size last slot all big c ts p i r ea er =
    let s = run size last ts (init size last slot all) in
    let v : Live size all last s r =
      subst (λ j. Inv size all last s j) er (reached size last slot all big c ts) in
    store-Live size last all s p i r
      (subst (λ pc. AgentInv size pc s.slot s.todo r s.agentindex) ea v.agent_inv) v

-- In a ring of more than two slots, with an agent whose last packet alone closes the report, after any
-- schedule: the agent waits for a reason. When it stands before either of its loops
-- with the index that the reporter has now, and the loop's test sends it round again, at least one
-- record waits for the reporter.
pub run_waits_for_work :
    {P : Type 0} (size : ℕ) (last : P → Bool) (slot : ℕ → P) (all : List P)
    → 2 < size
    → Closes last all
    → (ts : List Thread) (r : ℕ) → (run size last ts (init size last slot all)).reporterindex ≡ at r
    → (((run size last ts (init size last slot all)).agent ≡ wrapping (at r))
        × (is_at (at r) 0 ≡ true))
      ⊎ (((run size last ts (init size last slot all)).agent ≡ lapping (at r))
          × (is_lapped (at r) (run size last ts (init size last slot all)).agentindex ≡ true))
    → 0 < pending size r (run size last ts (init size last slot all)).agentindex
run_waits_for_work size last slot all big c ts r er which =
    let s = run size last ts (init size last slot all) in
    let v : Live size all last s r =
      subst (λ j. Inv size all last s j) er (reached size last slot all big c ts) in
    waits-Live size big last all s r v which
