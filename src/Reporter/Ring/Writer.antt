-- ===== src/Reporter/Ring/Writer.antt =====
-- Each step of the agent keeps the invariant of the ring: it writes where the reporter is not.
use flexfcapf.Prelude.{
  ℕ, suc, ◌+◌, ◌<◌, ◌≡◌, ◌≢◌, refl, ◌∙◌, ap, ap₂, Bool, List, [], ◌∷◌, ◌++◌, arith, ◌==◌, if_intro,
}
use mathlib.Core.List.{append_assoc}
use flexfcapf.Reporter.Ring.{
  Index, at, AgentPc, ready, entered, wrapping, lapping, copied, closing, ended, ReporterPc,
  outside, testing, advancing, taking, handling, finishing, freed, Ring, agent_move, update, is_at,
  is_lapped,
}
use flexfcapf.Reporter.Ring.Window.{pending, window, window-update, window-snoc}
use flexfcapf.Reporter.Ring.Order.{Live, held, AgentInv, ReporterInv}

module _ {P : Type 0} where
  abbrev pub ring : AgentPc → List P → ReporterPc → Index → ℕ → (ℕ → P) → List P → Ring P
  ring pc todo rp i a slot handled = record {
    slot = slot;
    agentindex = a;
    reporterindex = i;
    agent = pc;
    reporter = rp;
    todo = todo;
    handled = handled;
  }

-- The agent's write to the slot `a` touches neither the slot in hand nor those that wait.
held-update :
    {P : Type 0} (size : ℕ) (slot : ℕ → P) (p : P) (rp : ReporterPc) (r a : ℕ) (todo : List P)
    → r < size
    → a < size
    → r ≢ a
    → held rp (update slot a p r) ++ (window size (update slot a p) r (pending size r a) ++ todo)
      ≡ held rp (slot r) ++ (window size slot r (pending size r a) ++ todo)
held-update size slot p rp r a todo hr ha ne =
    ap₂ (λ x y. held rp x ++ (y ++ todo)) (ground arith)
      (window-update size slot p r a (pending size r a) hr ha (ground arith) (λ _. ne))

pending-suc :
    (size r a : ℕ) → r < size → a < size → r ≢ a → pending size r (a + 1) ≡ suc (pending size r a)
pending-suc size r a hr ha ne = ground arith

pending-wrap : (size r a : ℕ) → r < size → a ≡ size → pending size r 0 ≡ pending size r a
pending-wrap size r a hr e = ground arith

-- Counting the record at `a` takes the packet out of what is left to report.
window-advance :
    {P : Type 0} (size : ℕ) (slot : ℕ → P) (r a : ℕ) (ps : List P)
    → r < size
    → a < size
    → r ≢ a
    → window size slot r (pending size r (a + 1)) ++ ps
      ≡ window size slot r (pending size r a) ++ slot a ∷ ps
window-advance size slot r a ps hr ha ne =
    ap (λ n. window size slot r n ++ ps) (pending-suc size r a hr ha ne)
    ∙ ap (λ l. l ++ ps) (window-snoc size slot r a (pending size r a) hr ha ne refl)
    ∙ append_assoc (window size slot r (pending size r a)) (slot a ∷ []) ps

-- What the reporter relies on stays true when a record is counted.
ReporterInv-suc :
    (size r a : ℕ) (rp : ReporterPc)
    → r < size
    → a < size
    → r ≢ a
    → ReporterInv size rp r a
    → ReporterInv size rp r (a + 1)
ReporterInv-suc size r a outside hr ha ne v = tt
ReporterInv-suc size r a testing hr ha ne v = tt
ReporterInv-suc size r a advancing hr ha ne v = omega arith
ReporterInv-suc size r a taking hr ha ne v = (v.0, ground arith, ground arith)
ReporterInv-suc size r a handling hr ha ne v = tt
ReporterInv-suc size r a finishing hr ha ne v = tt
ReporterInv-suc size r a freed hr ha ne v = v

-- So it does when the agent goes back to the first slot.
ReporterInv-wrap :
    (size r : ℕ) (rp : ReporterPc) → r < size → ReporterInv size rp r size → ReporterInv size rp r 0
ReporterInv-wrap size r outside hr v = tt
ReporterInv-wrap size r testing hr v = tt
ReporterInv-wrap size r advancing hr v = omega arith
ReporterInv-wrap size r taking hr v = absurd (ground arith)
ReporterInv-wrap size r handling hr v = tt
ReporterInv-wrap size r finishing hr v = tt
ReporterInv-wrap size r freed hr v = v

module _ {P : Type 0} (size : ℕ) (last : P → Bool) (all : List P) where
  pub agent-Live :
      (pc : AgentPc) (todo : List P) (rp : ReporterPc) (r a : ℕ) (slot : ℕ → P) (handled : List P)
      → Live size all last (ring pc todo rp (at r) a slot handled) r
      → Live size all last (agent_move size last pc todo (ring pc todo rp (at r) a slot handled)) r
  unfolding agent_move
  agent-Live ready [] rp r a slot handled v = v
  agent-Live ready (p ∷ ps) rp r a slot handled v = record {
    r_in = v.r_in;
    a_in = v.a_in;
    apart = v.apart;
    agent_inv = ground arith;
    reporter_inv = v.reporter_inv;
    kept = v.kept;
    closes = v.closes;
    finished = v.finished;
  }
  agent-Live (entered i) todo rp r a slot handled v = record {
    r_in = v.r_in;
    a_in = v.a_in;
    apart = v.apart;
    agent_inv =
        if_intro (λ pc. AgentInv size pc slot todo r a) (a == size) (λ e. ground arith)
          (λ e. ground arith);
    reporter_inv = v.reporter_inv;
    kept = v.kept;
    closes = v.closes;
    finished = v.finished;
  }
  agent-Live (wrapping i) todo rp r a slot handled v =
      if_intro (λ s. Live size all last s r) (is_at i 0)
        (λ e. record {
          r_in = v.r_in;
          a_in = v.a_in;
          apart = v.apart;
          agent_inv = ground arith;
          reporter_inv = v.reporter_inv;
          kept = v.kept;
          closes = v.closes;
          finished = v.finished;
        })
        (λ e. record {
          r_in = v.r_in;
          a_in = omega arith;
          apart = ground arith;
          agent_inv = ground arith;
          reporter_inv = ReporterInv-wrap size r rp v.r_in (rw v.agent_inv.1 at v.reporter_inv);
          kept = rw (pending-wrap size r a v.r_in v.agent_inv.1) v.kept;
          closes = rw (pending-wrap size r a v.r_in v.agent_inv.1) v.closes;
          finished = rw (pending-wrap size r a v.r_in v.agent_inv.1) v.finished;
        })
  agent-Live (lapping i) [] rp r a slot handled v = v
  agent-Live (lapping i) (p ∷ ps) rp r a slot handled v =
      if_intro (λ s. Live size all last s r) (is_lapped i a)
        (λ e. record {
          r_in = v.r_in;
          a_in = v.a_in;
          apart = v.apart;
          agent_inv = ground arith;
          reporter_inv = v.reporter_inv;
          kept = v.kept;
          closes = v.closes;
          finished = v.finished;
        })
        (λ e. record {
          r_in = v.r_in;
          a_in = v.a_in;
          apart = v.apart;
          agent_inv = ground arith;
          reporter_inv = v.reporter_inv;
          kept = rw (held-update size slot p rp r a (p ∷ ps) v.r_in v.agent_inv.1 v.apart) v.kept;
          closes =
              rw (held-update size slot p rp r a (p ∷ ps) v.r_in v.agent_inv.1 v.apart) v.closes;
          finished =
              rw (held-update size slot p rp r a (p ∷ ps) v.r_in v.agent_inv.1 v.apart) v.finished;
        })
  agent-Live copied [] rp r a slot handled v = v
  agent-Live copied (p ∷ ps) rp r a slot handled v = record {
    r_in = v.r_in;
    a_in = ground arith;
    apart = ground arith;
    agent_inv = tt;
    reporter_inv = ReporterInv-suc size r a rp v.r_in v.agent_inv.0 v.apart v.reporter_inv;
    kept = rw (window-advance size slot r a ps v.r_in v.agent_inv.0 v.apart, v.agent_inv.2) v.kept;
    closes =
        rw (window-advance size slot r a ps v.r_in v.agent_inv.0 v.apart, v.agent_inv.2) v.closes;
    finished =
        rw (window-advance size slot r a ps v.r_in v.agent_inv.0 v.apart, v.agent_inv.2) v.finished;
  }
  agent-Live closing todo rp r a slot handled v = absurd v.agent_inv
  agent-Live ended todo rp r a slot handled v = v
