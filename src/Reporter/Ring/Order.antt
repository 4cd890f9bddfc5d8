-- ===== src/Reporter/Ring/Order.antt =====
-- The invariant of the ring: no packet is lost, repeated or reordered, whatever the schedule.
use flexfcapf.Prelude.{ℕ, ◌+◌, ◌-◌, ◌≤◌, ◌<◌, ◌≡◌, ◌≢◌, Bool, true, false, List, [], ◌∷◌, ◌++◌}
use flexfcapf.Reporter.Ring.{
  Index, at, minus_one, AgentPc, ready, entered, wrapping, lapping, copied, closing, ended,
  ReporterPc, advancing, taking, handling, finishing, freed, Ring,
}
use flexfcapf.Reporter.Ring.Window.{pending, window}

-- The agent reports packets, and closes with the one that `last` tells from the others.
abbrev pub Closes : {P : Type 0} → (P → Bool) → List P → Type 0
Closes last [] = Unit
Closes last (p ∷ []) = last p ≡ true
Closes last (p ∷ q ∷ ps) = (last p ≡ false) × Closes last (q ∷ ps)

-- `reporterindex` is set to -1 behind the last packet.
abbrev pub Finished : {P : Type 0} → ReporterPc → List P → Type 0
Finished finishing ps = ps ≡ []
Finished _ ps = Unit

-- The slot taken last is in the ring while it is handled, and logged afterwards.
abbrev pub held : {P : Type 0} → ReporterPc → P → List P
held handling p = p ∷ []
held _ p = []

module _ (size : ℕ) where
  -- What a reading of `reporterindex` that may be out of date still says.
  abbrev pub IsStale : Index → ℕ → ℕ → Type 0
  IsStale (at i) r a = (i < size) × (i ≢ a) × (pending size r a ≤ pending size i a)
  IsStale minus_one r a = ⊥

  abbrev pub ReporterInv : ReporterPc → ℕ → ℕ → Type 0
  ReporterInv advancing r a = r + 1 ≢ a
  ReporterInv taking r a = (r ≡ size - 1) × (a ≢ 0) × (pending size r a ≢ 0)
  ReporterInv freed r a = ⊥
  ReporterInv _ r a = Unit

module _ {P : Type 0} (size : ℕ) where
  -- With `r` taken last, `a` written next and `todo` left to report.
  abbrev pub AgentInv : AgentPc → (ℕ → P) → List P → ℕ → ℕ → Type 0
  AgentInv ready slot todo r a = Unit
  AgentInv (entered i) slot todo r a = (todo ≢ []) × IsStale size i r a
  AgentInv (wrapping i) slot todo r a = (todo ≢ []) × (a ≡ size) × IsStale size i r a
  AgentInv (lapping i) slot todo r a = (todo ≢ []) × (a < size) × IsStale size i r a
  AgentInv copied slot [] r a = ⊥
  AgentInv copied slot (p ∷ ps) r a = (a < size) × (r ≢ a + 1) × (slot a ≡ p)
  AgentInv closing slot todo r a = ⊥
  AgentInv ended slot todo r a = ⊥

  -- What is in hand, waits in the ring or has yet to enter it, in order.
  abbrev pub rest : Ring P → ℕ → List P
  rest s r =
      held s.reporter (s.slot r) ++ (window size s.slot r (pending size r s.agentindex) ++ s.todo)

  -- Every packet is at one place: handled, in the slot that is being handled, in the ring or to come.
  pub record Live (all : List P) (last : P → Bool) (s : Ring P) (r : ℕ) : Type 0 where
    pub r_in : r < size
    pub a_in : s.agentindex ≤ size
    pub apart : r ≢ s.agentindex
    pub agent_inv : AgentInv s.agent s.slot s.todo r s.agentindex
    pub reporter_inv : ReporterInv size s.reporter r s.agentindex
    pub kept : s.handled ++ rest s r ≡ all
    pub closes : Closes last (rest s r)
    pub finished : Finished s.reporter (rest s r)

  -- The last packet was handled: all have been.
  abbrev pub IsDone : List P → Ring P → Type 0
  IsDone all s = (s.todo ≡ []) × (s.handled ≡ all)

  abbrev pub Inv : List P → (P → Bool) → Ring P → Index → Type 0
  Inv all last s (at r) = Live all last s r
  Inv all last s minus_one = IsDone all s
