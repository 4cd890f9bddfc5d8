-- ===== src/Reporter/Ring.antt =====
-- The ring of packet records between an agent and the reporter thread: `ReportPacket`,
-- `CloseReport` and `EndReport` on the agent's side, the loop of `reporter_process_report` on the
-- other. The two threads share the slots and both indices and hold no lock, so each step below does
-- one read or one write of what is shared, and a schedule says whose step is next. A thread that waits on
-- `ReportDoneCond` is one that reads the index anew when it is scheduled again.
pub mod Window
pub mod Order
pub mod Writer
pub mod Reader
pub mod Safety
use flexfcapf.Prelude.{ℕ, ◌+◌, ◌-◌, Bool, true, false, List, [], ◌∷◌, ◌++◌, ◌==◌, if◌then◌else◌}

-- `reporterindex`: the slot that was taken last, or -1.
pub data Index : Type 0 where
  at : ℕ → Index
  minus_one : Index

-- Where an agent stands, with its local `index`.
pub data AgentPc : Type 0 where
  ready : AgentPc  -- between two calls
  entered : Index → AgentPc  -- `if ( agent->agentindex == NUM_REPORT_STRUCTS )`
  wrapping : Index → AgentPc  -- `while ( index == 0 )`
  lapping : Index → AgentPc  -- `while ( index - 1 == agent->agentindex )`
  copied : AgentPc  -- `agent->agentindex++`
  closing : AgentPc  -- `agent->agentindex = -1` of `EndReport`
  ended : AgentPc  -- after `EndReport`: `agentindex` is -1

-- Where the reporter stands in the loop over the slots.
pub data ReporterPc : Type 0 where
  outside : ReporterPc  -- before `if ( reporthdr->reporterindex >= 0 )`
  testing : ReporterPc  -- `while ( reporterindex != agentindex - 1 )`
  advancing : ReporterPc  -- `if ( reporterindex == NUM_REPORT_STRUCTS - 1 )`
  taking : ReporterPc  -- `reporterindex = 0`
  handling : ReporterPc  -- `reporter_handle_packet`
  finishing : ReporterPc  -- `reporterindex = -1`
  freed : ReporterPc  -- `need_free`: the report is gone

-- The shared part of a `ReportHeader`, the two threads, the packets that the agent has yet to report
-- and those that the reporter has handled.
pub record Ring (P : Type 0) : Type 0 where
  pub slot : ℕ → P
  pub agentindex : ℕ
  pub reporterindex : Index
  pub agent : AgentPc
  pub reporter : ReporterPc
  pub todo : List P
  pub handled : List P

pub data Thread : Type 0 where
  the_agent the_reporter : Thread

abbrev pub is_at : Index → ℕ → Bool
is_at (at i) n = i == n
is_at minus_one n = false

-- `index - 1 == agentindex`
abbrev pub is_lapped : Index → ℕ → Bool
is_lapped i a = is_at i (a + 1)

abbrev pub is_ended : AgentPc → Bool
is_ended ended = true
is_ended _ = false

abbrev pub update {ℓ} : {A : Type ℓ} → (ℕ → A) → ℕ → A → ℕ → A
update f i a j = if i == j then a else f j

-- `size` is NUM_REPORT_STRUCTS; `last` tells the packet of `CloseReport`, whose `packetID` is
-- negative.
module _ {P : Type 0} (size : ℕ) (last : P → Bool) where
  -- `InitReport`: nothing is in the ring.
  unfoldable pub init : (ℕ → P) → List P → Ring P
  init slot todo = record {
    slot = slot;
    agentindex = 0;
    reporterindex = at (size - 1);
    agent = ready;
    reporter = outside;
    todo = todo;
    handled = [];
  }

  -- One step of the agent: `ReportPacket` for each packet, and `EndReport` after the last.
  unfoldable pub agent_move : AgentPc → List P → Ring P → Ring P
  agent_move ready [] s = elim s.reporterindex [
    | minus_one ↦ record s { agent = closing }
    | at _ ↦ s
  ]
  agent_move ready (p ∷ ps) s = record s { agent = entered s.reporterindex }
  agent_move (entered i) _ s = record s {
    agent = if s.agentindex == size then wrapping i else lapping i;
  }
  agent_move (wrapping i) _ s =
      if is_at i 0
      then record s { agent = wrapping s.reporterindex }
      else record s { agent = lapping i; agentindex = 0 }
  agent_move (lapping i) [] s = s
  agent_move (lapping i) (p ∷ ps) s =
      if is_lapped i s.agentindex
      then record s { agent = lapping s.reporterindex }
      else record s { agent = copied; slot = update s.slot s.agentindex p }
  agent_move copied [] s = s
  agent_move copied (p ∷ ps) s = record s {
    agent = ready;
    agentindex = s.agentindex + 1;
    todo = ps;
  }
  agent_move closing _ s = record s { agent = ended }
  agent_move ended _ s = s

  -- One step of the reporter at slot `r`.
  unfoldable pub reporter_move : ReporterPc → Index → Ring P → Ring P
  reporter_move outside (at r) s = record s { reporter = testing }
  reporter_move outside minus_one s = if is_ended s.agent then record s { reporter = freed } else s
  reporter_move testing (at r) s =
      if r + 1 == s.agentindex
      then record s { reporter = outside }
      else record s { reporter = advancing }
  reporter_move advancing (at r) s =
      if r == size - 1
      then (if s.agentindex == 0
          then record s { reporter = outside }
          else record s { reporter = taking })
      else record s { reporter = handling; reporterindex = at (r + 1) }
  reporter_move taking (at r) s = record s { reporter = handling; reporterindex = at 0 }
  reporter_move handling (at r) s = record s {
    reporter = if last (s.slot r) then finishing else testing;
    handled = s.handled ++ s.slot r ∷ [];
  }
  reporter_move finishing (at r) s = record s { reporter = outside; reporterindex = minus_one }
  reporter_move _ _ s = s

  unfoldable pub step : Thread → Ring P → Ring P
  unfolding agent_move reporter_move
  step the_agent s = agent_move s.agent s.todo s
  step the_reporter s = reporter_move s.reporter s.reporterindex s

  unfoldable pub run : List Thread → Ring P → Ring P
  run [] s = s
  run (t ∷ ts) s = run ts (step t s)
