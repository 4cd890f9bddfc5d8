-- ===== src/Reporter/Ring/Reader.antt =====
-- Each step of the reporter keeps the invariant of the ring: it takes the slots in order.
use flexfcapf.Prelude.{
  ℕ, suc, ◌+◌, ◌-◌, ◌≤◌, ◌<◌, ◌≡◌, ◌≢◌, refl, sym, ◌∙◌, ap, Bool, true, false, List, [], ◌∷◌, ◌++◌,
  arith, ◌==◌, if◌then◌else◌, if_intro,
}
use mathlib.Core.List.{append_assoc, append-nil}
use flexfcapf.Reporter.Ring.{
  Index, at, minus_one, AgentPc, ready, entered, wrapping, lapping, copied, closing, ended,
  ReporterPc, outside, testing, advancing, taking, handling, finishing, freed, reporter_move,
  is_ended,
}
use flexfcapf.Reporter.Ring.Window.{pending, next_slot, window}
use flexfcapf.Reporter.Ring.Order.{Closes, Finished, Inv, Live, AgentInv, ReporterInv, held}
use flexfcapf.Reporter.Ring.Writer.{ring}

pending-next :
    (size r a : ℕ)
    → r < size
    → a ≤ size
    → r ≢ a
    → r + 1 ≢ a
    → (r ≡ size - 1 → a ≢ 0)
    → pending size r a ≡ suc (pending size (next_slot size r) a)
pending-next size r a hr ha ne ne' wrap = ground arith

-- The first record that waits is in the slot after `r`.
window-next :
    {P : Type 0} (size : ℕ) (slot : ℕ → P) (r a : ℕ) (todo : List P)
    → r < size
    → a ≤ size
    → r ≢ a
    → r + 1 ≢ a
    → (r ≡ size - 1 → a ≢ 0)
    → window size slot r (pending size r a) ++ todo
      ≡ slot (next_slot size r)
        ∷ (window size slot (next_slot size r) (pending size (next_slot size r) a) ++ todo)
window-next size slot r a todo hr ha ne ne' wrap =
    ap (λ n. window size slot r n ++ todo) (pending-next size r a hr ha ne ne' wrap)

-- What the agent relies on stays true when the reporter takes a slot.
AgentInv-next :
    {P : Type 0} (size : ℕ) (pc : AgentPc) (slot : ℕ → P) (todo : List P) (r a : ℕ)
    → r < size
    → a ≤ size
    → r ≢ a
    → r + 1 ≢ a
    → (r ≡ size - 1 → a ≢ 0)
    → AgentInv size pc slot todo r a
    → AgentInv size pc slot todo (next_slot size r) a
AgentInv-next size ready slot todo r a hr ha ne ne' wrap v = tt
AgentInv-next size (entered (at i)) slot todo r a hr ha ne ne' wrap v =
    (v.0, (v.1.0, v.1.1, ground arith))
AgentInv-next size (wrapping (at i)) slot todo r a hr ha ne ne' wrap v =
    (v.0, v.1, (v.2.0, v.2.1, ground arith))
AgentInv-next size (lapping (at i)) slot todo r a hr ha ne ne' wrap v =
    (v.0, v.1, (v.2.0, v.2.1, ground arith))
AgentInv-next size (entered minus_one) slot todo r a hr ha ne ne' wrap v = v
AgentInv-next size (wrapping minus_one) slot todo r a hr ha ne ne' wrap v = v
AgentInv-next size (lapping minus_one) slot todo r a hr ha ne ne' wrap v = v
AgentInv-next size copied slot [] r a hr ha ne ne' wrap v = v
AgentInv-next size copied slot (p ∷ ps) r a hr ha ne ne' wrap v = (v.0, ground arith, v.2)
AgentInv-next size closing slot todo r a hr ha ne ne' wrap v = v
AgentInv-next size ended slot todo r a hr ha ne ne' wrap v = v

Closes-tail :
    {P : Type 0} (last : P → Bool) (p : P) (ps : List P)
    → Closes last (p ∷ ps)
    → last p ≡ false
    → Closes last ps
Closes-tail last p [] c e = tt
Closes-tail last p (q ∷ ps) c e = c.1

Closes-nil :
    {P : Type 0} (last : P → Bool) (p : P) (ps : List P)
    → Closes last (p ∷ ps)
    → last p ≡ true
    → ps ≡ []
Closes-nil last p [] c e = refl
Closes-nil last p (q ∷ ps) c e = cc

nil_of_append-nil : {P : Type 0} (xs ys : List P) → xs ++ ys ≡ [] → ys ≡ []
nil_of_append-nil [] ys e = e
nil_of_append-nil (x ∷ xs) ys e = cc

abbrev IsQuiet : ReporterPc → Type 0
IsQuiet handling = ⊥
IsQuiet finishing = ⊥
IsQuiet _ = Unit

held_of_quiet : {P : Type 0} (rp : ReporterPc) (p : P) → IsQuiet rp → held rp p ≡ []
held_of_quiet handling p q = absurd q
held_of_quiet _ p q = refl

Finished-of_quiet : {P : Type 0} (rp : ReporterPc) (ps : List P) → IsQuiet rp → Finished rp ps
Finished-of_quiet finishing ps q = absurd q
Finished-of_quiet _ ps q = tt

module _ {P : Type 0} (size : ℕ) (last : P → Bool) (all : List P) where
  -- The reporter takes the next slot: the first record that waits is in its hands.
  take-Live :
      (pc : AgentPc) (todo : List P) (r a : ℕ) (slot : ℕ → P) (handled : List P) (r' : ℕ)
      → r < size
      → a ≤ size
      → r ≢ a
      → r + 1 ≢ a
      → (r ≡ size - 1 → a ≢ 0)
      → AgentInv size pc slot todo r a
      → handled ++ (window size slot r (pending size r a) ++ todo) ≡ all
      → Closes last (window size slot r (pending size r a) ++ todo)
      → r' ≡ next_slot size r
      → Live size all last (ring pc todo handling (at r') a slot handled) r'
  take-Live pc todo r a slot handled r' hr ha apart ne wrap inv kept closes e = record {
    r_in = ground arith;
    a_in = ha;
    apart = ground arith;
    agent_inv = rw e (AgentInv-next size pc slot todo r a hr ha apart ne wrap inv);
    reporter_inv = tt;
    kept = rw (e, ← window-next size slot r a todo hr ha apart ne wrap) kept;
    closes = rw (e, ← window-next size slot r a todo hr ha apart ne wrap) closes;
    finished = tt;
  }

  -- A move that takes nothing from the ring, between two places where nothing is in hand.
  look-Live :
      (pc : AgentPc) (todo : List P) (rp rp' : ReporterPc) (r a : ℕ) (slot : ℕ → P)
      (handled : List P)
      → IsQuiet rp
      → IsQuiet rp'
      → ReporterInv size rp' r a
      → Live size all last (ring pc todo rp (at r) a slot handled) r
      → Live size all last (ring pc todo rp' (at r) a slot handled) r
  look-Live pc todo rp rp' r a slot handled q q' ri v = record {
    r_in = v.r_in;
    a_in = v.a_in;
    apart = v.apart;
    agent_inv = v.agent_inv;
    reporter_inv = ri;
    kept = rw (held_of_quiet rp' (slot r) q') (rw (held_of_quiet rp (slot r) q) at v.kept);
    closes = rw (held_of_quiet rp' (slot r) q') (rw (held_of_quiet rp (slot r) q) at v.closes);
    finished = Finished-of_quiet rp' _ q';
  }

  -- The record in hand is logged.
  handle-Live :
      (pc : AgentPc) (todo : List P) (r a : ℕ) (slot : ℕ → P) (handled : List P)
      → Live size all last (ring pc todo handling (at r) a slot handled) r
      → Live size all last
          (ring pc todo
            (if last (slot r) then finishing else testing)
            (at r)
            a
            slot
            (handled ++ slot r ∷ []))
          r
  handle-Live pc todo r a slot handled v =
      if_intro (λ rp. Live size all last (ring pc todo rp (at r) a slot (handled ++ slot r ∷ [])) r)
        (last (slot r))
        (λ e. record {
          r_in = v.r_in;
          a_in = v.a_in;
          apart = v.apart;
          agent_inv = v.agent_inv;
          reporter_inv = tt;
          kept = append_assoc handled (slot r ∷ []) queue ∙ v.kept;
          closes = rw (Closes-nil last (slot r) queue v.closes e) tt;
          finished = Closes-nil last (slot r) queue v.closes e;
        })
        (λ e. record {
          r_in = v.r_in;
          a_in = v.a_in;
          apart = v.apart;
          agent_inv = v.agent_inv;
          reporter_inv = tt;
          kept = append_assoc handled (slot r ∷ []) queue ∙ v.kept;
          closes = Closes-tail last (slot r) queue v.closes e;
          finished = tt;
        })
    where
      queue : List P
      queue = window size slot r (pending size r a) ++ todo

  pub reporter-Inv :
      (pc : AgentPc) (todo : List P) (rp : ReporterPc) (i : Index) (a : ℕ) (slot : ℕ → P)
      (handled : List P)
      → Inv size all last (ring pc todo rp i a slot handled) i
      → let s = reporter_move size last rp i (ring pc todo rp i a slot handled) in
        Inv size all last s s.reporterindex
  unfolding reporter_move
  reporter-Inv pc todo outside (at r) a slot handled v =
      look-Live pc todo outside testing r a slot handled tt tt tt v
  reporter-Inv pc todo testing (at r) a slot handled v =
      if_intro (λ s. Inv size all last s s.reporterindex) (r + 1 == a)
        (λ e. look-Live pc todo testing outside r a slot handled tt tt tt v)
        (λ e. look-Live pc todo testing advancing r a slot handled tt tt (ground arith) v)
  reporter-Inv pc todo advancing (at r) a slot handled v =
      if_intro (λ s. Inv size all last s s.reporterindex) (r == size - 1)
        (λ e.
          if_intro (λ s. Inv size all last s s.reporterindex) (a == 0)
            (λ z. look-Live pc todo advancing outside r a slot handled tt tt tt v)
            (λ z. look-Live pc todo advancing taking r a slot handled tt tt (ground arith) v))
        (λ e.
          take-Live pc todo r a slot handled (r + 1) v.r_in v.a_in v.apart v.reporter_inv
            (λ z. ground arith) v.agent_inv v.kept v.closes (ground arith))
  reporter-Inv pc todo taking (at r) a slot handled v =
      take-Live pc todo r a slot handled 0 v.r_in v.a_in v.apart (ground arith) (ground arith)
        v.agent_inv v.kept v.closes (ground arith)
  reporter-Inv pc todo handling (at r) a slot handled v = handle-Live pc todo r a slot handled v
  reporter-Inv pc todo finishing (at r) a slot handled v = (
    nil_of_append-nil (window size slot r (pending size r a)) todo v.finished,
    sym (append-nil handled) ∙ ap (λ l. handled ++ l) (sym v.finished) ∙ v.kept,
  )
  reporter-Inv pc todo freed (at r) a slot handled v = v
  reporter-Inv pc todo outside minus_one a slot handled v =
      if_intro (λ s. Inv size all last s s.reporterindex) (is_ended pc) (λ e. v) (λ e. v)
  reporter-Inv pc todo testing minus_one a slot handled v = v
  reporter-Inv pc todo advancing minus_one a slot handled v = v
  reporter-Inv pc todo taking minus_one a slot handled v = v
  reporter-Inv pc todo handling minus_one a slot handled v = v
  reporter-Inv pc todo finishing minus_one a slot handled v = v
  reporter-Inv pc todo freed minus_one a slot handled v = v
