-- ===== src/Reporter/Setup/Slots.antt =====
-- The slots of a group, and the static variable that says how many a search goes through.
use flexfcapf.Prelude.{
  ℕ, ◌≤◌, ◌<◌, ◌≡◌, Bool, true, ◌||◌, ◌&&◌, [], ◌∷◌, Returns, Ensures-mono, Option, some, List,
  if_intro, arith, ltb, length, length-map, Ensures, ◌>>=◌, Returns->>=,
}
use flexfcapf.Prelude.Int.{ℤ}
use flexfcapf.Prelude.Double.{Double}
use flexfcapf.Settings.{TransferInfo, is_client, is_server, is_multiple_report}
use flexfcapf.Address.{ByteOrder}
use flexfcapf.Reporter.Multi.{MultiHeader, handle_multiple_reports}
use flexfcapf.Reporter.Multi.Slots.{AtLeast, handle_multiple_reports-AtLeast}
use flexfcapf.Reporter.Header.{Agent, Connection}
use flexfcapf.Reporter.Setup.{num_slots, num_slots_after, is_dual, free_slot, init_multi}

num_slots-pos : {W : Type 0} (a : Agent W) → 0 < num_slots a
unfolding num_slots
num_slots-pos a =
    if_intro (λ n. 0 < n) (is_client a.thread_mode)
      (λ _. if_intro (λ n. 0 < n) (is_dual a.test_mode) (λ _. omega arith) (λ _. omega arith))
      (λ _. omega arith)

-- What happens while a header is in use: `InitMulti` for another agent, which writes `num_multi_slots`, or a report that is
-- summed in the header.
pub data Event (W : Type 0) : Type 0 where
  another : Agent W → Event W
  report : TransferInfo W → Bool → Event W

module _ {W : Type 0} where
  -- None of the agents asks for more slots.
  abbrev pub AskForAtMost : ℕ → List (Event W) → Type 0
  AskForAtMost n [] = Unit
  AskForAtMost n (another a ∷ events) = (num_slots a ≤ n) × AskForAtMost n events
  AskForAtMost n (report i force ∷ events) = AskForAtMost n events

  num_slots_after-bounds :
      (a : Agent W) (n num : ℕ)
      → num_slots a ≤ n
      → 0 < num
      → num ≤ n
      → (0 < num_slots_after a num) × (num_slots_after a num ≤ n)
  unfolding num_slots_after
  num_slots_after-bounds a n num h p k =
      if_intro (λ z. (0 < z) × (z ≤ n))
        ((ltb 1 a.threads || is_server a.thread_mode) && is_multiple_report a.flags)
        (λ _. (num_slots-pos a, h)) (λ _. (p, k))

module _ {W : Type 0} ⦃d : Double W⦄ where
  -- The header after some events; the first argument is `num_multi_slots`.
  unfoldable pub sums :
      ℕ → Option (MultiHeader W) → List (Event W) → Option (Option (MultiHeader W))
  sums num m [] = some m
  sums num m (another a ∷ events) = sums (num_slots_after a num) m events
  sums num m (report i force ∷ events) =
      handle_multiple_reports num m i force >>= λ x. sums num x.0 events

  sums-AtLeast :
      (n num : ℕ) (m : Option (MultiHeader W)) (events : List (Event W))
      → 0 < num
      → num ≤ n
      → AtLeast n m
      → AskForAtMost n events
      → Returns (AtLeast n) (sums num m events)
  unfolding sums
  sums-AtLeast n num m [] p q h few = h
  sums-AtLeast n num m (another a ∷ events) p q h few =
      let b = num_slots_after-bounds a n num few.0 p q in
      sums-AtLeast n (num_slots_after a num) m events b.0 b.1 h few.1
  sums-AtLeast n num m (report i force ∷ events) p q h few =
      Returns->>= (λ x. AtLeast n x.0) (AtLeast n) (handle_multiple_reports num m i force) _
        (handle_multiple_reports-AtLeast num n m i force p q h)
        (λ x k. sums-AtLeast n num x.0 events p q k few)

  init_multi-length :
      (o : ByteOrder) (a : Agent W) (id : ℤ) (memory : ℕ → List (TransferInfo W))
      → ((n : ℕ) → length (memory n) ≡ n)
      → is_multiple_report a.flags ≡ true
      → Ensures (λ x. length x.0.slots ≡ num_slots a) (init_multi o a id memory)
  unfolding init_multi
  init_multi-length o a id memory h e =
      let P : MultiHeader W × Option Connection → Type 0 = λ x. length x.0.slots ≡ num_slots a in
      if_intro (Ensures P) (ltb 1 a.threads || is_server a.thread_mode)
        (λ _.
          if_intro P (is_multiple_report a.flags)
            (λ _. omega (arith, length-map (memory (num_slots a)) (free_slot id), h (num_slots a)))
            (λ f. cc))
        (λ _. tt)

  -- If `malloc` gives the slots that it is asked for, then from `InitMulti` for an agent with sums on, over any reports that are
  -- summed in its header and any `InitMulti` between them for agents that ask for no more slots than it did, no slot outside
  -- of the header's is read, and the header keeps the slots that the agent asked for.
  pub sums-init_multi :
      (o : ByteOrder) (a : Agent W) (id : ℤ) (memory : ℕ → List (TransferInfo W))
      → (events : List (Event W)) → ((n : ℕ) → length (memory n) ≡ n)
      → is_multiple_report a.flags ≡ true
      → AskForAtMost (num_slots a) events
      → Ensures
          (λ x. Returns (AtLeast (num_slots a)) (sums (num_slots a) (some x.0) events))
          (init_multi o a id memory)
  sums-init_multi o a id memory events h e few =
      Ensures-mono _ _ (init_multi o a id memory) (init_multi-length o a id memory h e) (λ x k.
        sums-AtLeast (num_slots a) (num_slots a) (some x.0) events (num_slots-pos a) (omega arith)
          (omega (arith, k)) few)
