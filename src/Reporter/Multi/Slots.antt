-- ===== src/Reporter/Multi/Slots.antt =====
-- The loops over the slots of a header, whose bound is a static variable.
use flexfcapf.Prelude.{
  ℕ, zero, suc, ◌≤◌, ◌<◌, ◌≡◌, refl, ap, Bool, true, not, ◌&&◌, Option, none, some, List, [], ◌∷◌,
  arith, ltb, if_intro, length, ◌>>=◌, get_elem?, length-set, Returns, Returns->>=,
}
use flexfcapf.Prelude.Int.{pos}
use flexfcapf.Prelude.Double.{Double, of_int, ltb_w, eqb_w}
use flexfcapf.Settings.{TransferInfo}
use flexfcapf.Reporter.Multi.{
  Output, MultiHeader, stop_index, open_slot, add_slot, close_slot, char_is, sum_report,
  handle_multiple_reports,
}

-- A loop over some of the slots stops at one of them.
pub stop_index-lt :
    {W : Type 0} (test : TransferInfo W → Bool) (n : ℕ) (xs : List (TransferInfo W))
    → 0 < n
    → n ≤ length xs
    → Returns (λ i. i < n) (stop_index test n xs)
unfolding stop_index
stop_index-lt test zero xs p h = absurd (omega arith)
stop_index-lt test (suc n) [] p h = absurd (omega arith)
stop_index-lt test (suc zero) (x ∷ xs) p h = omega arith
stop_index-lt test (suc (suc n)) (x ∷ xs) p h =
    if_intro (Returns (λ i. i < suc (suc n))) (test x) (λ _. omega arith)
      (λ _.
        Returns->>= (λ i. i < suc n) (λ i. i < suc (suc n)) (stop_index test (suc n) xs) _
          (stop_index-lt test (suc n) xs (omega arith) (omega arith)) (λ i k. omega arith))

abbrev pub none_passes : {W : Type 0} → (TransferInfo W → Bool) → List (TransferInfo W) → Bool
none_passes test [] = true
none_passes test (x ∷ xs) = not (test x) && none_passes test xs

-- A loop over more slots than there are, none of which passes, leaves them.
pub stop_index-none :
    {W : Type 0} (test : TransferInfo W → Bool) (n : ℕ) (xs : List (TransferInfo W))
    → length xs < n
    → none_passes test xs ≡ true
    → stop_index test n xs ≡ none
unfolding stop_index
stop_index-none test zero xs h k = absurd (omega arith)
stop_index-none test (suc n) [] h k = refl
stop_index-none test (suc zero) (x ∷ xs) h k = absurd (omega arith)
stop_index-none test (suc (suc n)) (x ∷ xs) h k =
    if_intro (λ o. o ≡ none) (test x) (λ q. absurd (ground arith))
      (λ q.
        ap (λ o. o >>= λ i. some (suc i))
          (stop_index-none test (suc n) xs (omega arith) (ground arith)))

-- What is found in range.
get_intro :
    {A : Type 0} (xs : List A) (i : ℕ) → i < length xs → Returns (λ _. Unit {0}) (get_elem? xs i)
get_intro [] i h = absurd (omega arith)
get_intro (x ∷ xs) zero h = tt
get_intro (x ∷ xs) (suc i) h = get_intro xs i (omega arith)

module _ {W : Type 0} ⦃d : Double W⦄ where
  abbrev pub HasSlots : ℕ → Option (MultiHeader W) → Type 0
  HasSlots num none = Unit
  HasSlots num (some m) = (0 < num) × (num ≤ length m.slots)

  abbrev pub AtLeast : ℕ → Option (MultiHeader W) → Type 0
  AtLeast n none = Unit
  AtLeast n (some m) = n ≤ length m.slots

  sum_report-Returns :
      (num n : ℕ) (m : MultiHeader W) (i : TransferInfo W) (force : Bool)
      → 0 < num
      → num ≤ n
      → n ≤ length m.slots
      → Returns (λ x. n ≤ length x.0.slots) (sum_report num m i force)
  unfolding sum_report close_slot
  sum_report-Returns num n m i force p q h =
      let P : MultiHeader W × List (Output W) → Type 0 = λ x. n ≤ length x.0.slots in
      Returns->>= (λ a. a < num) P (stop_index _ num m.slots) _
        (stop_index-lt (λ x. eqb_w x.start_time i.start_time) num m.slots p (omega arith))
        (λ a ka.
          Returns->>= (λ _. Unit {0}) P (get_elem? m.slots a) _ (get_intro m.slots a (omega arith))
            (λ x _.
              if_intro (Returns P) (not (eqb_w x.start_time i.start_time))
                (λ _.
                  Returns->>= (λ b. b < num) P (stop_index _ num m.slots) _
                    (stop_index-lt (λ y. ltb_w y.start_time (of_int (pos 0))) num m.slots p
                      (omega arith))
                    (λ b kb.
                      Returns->>= (λ _. Unit {0}) P (get_elem? m.slots b) _
                        (get_intro m.slots b (omega arith))
                        (λ y _. omega (arith, length-set m.slots b (open_slot y i), h))))
                (λ _.
                  if_intro (Returns P) (char_is (add_slot x i).free m.threads)
                    (λ _. omega (arith, length-set m.slots a _, h))
                    (λ _. omega (arith, length-set m.slots a (add_slot x i), h)))))

  -- The header keeps any number of slots that it has, and that `num_multi_slots` is not above.
  pub handle_multiple_reports-AtLeast :
      (num n : ℕ) (m : Option (MultiHeader W)) (i : TransferInfo W) (force : Bool)
      → 0 < num
      → num ≤ n
      → AtLeast n m
      → Returns (λ x. AtLeast n x.0) (handle_multiple_reports num m i force)
  unfolding handle_multiple_reports
  handle_multiple_reports-AtLeast num n none i force p q h = tt
  handle_multiple_reports-AtLeast num n (some m) i force p q h =
      if_intro (Returns (λ x. AtLeast n x.0)) (ltb 1 m.threads)
        (λ _.
          Returns->>= (λ x. n ≤ length x.0.slots) _ (sum_report num m i force) _
            (sum_report-Returns num n m i force p q h) (λ x k. k))
        (λ _. h)

  -- While `num_multi_slots` is positive and no more than the slots of the header, the sum of a report reads none outside of
  -- them, and the header has as many slots afterwards.
  pub handle_multiple_reports-Returns :
      (num : ℕ) (m : Option (MultiHeader W)) (i : TransferInfo W) (force : Bool)
      → HasSlots num m
      → Returns (λ x. HasSlots num x.0) (handle_multiple_reports num m i force)
  unfolding handle_multiple_reports
  handle_multiple_reports-Returns num none i force h = tt
  handle_multiple_reports-Returns num (some m) i force h =
      if_intro (Returns (λ x. HasSlots num x.0)) (ltb 1 m.threads)
        (λ _.
          Returns->>= (λ x. num ≤ length x.0.slots) _ (sum_report num m i force) _
            (sum_report-Returns num num m i force h.0 (omega arith) h.1) (λ x k. (h.0, k)))
        (λ _. h)

  -- If `num_multi_slots` is above the slots of the header, none of which is of the interval of the report, then the search
  -- reads behind them.
  pub handle_multiple_reports-none :
      (num : ℕ) (m : MultiHeader W) (i : TransferInfo W) (force : Bool)
      → 1 < m.threads
      → length m.slots < num
      → none_passes (λ x. eqb_w x.start_time i.start_time) m.slots ≡ true
      → handle_multiple_reports num (some m) i force ≡ none
  unfolding handle_multiple_reports sum_report
  handle_multiple_reports-none num m i force t h k =
      if_intro (λ o. o ≡ none) (ltb 1 m.threads)
        (λ _. rw (stop_index-none (λ x. eqb_w x.start_time i.start_time) num m.slots h k))
        (λ q. absurd (ground arith))
