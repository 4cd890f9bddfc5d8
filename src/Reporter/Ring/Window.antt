-- ===== src/Reporter/Ring/Window.antt =====
-- What lies in the ring between the slot taken last and the slot written next.
use flexfcapf.Prelude.{
  ℕ, zero, suc, ◌+◌, ◌-◌, ◌≤◌, ◌<◌, ◌≡◌, ◌≢◌, refl, ap, ap₂, List, [], ◌∷◌, ◌++◌, ◌==◌, ltb,
  if◌then◌else◌, arith,
}
use flexfcapf.Reporter.Ring.{update}

module _ (size : ℕ) where
  -- The number of records that wait, with `r` taken last and `a` written next.
  abbrev pub pending : ℕ → ℕ → ℕ
  pending r a = if ltb r a then a - 1 - r else size - 1 - r + a

  abbrev pub next_slot : ℕ → ℕ
  next_slot r = if r == size - 1 then 0 else r + 1

  module _ {P : Type 0} where
    -- The records in the `n` slots that follow `r`.
    abbrev pub window : (ℕ → P) → ℕ → ℕ → List P
    window slot r zero = []
    window slot r (suc n) = slot (next_slot r) ∷ window slot (next_slot r) n

    -- A write to the slot `a` does not touch the records that wait before `a`.
    pub window-update :
        (slot : ℕ → P) (p : P) (r a n : ℕ)
        → r < size
        → a < size
        → n ≤ pending r a
        → (n ≢ 0 → r ≢ a)
        → window (update slot a p) r n ≡ window slot r n
    window-update slot p r a zero hr ha hn ne = refl
    window-update slot p r a (suc n) hr ha hn ne = ap₂ ◌∷◌ (ground arith) (
        window-update slot p (next_slot r) a n (ground arith) ha (ground arith) (λ z. ground arith))

    -- The record that is written at `a` becomes the last one that waits.
    pub window-snoc :
        (slot : ℕ → P) (r a n : ℕ)
        → r < size
        → a < size
        → r ≢ a
        → n ≡ pending r a
        → window slot r (suc n) ≡ window slot r n ++ slot a ∷ []
    window-snoc slot r a zero hr ha ne e = ap (λ k. slot k ∷ []) (ground arith)
    window-snoc slot r a (suc n) hr ha ne e =
        ap (λ l. slot (next_slot r) ∷ l)
          (window-snoc slot (next_slot r) a n (ground arith) ha (ground arith) (ground arith))

-- Nothing waits behind the last slot when the first is written next.
pub pending-start : (size : ℕ) → 2 < size → pending size (size - 1) 0 ≡ 0
pending-start size big = ground arith
