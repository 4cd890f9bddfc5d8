-- ===== src/Numbers/Adaptive.antt =====
-- The loop of the adaptive formats in iperf2-code/src/stdio.c and the tables that it indexes.
use flexfcapf.Prelude.{
  ℕ, zero, suc, ◌+◌, ◌≤◌, ◌<◌, ◌≡◌, ◌≢◌, refl, ◌↔◌, ◌||◌, ◌==◌, ◌⊎◌, inl, inr, Bool, true, false,
  ◌&&◌, not, none, arith, leb, if_intro, Bool-cases, if◌then◌else◌,
}
use flexfcapf.Prelude.Int.{pos}
use flexfcapf.Prelude.Double.{Double, of_int, ltb_w}
use flexfcapf.Numbers.{
  times, quotient, adapt, conversion_index, byte_snprintf, in_unit, is_upper, to_upper,
}

-- The step between the units of a format.
abbrev pub step_of : ℕ → ℕ
step_of format = if is_upper format then 1024 else 1000

-- The unit is not given by the format.
abbrev pub is_adaptive : ℕ → Bool
is_adaptive format = not (
    to_upper format == b'B'
    || to_upper format == b'K'
    || to_upper format == b'M'
    || to_upper format == b'G')

ladder :
    (a b c e f : Bool)
    → (◌≡◌ {A = ℕ}
        (if not a && true
          then if not b && true
            then if not c && true
              then if not e && true then if not f && false then 5 else 4 else 3
              else 2
            else 1
          else 0)
        4)
      ↔ (not a && not b && not c && not e ≡ true)
ladder a b c e f = ground arith

no_unit : (n : ℕ) → n ≢ 4 → (n ≡ 4) ↔ (false ≡ true)
no_unit n h = (λ e. absurd (h e), λ e. absurd (ground arith))

choice :
    (p q r t u : Bool) (f : ℕ → ℕ) (g : ℕ → Bool)
    → ((s : ℕ) → (f s ≡ 4) ↔ (g s ≡ true))
    → (◌≡◌ {A = ℕ}
        (if p
          then 0
          else if q
          then 1
          else if r
          then 2
          else if t
          then 3
          else if u
          then f 1024
          else f 1000)
        4)
      ↔ (not (p || q || r || t) && g (if u then 1024 else 1000) ≡ true)
choice true q r t u f g h = no_unit 0 (λ e. omega arith)
choice false true r t u f g h = no_unit 1 (λ e. omega arith)
choice false false true t u f g h = no_unit 2 (λ e. omega arith)
choice false false false true u f g h = no_unit 3 (λ e. omega arith)
choice false false false false true f g h = h 1024
choice false false false false false f g h = h 1000

module _ {W : Type 0} ⦃d : Double W⦄ where
  abbrev pub below : W → ℕ → Bool
  below x step = ltb_w x (of_int (pos step))

  -- The number after some divisions.
  abbrev pub divided : ℕ → W → ℕ → W
  divided step x zero = x
  divided step x (suc n) = divided step (quotient x step) n

  -- After `n` divisions the number is below the step or there is no unit left, and not before.
  pub record IsBest (step : ℕ) (x : W) (conv : ℕ) (n : ℕ) : Type 0 where
    pub ends : (below (divided step x n) step ≡ true) ⊎ (3 < conv + n)
    pub first : (j : ℕ) → j < n → (below (divided step x j) step ≡ false) × (conv + j ≤ 3)

  none_before :
      (step : ℕ) (x : W) (conv : ℕ) (j : ℕ)
      → j < 0
      → (below (divided step x j) step ≡ false) × (conv + j ≤ 3)
  none_before step x conv j h = absurd (omega arith)

  earlier :
      (step : ℕ) (x : W) (conv n : ℕ)
      → below x step ≡ false
      → conv ≤ 3
      → IsBest step (quotient x step) (conv + 1) n
      → (j : ℕ) → j < suc n
      → (below (divided step x j) step ≡ false) × (conv + j ≤ 3)
  earlier step x conv n big room best zero h = (big, omega arith)
  earlier step x conv n big room best (suc j) h =
      let (b, r) = best.first j (omega arith) in (b, omega (arith, r))

  one_more :
      (step : ℕ) (x : W) (conv n : ℕ)
      → below x step ≡ false
      → conv ≤ 3
      → IsBest step (quotient x step) (conv + 1) n
      → IsBest step x conv (suc n)
  one_more step x conv n big room best = record {
    ends = elim best.ends [ inl e ↦ inl e | inr e ↦ inr (omega (arith, e)) ];
    first = earlier step x conv n big room best;
  }

  -- With fuel for the units that are left the loop of the adaptive formats ends, and it takes the first unit in which
  -- the number is below the step, or the index past the last unit.
  pub adapt-IsBest :
      (fuel step : ℕ) (x : W) (conv : ℕ)
      → 4 < conv + fuel
      → (n : ℕ) × (adapt fuel step x conv ≡ conv + n) × IsBest step x conv n
  unfolding adapt
  adapt-IsBest zero step x conv h =
      (0, omega arith, record { ends = inr (omega arith); first = none_before step x conv })
  adapt-IsBest (suc fuel) step x conv h =
      if_intro (λ z. (n : ℕ) × (z ≡ conv + n) × IsBest step x conv n)
        (not (below x step) && leb conv 3)
        (λ go.
          let (n, e, best) = adapt-IsBest fuel step (quotient x step) (conv + 1) (omega arith) in
          (suc n, omega (arith, e), one_more step x conv n (ground arith) (ground arith) best))
        (λ stop. (
          0,
          omega arith,
          record {
            ends = elim (Bool-cases (below x step)) [ inl e ↦ inl e | inr e ↦ inr (ground arith) ];
            first = none_before step x conv;
          },
        ))

  abbrev pub scaled : W → ℕ → W
  scaled x format = if is_upper format then x else times x 8

  best_small : (step : ℕ) (x : W) (n : ℕ) → IsBest step x 0 n → n ≤ 4
  best_small step x zero best = omega arith
  best_small step x (suc n) best = let (b, r) = best.first n (omega arith) in omega (arith, r)

  five : (step : ℕ) (x : W) → adapt 5 step x 0 ≤ 4
  five step x =
      let (n, e, best) = adapt-IsBest 5 step x 0 (omega arith) in
      omega (arith, e, best_small step x n best)

  conversion_index_bound : (x : W) (format : ℕ) → conversion_index x format ≤ 4
  unfolding conversion_index
  conversion_index_bound x format = ground (arith, five 1024 x, five 1000 x)

  in_unit-none : (is_bytes : Bool) (x : W) (n : ℕ) → n ≤ 4 → (in_unit is_bytes x n ≡ none) ↔ (n ≡ 4)
  unfolding in_unit
  in_unit-none true x zero h = ground arith
  in_unit-none true x (suc zero) h = ground arith
  in_unit-none true x (suc (suc zero)) h = ground arith
  in_unit-none true x (suc (suc (suc zero))) h = ground arith
  in_unit-none true x (suc (suc (suc (suc n)))) h = (λ e. omega arith, λ e. refl)
  in_unit-none false x zero h = ground arith
  in_unit-none false x (suc zero) h = ground arith
  in_unit-none false x (suc (suc zero)) h = ground arith
  in_unit-none false x (suc (suc (suc zero))) h = ground arith
  in_unit-none false x (suc (suc (suc (suc n)))) h = (λ e. omega arith, λ e. refl)

  -- The number is not below the step in any of the four units.
  abbrev pub never_below : W → ℕ → Bool
  never_below x step =
      not (below x step)
      && not (below (divided step x 1) step)
      && not (below (divided step x 2) step)
      && not (below (divided step x 3) step)

  adapt-4 : (step : ℕ) (x : W) → (adapt 5 step x 0 ≡ 4) ↔ (never_below x step ≡ true)
  unfolding adapt
  adapt-4 step x = ladder _ _ _ _ _

  index-4 :
      (x : W) (format : ℕ)
      → (conversion_index x format ≡ 4)
        ↔ (is_adaptive format && never_below x (step_of format) ≡ true)
  unfolding conversion_index
  index-4 x format =
      choice (to_upper format == b'B') (to_upper format == b'K') (to_upper format == b'M')
        (to_upper format == b'G') (is_upper format) (λ step. adapt 5 step x 0) (never_below x)
        (λ step. adapt-4 step x)

  -- The tables of units are read past their ends exactly if the format does not give the unit, and the number that is printed,
  -- in bytes or in bits, is not below the step from one unit to the next in any of the four units.
  pub byte_snprintf-none :
      (x : W) (format : ℕ)
      → (byte_snprintf x format ≡ none)
        ↔ (is_adaptive format && never_below (scaled x format) (step_of format) ≡ true)
  unfolding byte_snprintf
  byte_snprintf-none x format =
      let table =
        in_unit-none (is_upper format) (scaled x format) (conversion_index (scaled x format) format)
          (conversion_index_bound (scaled x format) format) in
      let index = index-4 (scaled x format) format in
      (λ e. index.0 (table.0 e), λ e. table.1 (index.1 e))
