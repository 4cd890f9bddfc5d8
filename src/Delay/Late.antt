-- ===== src/Delay/Late.antt =====
-- How long the loops of iperf2-code/compat/delay.c wait.
use flexfcapf.Prelude.{
  ℕ, ◌+◌, ◌*◌, ◌≤◌, ◌<◌, ◌≡◌, refl, ap, ap₂, sym, subst, ◌∙◌, Bool, true, false, ◌||◌, Option, none,
  some, List, [], ◌∷◌, ltb, if◌then◌else◌, Returns, arith,
}
use flexfcapf.Prelude.Int.{pos, pos_part, ltb_ℤ}
use flexfcapf.Prelude.Double.{Double, of_int, to_int, sub_w}
use flexfcapf.Delay.{
  Timespec, carry, timespec_add_ulong, timespec_add, timespec_greaterthan, wait_past, once_past,
  delay_busyloop, KalmanState, Outcome, running, undefined, ended, timespec_add_double, wait_kalman,
  delay_kalman,
}

-- A time in nanoseconds.
abbrev pub nanos : Timespec → ℕ
nanos t = t.sec * 1000000000 + t.nsec

abbrev pub IsTime : Timespec → Type 0
IsTime t = t.nsec < 1000000000

abbrev pub AreTimes : List Timespec → Type 0
AreTimes [] = Unit
AreTimes (t ∷ ts) = IsTime t × AreTimes ts

greaterthan_is :
    (t1 t0 : Timespec)
    → IsTime t1
    → IsTime t0
    → timespec_greaterthan t1 t0 ≡ ltb (nanos t0) (nanos t1)
unfolding timespec_greaterthan
greaterthan_is t1 t0 h k = ground arith

carry_is : (t : Timespec) → t.nsec < 2 * 1000000000 → (nanos (carry t) ≡ nanos t) × IsTime (carry t)
carry_is t h = ground arith

-- The first reading of the clock past a time in nanoseconds.
abbrev pub first_past : ℕ → List Timespec → Option Timespec
first_past n [] = none
first_past n (t ∷ ts) = if ltb n (nanos t) then some t else first_past n ts

abbrev pub any_past : ℕ → List Timespec → Bool
any_past n [] = false
any_past n (t ∷ ts) = ltb n (nanos t) || any_past n ts

-- The delay is over with the first reading past a time, and there is such a reading.
abbrev pub EndsPast : ℕ → List Timespec → Timespec → Type 0
EndsPast n readings t = (first_past n readings ≡ some t) × (n < nanos t)

wait_past-first_past :
    (finish : Timespec) (readings : List Timespec)
    → IsTime finish
    → AreTimes readings
    → wait_past finish readings ≡ first_past (nanos finish) readings
unfolding wait_past
wait_past-first_past finish [] h k = refl
wait_past-first_past finish (t ∷ ts) h (k, ks) =
    ap₂ (λ (b : Bool) (o : Option Timespec). if b then some t else o) (greaterthan_is t finish k h)
      (wait_past-first_past finish ts h ks)

pick :
    (b : Bool) (n : ℕ) (t : Timespec) (o : Option Timespec)
    → (b ≡ true → n < nanos t)
    → (b ≡ false → Returns (λ u. (o ≡ some u) × (n < nanos u)) o)
    → Returns (λ u. ((if b then some t else o) ≡ some u) × (n < nanos u)) (if b then some t else o)
pick true n t o h k = (refl, h refl)
pick false n t o h k = k refl

first_past-EndsPast :
    (n : ℕ) (readings : List Timespec)
    → any_past n readings ≡ true
    → Returns (EndsPast n readings) (first_past n readings)
first_past-EndsPast n [] h = absurd (ground arith)
first_past-EndsPast n (t ∷ ts) h =
    pick (ltb n (nanos t)) n t (first_past n ts) (λ q. ground arith)
      (λ q. first_past-EndsPast n ts (ground arith))

-- Waiting for a time whose nanoseconds are `n`.
wait_past-EndsPast :
    (n : ℕ) (finish : Timespec) (readings : List Timespec)
    → nanos finish ≡ n
    → IsTime finish
    → AreTimes readings
    → any_past n readings ≡ true
    → Returns (EndsPast n readings) (wait_past finish readings)
wait_past-EndsPast n finish readings e i k past =
    subst (Returns (EndsPast n readings))
      (sym (wait_past-first_past finish readings i k ∙ ap (λ m. first_past m readings) e))
      (first_past-EndsPast n readings past)

-- A busy loop of at most a second ends once the clock is past its time, with the first reading that is.
pub delay_busyloop-EndsPast :
    (usec : ℕ) (now : Timespec) (readings : List Timespec)
    → usec ≤ 1000000
    → IsTime now
    → AreTimes readings
    → any_past (nanos now + usec * 1000) readings ≡ true
    → Returns (EndsPast (nanos now + usec * 1000) readings) (delay_busyloop usec now readings)
unfolding delay_busyloop timespec_add_ulong
delay_busyloop-EndsPast usec now readings h i k past =
    let sum : Timespec = record { sec = now.sec; nsec = now.nsec + usec * 1000 } in
    let c = carry_is sum (omega arith) in
    wait_past-EndsPast (nanos now + usec * 1000) (carry sum) readings (omega (arith, c.0)) c.1 k
      past

as_it_is : (n : ℕ) → (if ltb_ℤ (pos n) (pos 0) then none else some (pos_part (pos n))) ≡ some n
as_it_is n = ground arith

module _ {W : Type 0} ⦃d : Double W⦄ where
  -- The call has ended past a time.
  abbrev pub EndedPast : ℕ → List Timespec → Outcome W → Type 0
  EndedPast n readings running = ⊥
  EndedPast n readings undefined = ⊥
  EndedPast n readings (ended asked t s) = EndsPast n readings t

  once_past-EndedPast :
      (n : ℕ) (readings : List Timespec) (f : Timespec → Outcome W) (o : Option Timespec)
      → ((t : Timespec) → EndsPast n readings t → EndedPast n readings (f t))
      → Returns (EndsPast n readings) o
      → EndedPast n readings (once_past f o)
  once_past-EndedPast n readings f none h k = absurd k
  once_past-EndedPast n readings f (some t) h k = h t k

  wait_kalman-EndedPast :
      (usec n : ℕ) (adjusted : W) (now requested : Timespec) (readings : List Timespec)
      (s : KalmanState W)
      → nanos (timespec_add now requested) ≡ n
      → IsTime (timespec_add now requested)
      → AreTimes readings
      → any_past n readings ≡ true
      → EndedPast n readings (wait_kalman usec adjusted now readings s (some requested))
  unfolding wait_kalman
  wait_kalman-EndedPast usec n adjusted now requested readings s e i k past =
      once_past-EndedPast n readings _ _ (λ t h. h)
        (wait_past-EndsPast n (timespec_add now requested) readings e i k past)

  zero_add :
      (n : ℕ) (v : W)
      → to_int v ≡ pos n
      → timespec_add_double (record { sec = 0; nsec = 0 }) v
        ≡ some (carry (record { sec = 0; nsec = n }))
  unfolding timespec_add_double
  zero_add n v e =
      let converted =
        ap (λ z. if ltb_ℤ z (pos 0) then none else some (pos_part z)) e ∙ as_it_is n in
      ap
        (λ (o : Option ℕ). elim o [
          | none ↦ none
          | some m ↦ some (carry (record { sec = 0; nsec = 0 + m }))
        ])
        converted
      ∙ ap (λ m. some (carry (record { sec = 0; nsec = m }))) (omega arith)

  -- A delay whose time, less the error that the filter predicts, is from 0 to less than two seconds ends once the clock is past
  -- the time that is left, with the first reading that is.
  pub delay_kalman-EndedPast :
      (usec n : ℕ) (now : Timespec) (readings : List Timespec) (s : KalmanState W)
      → to_int (sub_w (of_int (pos (usec * 1000))) s.x) ≡ pos n
      → n < 2000000000
      → IsTime now
      → AreTimes readings
      → any_past (nanos now + n) readings ≡ true
      → EndedPast (nanos now + n) readings (delay_kalman usec now readings s)
  unfolding delay_kalman timespec_add
  delay_kalman-EndedPast usec n now readings s e h i k past =
      let a = carry_is (record { sec = 0; nsec = n }) (omega arith) in
      let asked = carry (record { sec = 0; nsec = n }) in
      let b =
        carry_is (record { sec = now.sec + asked.sec; nsec = now.nsec + asked.nsec })
          (omega (arith, a.1)) in
      subst
        (λ o.
          EndedPast (nanos now + n) readings
            (wait_kalman usec (sub_w (of_int (pos (usec * 1000))) s.x) now readings s o))
        (sym (zero_add n _ e))
        (wait_kalman-EndedPast usec (nanos now + n) _ now asked readings s (omega (arith, a.0, b.0))
          b.1 k past)
