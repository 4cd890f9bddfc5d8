-- ===== src/Delay.antt =====
-- iperf2-code/compat/delay.c, as it is built with clock_gettime, nanosleep and the Kalman filter. The answers of the clock are
-- the input of the loops.
pub mod Late
use flexfcapf.Prelude.{
  ℕ, ◌+◌, ◌-◌, ◌*◌, Bool, true, false, ◌&&◌, ◌||◌, Option, none, some, List, [], ◌∷◌, ltb, leb,
  ◌==◌, if◌then◌else◌,
}
use flexfcapf.Prelude.Int.{ℤ, pos, sub_ℕ, pos_part, ltb_ℤ, ◌+ℤ◌, ◌*ℤ◌}
use flexfcapf.Prelude.Double.{Double, of_int, to_int, add_w, sub_w, mul_w, div_w, ltb_w}

abbrev pub billion : ℕ
billion = 1000000000

-- `struct timespec`
pub record Timespec : Type 0 where
  pub sec : ℕ
  pub nsec : ℕ

abbrev pub carry : Timespec → Timespec
carry t = if leb billion t.nsec then record { sec = t.sec + 1; nsec = t.nsec - billion } else t

unfoldable pub timespec_add_ulong : Timespec → ℕ → Timespec
timespec_add_ulong t value = carry (record { sec = t.sec; nsec = t.nsec + value })

unfoldable pub timespec_add : Timespec → Timespec → Timespec
timespec_add t0 t1 = carry (record { sec = t0.sec + t1.sec; nsec = t0.nsec + t1.nsec })

unfoldable pub timespec_greaterthan : Timespec → Timespec → Bool
timespec_greaterthan t1 t0 = ltb t0.sec t1.sec || t0.sec == t1.sec && ltb t0.nsec t1.nsec

-- The loop that reads the clock until it is past a time: the reading that ends it, or nothing as long as it runs.
unfoldable pub wait_past : Timespec → List Timespec → Option Timespec
unfolding timespec_greaterthan
wait_past finish [] = none
wait_past finish (t ∷ later) =
    let rest = wait_past finish later in if timespec_greaterthan t finish then some t else rest

-- `delay_busyloop`, whose first reading is `now`.
unfoldable pub delay_busyloop : ℕ → Timespec → List Timespec → Option Timespec
unfolding timespec_add_ulong wait_past
delay_busyloop usec now readings = wait_past (timespec_add_ulong now (usec * 1000)) readings

-- What `delay_nanosleep` asks for.
unfoldable pub delay_nanosleep : ℕ → Timespec
delay_nanosleep usec = record { sec = 0; nsec = usec * 1000 }

-- `kalman_state`
pub record KalmanState (W : Type 0) : Type 0 where
  pub q : W
  pub r : W
  pub x : W
  pub p : W
  pub k : W

-- What a call of `delay_kalman` comes to: it still reads the clock; the conversion to an unsigned number of a value below
-- zero is undefined; or it has ended, with the time that it asked nanosleep for, the last reading and the state.
pub data Outcome (W : Type 0) : Type 0 where
  running : Outcome W
  undefined : Outcome W
  ended : Option Timespec → Timespec → KalmanState W → Outcome W

module _ {W : Type 0} ⦃d : Double W⦄ where
  unfoldable pub kalman_update : KalmanState W → W → KalmanState W
  kalman_update s measurement =
      let p = add_w s.p s.q in
      let k = div_w p (add_w p s.r) in
      record s {
        p = mul_w (sub_w (of_int (pos 1)) k) p;
        k = k;
        x = add_w s.x (mul_w k (sub_w measurement s.x));
      }

  -- `(unsigned long) value`
  abbrev pub to_ulong : W → Option ℕ
  to_ulong value = let n = to_int value in if ltb_ℤ n (pos 0) then none else some (pos_part n)

  -- `timespec_add_double`
  unfoldable pub timespec_add_double : Timespec → W → Option Timespec
  timespec_add_double t value = elim (to_ulong value) [
    | none ↦ none
    | some n ↦ some (carry (record { sec = t.sec; nsec = t.nsec + n }))
  ]

  -- `timespec_diff`
  unfoldable pub timespec_diff : Timespec → Timespec → W
  timespec_diff t1 t0 =
      let borrow : Bool = ltb t1.nsec t0.nsec in
      let nsec : ℕ = if borrow then t1.nsec + billion else t1.nsec in
      let owed : ℕ = if borrow then 1 else 0 in
      of_int (sub_ℕ t1.sec (owed + t0.sec) *ℤ pos billion +ℤ sub_ℕ nsec t0.nsec)

  abbrev pub once_past : (Timespec → Outcome W) → Option Timespec → Outcome W
  once_past f none = running
  once_past f (some t) = f t

  -- What is left to do once the time to wait for is known.
  unfoldable pub wait_kalman :
      ℕ → W → Timespec → List Timespec → KalmanState W → Option Timespec → Outcome W
  unfolding timespec_add timespec_diff kalman_update wait_past
  wait_kalman usec adjusted now readings s none = undefined
  wait_kalman usec adjusted now readings s (some requested) =
      let asked : Option Timespec =
        if ltb_w (of_int (pos 10000)) adjusted then some requested else none in
      once_past
        (λ t2.
          ended asked t2
            (kalman_update s (sub_w (timespec_diff t2 now) (of_int (pos (usec * 1000))))))
        (wait_past (timespec_add now requested) readings)

  -- `delay_kalman`, which is `delay_loop`.
  unfoldable pub delay_kalman : ℕ → Timespec → List Timespec → KalmanState W → Outcome W
  unfolding timespec_add_double wait_kalman
  delay_kalman usec now readings s =
      let adjusted = sub_w (of_int (pos (usec * 1000))) s.x in
      wait_kalman usec adjusted now readings s
        (timespec_add_double (record { sec = 0; nsec = 0 }) adjusted)
