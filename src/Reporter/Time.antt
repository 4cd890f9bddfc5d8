-- ===== src/Reporter/Time.antt =====
-- The macros `TimeDifference` and `TimeAdd` of iperf2-code/include/Reporter.h.
use flexfcapf.Prelude.{ℕ, ◌+◌, ◌-◌, ◌*◌, ◌≤◌, ◌<◌, ◌≡◌, ltb, if◌then◌else◌, arith}
use flexfcapf.Prelude.Int.{pos, sub_ℕ}
use flexfcapf.Prelude.Double.{Double, of_int, add_w, div_w}
use flexfcapf.Settings.{Timeval}

abbrev pub million : ℕ
million = 1000000

-- (left.tv_sec - right.tv_sec) + (left.tv_usec - right.tv_usec) / ((double) rMillion)
abbrev pub time_difference : {W : Type 0} ⦃d : Double W⦄ → Timeval → Timeval → W
time_difference left right =
    add_w (of_int (sub_ℕ left.sec right.sec))
      (div_w (of_int (sub_ℕ left.usec right.usec)) (of_int (pos million)))

unfoldable pub time_add : Timeval → Timeval → Timeval
time_add left right =
    let usec : ℕ = left.usec + right.usec in
    if ltb million usec
    then record { sec = left.sec + 1 + right.sec; usec = usec - million }
    else record { sec = left.sec + right.sec; usec = usec }

-- A time in microseconds.
abbrev pub micros : Timeval → ℕ
micros t = t.sec * million + t.usec

-- `TimeAdd` adds the microseconds.
pub micros-time_add : (l r : Timeval) → micros (time_add l r) ≡ micros l + micros r
unfolding time_add
micros-time_add l r = ground arith

-- `TimeAdd` of two times whose microseconds are at most a million, the second one's fewer, leaves at
-- most a million microseconds.
pub usec-time_add :
    (l r : Timeval) → l.usec ≤ million → r.usec < million → (time_add l r).usec ≤ million
unfolding time_add
usec-time_add l r hl hr = ground arith
