-- ===== src/Tests/Waits.antt =====
-- The delays.
use flexfcapf.Prelude.{◌+◌, refl, List, [], ◌∷◌, arith}
use flexfcapf.Prelude.Int.{ℤ, pos}
use flexfcapf.Delay.{Timespec, KalmanState, delay_kalman}
use flexfcapf.Delay.Late.{nanos, EndedPast, delay_kalman-EndedPast}
use flexfcapf.Tests.Fixed.{fixed, fixed-whole}

-- The clock shortly before a full second, and three readings of it.
abbrev now : Timespec
now = record { sec = 7; nsec = 999999000 }

abbrev readings : List Timespec
readings =
    record { sec = 7; nsec = 999999500 }
    ∷ record { sec = 8; nsec = 3000 }
    ∷ record { sec = 8; nsec = 3001 }
    ∷ []

abbrev settled : KalmanState ℤ
settled = record { q = pos 0; r = pos 1; x = pos 0; p = pos 1; k = pos 0 }

delay_kalman-EndedPast_example :
    EndedPast (nanos now + 4000) readings (delay_kalman 4 now readings settled)
delay_kalman-EndedPast_example =
    delay_kalman-EndedPast 4 4000 now readings settled fixed-whole (omega arith) (omega arith)
      (omega arith, (omega arith, (omega arith, tt))) refl
