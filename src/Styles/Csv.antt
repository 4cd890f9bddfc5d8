-- ===== src/Styles/Csv.antt =====
-- `CSV_stats` of iperf2-code/src/ReportCSV.c. The time stamp, which `strftime` makes, and the conversion of a `double` to an
-- integer of 64 bits are parameters.
use Prim.Native.String.{String}
use flexfcapf.Prelude.{Option, none, some, List, [], ◌∷◌, if◌then◌else◌, ltb}
use flexfcapf.Prelude.Int.{ℤ, pos}
use flexfcapf.Prelude.Double.{Double, of_int, to_int, sub_w, mul_w, div_w}
use flexfcapf.Settings.{is_server, TransferInfo}
use flexfcapf.Styles.{Arg, text, int, wide, double, Format, Line, print}
use flexfcapf.Styles.Default.{bytes, millis, percent}

-- The addresses of `CSV_peer`, or the empty columns for them.
abbrev pub addresses : Option String → String
addresses none = ",,,"
addresses (some a) = a

module _ {W : Type 0} ⦃d : Double W⦄ where
  -- Bits a second.
  abbrev pub csv_speed : TransferInfo W → ℤ
  csv_speed s =
      if ltb 0 s.total_len
      then to_int (div_w (mul_w (bytes s) (of_int (pos 8))) (sub_w s.end_time s.start_time))
      else pos 0

  abbrev pub of_csv : String → TransferInfo W → List (Arg W) → List (Arg W)
  of_csv timestamp s rest =
      text timestamp
      ∷ text (addresses s.reserved_delay)
      ∷ int s.transfer_id
      ∷ double s.start_time
      ∷ double s.end_time
      ∷ wide (pos s.total_len)
      ∷ wide (csv_speed s)
      ∷ rest

  -- `CSV_stats`
  unfoldable pub csv_stats : String → TransferInfo W → Line W
  csv_stats timestamp s =
      if is_server s.udp
      then print Format.csv_jitter_loss (
          of_csv timestamp s (
            double (millis s.jitter)
            ∷ wide s.cnt_error
            ∷ wide s.cnt_datagrams
            ∷ double (percent s)
            ∷ wide s.cnt_outof_order
            ∷ []))
      else print Format.csv_bw (of_csv timestamp s [])
