-- ===== src/Styles/Default.antt =====
-- `reporter_printstats`, `reporter_multistats` and `reporter_serverstats` of iperf2-code/src/ReportDefault.c. The reset of the
-- latencies at the end of the first is part of the interval reports.
use flexfcapf.Prelude.{
  ℕ, ◌-◌, Bool, true, not, ◌&&◌, ◌||◌, Option, some, List, [], ◌∷◌, ◌++◌, ◌==◌, if◌then◌else◌,
  ◌>>=◌, ltb, get_or,
}
use flexfcapf.Prelude.Int.{pos, negsuc, ltb_ℤ, eqb_ℤ}
use flexfcapf.Prelude.Double.{Double, of_int, sub_w, mul_w, div_w, ltb_w}
use flexfcapf.Settings.{is_set, is_server, is_client, TransferInfo}
use flexfcapf.Numbers.{to_upper, byte_snprintf}
use flexfcapf.Styles.{Arg, amount, int, wide, double, Format, Line, print}

-- The two texts of `buffer`, of the bytes and of the bytes a second.
abbrev pub Amounts : Type 0 → Type 0
Amounts W = Arg W × Arg W

abbrev pub line_if : {W : Type 0} → Bool → Line W → List (Line W)
line_if test line = if test then line ∷ [] else []

module _ {W : Type 0} ⦃d : Double W⦄ where
  abbrev pub amounts_of : W → W → ℕ → Option (Amounts W)
  amounts_of total speed format = byte_snprintf total (to_upper format) >>= λ a.
      byte_snprintf speed format >>= λ b. some (amount a, amount b)

  abbrev pub bytes : TransferInfo W → W
  bytes s = of_int (pos s.total_len)

  abbrev pub speed : TransferInfo W → W
  speed s = div_w (bytes s) (sub_w s.end_time s.start_time)

  -- What every line of a sum begins with, and every line of a transfer.
  abbrev pub of_sum : TransferInfo W → Amounts W → List (Arg W)
  of_sum s a = double s.start_time ∷ double s.end_time ∷ a.0 ∷ a.1 ∷ []

  abbrev pub of_transfer : TransferInfo W → Amounts W → List (Arg W)
  of_transfer s a = int s.transfer_id ∷ of_sum s a

  abbrev pub bin : ℕ → TransferInfo W → Arg W
  bin i s = int (pos (get_or s.tcp.read.bins i 0))

  abbrev pub of_reads : TransferInfo W → List (Arg W)
  of_reads s =
      int (pos s.tcp.read.cnt_read)
      ∷ bin 0 s
      ∷ bin 1 s
      ∷ bin 2 s
      ∷ bin 3 s
      ∷ bin 4 s
      ∷ bin 5 s
      ∷ bin 6 s
      ∷ bin 7 s
      ∷ []

  abbrev pub percent : TransferInfo W → W
  percent s = div_w (mul_w (of_int (pos 100)) (of_int s.cnt_error)) (of_int s.cnt_datagrams)

  abbrev pub of_loss : W → W → TransferInfo W → List (Arg W)
  of_loss jitter lost s = double jitter ∷ wide s.cnt_error ∷ wide s.cnt_datagrams ∷ double lost ∷ []

  abbrev pub millis : W → W
  millis x = mul_w x (of_int (pos 1000))

  -- Packets a second.
  abbrev pub pps_of : TransferInfo W → W
  pps_of s = div_w (of_int s.ipg_cnt) s.ipg_sum

  abbrev pub pps_or_zero : TransferInfo W → W
  pps_or_zero s = if eqb_ℤ s.ipg_cnt (pos 0) then of_int (pos 0) else pps_of s

  -- `UNREALISTIC_LATENCYMINMAX` and `UNREALISTIC_LATENCYMINMIN`
  abbrev pub is_unrealistic : TransferInfo W → Bool
  is_unrealistic s =
      ltb_w (of_int (pos 60)) s.transit.min_transit
      || ltb_w s.transit.min_transit (of_int (negsuc 0))

  -- The average, least and greatest latency and its deviation; `sqrt` is the C library's.
  abbrev pub of_latency : (W → W) → TransferInfo W → List (Arg W)
  of_latency sqrt s =
      double (millis (div_w s.transit.sum_transit (of_int (pos s.transit.cnt_transit))))
      ∷ double (millis s.transit.min_transit)
      ∷ double (millis s.transit.max_transit)
      ∷ double (
          if ltb s.transit.cnt_transit 2
          then of_int (pos 0)
          else div_w (sqrt (div_w s.transit.m2_transit (of_int (pos (s.transit.cnt_transit - 1)))))
              (of_int (pos 1000)))
      ∷ []

  -- The line with the names of the columns.
  unfoldable pub header_line : TransferInfo W → Line W
  header_line s =
      if not (is_set s.udp)
      then (if not s.enhanced
          then print Format.bw_header []
          else let args =
              double (div_w (of_int (pos s.tcp.read.binsize)) (of_int (pos 1024))) ∷ [] in
            if is_server s.tcp_mode
            then print Format.read_header args
            else print Format.write_header args)
      else if is_client s.udp
      then (if s.enhanced then print Format.pps_header [] else print Format.bw_header [])
      else (if s.enhanced
          then print Format.jitter_header []
          else print Format.jitter_loss_header [])

  -- The line of a TCP transfer.
  unfoldable pub tcp_line : TransferInfo W → Amounts W → Line W
  tcp_line s a =
      let write = s.tcp.write in
      if not s.enhanced
      then print Format.bw (of_transfer s a)
      else if is_server s.tcp_mode
      then print Format.read (of_transfer s a ++ of_reads s)
      else print Format.write (
          of_transfer s a
          ++ (int (pos write.write_cnt)
              ∷ int (pos write.write_err)
              ∷ int write.tcp_retry
              ∷ int (pos write.cwnd)
              ∷ int (pos write.rtt)
              ∷ []))

  -- The line of a UDP client; without -e its last argument has no conversion.
  unfoldable pub udp_client_line : TransferInfo W → Amounts W → Line W
  udp_client_line s a =
      let args = of_transfer s a ++ (double (pps_or_zero s) ∷ []) in
      if s.enhanced then print Format.pps args else print Format.bw args

  -- The line of a UDP server; without gaps between datagrams some zeros have no conversion.
  unfoldable pub udp_server_line : (W → W) → TransferInfo W → Amounts W → Line W
  udp_server_line sqrt s a =
      let zero_w = of_int (pos 0) in
      let loss = of_transfer s a ++ of_loss (millis s.jitter) (percent s) s in
      if not (eqb_ℤ s.ipg_cnt (pos 0))
      then (if s.enhanced
          then (if is_unrealistic s
              then print Format.jitter_suppress (loss ++ (double (pps_of s) ∷ []))
              else print Format.jitter (loss ++ (of_latency sqrt s ++ (double (pps_of s) ∷ []))))
          else print Format.jitter_loss loss)
      else let zeros =
          of_transfer s a
          ++ (of_loss zero_w zero_w s
              ++ (double zero_w
                  ∷ double zero_w
                  ∷ double zero_w
                  ∷ double zero_w
                  ∷ double zero_w
                  ∷ [])) in
        if s.enhanced then print Format.jitter_suppress zeros else print Format.jitter_loss zeros

  -- The numbers of datagrams that came late, and of those sent by a client that has ended.
  abbrev pub late_lines : TransferInfo W → List (Line W)
  late_lines s =
      line_if (is_set s.udp && (not (is_client s.udp) && ltb_ℤ (pos 0) s.cnt_outof_order)) (
        print Format.outoforder (
          int s.transfer_id
          ∷ double s.start_time
          ∷ double s.end_time
          ∷ wide s.cnt_outof_order
          ∷ []))

  abbrev pub sent_lines : TransferInfo W → List (Line W)
  sent_lines s =
      line_if (s.free == 1 && is_client s.udp)
        (print Format.datagrams (int s.transfer_id ∷ wide s.cnt_datagrams ∷ []))

  -- `reporter_printstats`: the lines, and `header_printed`; no result where `byte_snprintf` reads past its tables.
  unfoldable pub print_stats : (W → W) → Bool → TransferInfo W → Option (List (Line W) × Bool)
  unfolding header_line tcp_line udp_client_line udp_server_line
  print_stats sqrt header_printed s =
      amounts_of (bytes s) (if ltb 0 s.total_len then speed s else of_int (pos 0)) s.format >>= λ a.
      let line =
        if not (is_set s.udp)
        then tcp_line s a
        else if is_client s.udp
        then udp_client_line s a
        else udp_server_line sqrt s a in
      some (
        line_if (not header_printed) (header_line s) ++ (line ∷ (late_lines s ++ sent_lines s)),
        true,
      )

  -- The line of a sum.
  unfoldable pub sum_line : TransferInfo W → Amounts W → Line W
  sum_line s a =
      let write = s.tcp.write in
      if not s.enhanced
      then (if is_server s.udp
          then print Format.sum_jitter_loss (of_sum s a ++ of_loss (millis s.jitter) (percent s) s)
          else print Format.sum_bw (of_sum s a))
      else if is_set s.udp
      then print Format.sum_pps (of_sum s a ++ (double (pps_or_zero s) ∷ []))
      else if is_client s.tcp_mode
      then print Format.sum_write (
          of_sum s a
          ++ (int (pos write.write_cnt) ∷ int (pos write.write_err) ∷ int write.tcp_retry ∷ []))
      else print Format.sum_read (of_sum s a ++ of_reads s)

  -- `reporter_multistats`
  unfoldable pub multi_stats : TransferInfo W → Option (List (Line W))
  unfolding sum_line
  multi_stats s = amounts_of (bytes s) (speed s) s.format >>= λ a. some (
      sum_line s a
      ∷ (line_if (is_server s.udp && ltb_ℤ (pos 0) s.cnt_outof_order) (
            print Format.sum_outoforder
              (double s.start_time ∷ double s.end_time ∷ wide s.cnt_outof_order ∷ []))
          ++ line_if (s.free == 1 && is_client s.udp)
              (print Format.sum_datagrams (wide s.cnt_datagrams ∷ []))))

  -- `reporter_serverstats`
  unfoldable pub server_stats : (W → W) → Bool → TransferInfo W → Option (List (Line W) × Bool)
  server_stats sqrt header_printed s = print_stats sqrt header_printed s >>= λ x.
      some (print Format.server_reporting (int s.transfer_id ∷ []) ∷ x.0, x.1)
