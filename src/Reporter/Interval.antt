-- ===== src/Reporter/Interval.antt =====
-- `reporter_condprintstats` of iperf2-code/src/Reporter.c with `gettcpistats` and `reporter_print`: the
-- report of each interval that a packet has passed, and the final report.
pub mod Bytes
pub mod Kept
pub mod End
pub mod Packets
pub mod Total
use flexfcapf.Prelude.{
  ℕ, zero, suc, ◌+◌, ◌-◌, ◌*◌, ◌/◌, ◌%◌, ◌^◌, Bool, true, false, not, ◌&&◌, ◌||◌, Option, none,
  some, List, [], ◌∷◌, ◌++◌, ◌==◌, if◌then◌else◌, ◌>>=◌,
}
use flexfcapf.Prelude.Int.{ℤ, pos, ◌+ℤ◌, ◌-ℤ◌, ltb_ℤ}
use flexfcapf.Prelude.Double.{Double, of_int, to_int, div_w, ltb_w}
use flexfcapf.Settings.{
  ThreadMode, ReportMode, default, csv, is_server, is_client, is_set, is_udp, is_print_mss,
  is_multiple_report, TransitStats, TcpStats, ReportStruct, TransferInfo, ReporterData,
}
use flexfcapf.Reporter.Time.{time_difference, time_add}
use flexfcapf.Reporter.Packet.{count_packet}
use flexfcapf.Reporter.Multi.{Output, transfer, mss, MultiHeader, handle_multiple_reports}

-- What `getsockopt( TCP_INFO )` leaves in `tcp_internal`.
pub record TcpInfo : Type 0 where
  pub total_retrans : ℕ
  pub snd_cwnd : ℕ
  pub snd_mss : ℕ
  pub rtt : ℕ

-- One call of `getsockopt`: whether it succeeded, and the structure after it.
abbrev pub Probe : Type 0
Probe = Bool × TcpInfo

-- A transfer, the sum that it belongs to, the static `num_multi_slots`, and what has been printed.
pub record Reporting (W : Type 0) : Type 0 where
  pub num_slots : ℕ
  pub stats : ReporterData W
  pub multi : Option (MultiHeader W)
  pub out : List (Output W)

module _ {W : Type 0} where
  -- `gettcpistats`
  unfoldable pub get_tcp_stats : Probe → ReporterData W → ReporterData W
  get_tcp_stats (ok, t) r =
      let w = r.info.tcp.write in
      let retry = if ok then pos t.total_retrans -ℤ w.last_tcp_retry else pos 0 in
      if r.info.enhanced && is_client r.info.tcp_mode
      then record r {
        info = record r.info {
          tcp = record r.info.tcp {
            write = record w {
              tcp_retry = retry;
              tot_tcp_retry = w.tot_tcp_retry +ℤ retry;
              last_tcp_retry = pos t.total_retrans;
              cwnd = t.snd_cwnd * t.snd_mss % 2 ^ 32 / 1024;
              rtt = t.rtt;
            };
          };
        };
      }
      else r

  -- The end of `reporter_printstats`: the figures of the interval start anew.
  unfoldable pub reset_transit : ⦃d : Double W⦄ → TransitStats W → TransitStats W
  reset_transit ⦃d⦄ t = record t {
    min_transit = t.last_transit;
    max_transit = t.last_transit;
    sum_transit = t.last_transit;
    cnt_transit = 0;
    vd_transit = of_int (pos 0);
    mean_transit = of_int (pos 0);
    m2_transit = of_int (pos 0);
  }

  -- `statistics_reports[mode]` on the report itself.
  unfoldable pub print_statistics : ⦃d : Double W⦄ → ReportMode → TransferInfo W → TransferInfo W
  print_statistics ⦃d⦄ default i =
      if i.enhanced && is_set i.udp then record i { transit = reset_transit i.transit } else i
  print_statistics ⦃d⦄ csv i = i

-- Lost datagrams, "conditionally" less the late ones.
abbrev pub less_late : ℤ → ℤ → ℤ
less_late error late = if ltb_ℤ (error -ℤ late) (pos 0) then pos 0 else error -ℤ late

unfoldable pub total_tcp : ThreadMode → TcpStats → TcpStats
total_tcp mode t = record {
  read =
      if is_server mode
      then record t.read { cnt_read = t.read.totcnt_read; bins = t.read.totbins }
      else t.read;
  write =
      if is_client mode
      then record t.write {
        write_err = t.write.tot_write_err;
        write_cnt = t.write.tot_write_cnt;
        tcp_retry = t.write.tot_tcp_retry;
      }
      else t.write;
}

-- `umax_size_t` subtraction
abbrev pub sub_len : ℕ → ℕ → ℕ
sub_len a b = (a + 2 ^ 64 - b) % 2 ^ 64

module _ {W : Type 0} ⦃d : Double W⦄ where
  -- `reporter_print( stats, TRANSFER_REPORT, end )`
  unfoldable pub print_transfer : Bool → ReporterData W → ReporterData W × List (Output W)
  print_transfer end r = (
    record r { info = print_statistics r.mode r.info },
    transfer r.mode r.info
        ∷ (if end && is_print_mss r.flags && not (is_udp r.flags)
            then mss r.info.transfer_id ∷ []
            else []),
  )

  -- The datagram count of a report: a server goes by the highest number seen.
  abbrev pub datagrams : ReporterData W → ℤ
  datagrams r = if is_server r.info.udp then r.packet_id else r.cnt_datagrams

  unfoldable pub total_transit : TransitStats W → TransitStats W
  total_transit t = record t {
    min_transit = t.totmin_transit;
    max_transit = t.totmax_transit;
    cnt_transit = t.totcnt_transit;
    sum_transit = t.totsum_transit;
    mean_transit = t.totmean_transit;
    m2_transit = t.totm2_transit;
    vd_transit = t.totvd_transit;
  }

  -- The figures of the final report.
  unfoldable pub final_info : ReporterData W → TransferInfo W
  final_info r =
      let end = time_difference r.packet_time r.start_time in
      record r.info {
        cnt_outof_order = r.cnt_outof_order;
        cnt_error = less_late r.cnt_error r.cnt_outof_order;
        cnt_datagrams = datagrams r;
        total_len = r.total_len;
        start_time = of_int (pos 0);
        end_time = end;
        transit = total_transit r.info.transit;
        tcp = total_tcp r.info.tcp_mode r.info.tcp;
        ipg_cnt =
            if ltb_w (of_int (pos 0)) end
            then to_int (div_w (of_int r.cnt_datagrams) end)
            else pos 0;
        ipg_sum = of_int (pos 1);
        free = 1;
      }

  -- The figures of an interval report, and the totals that the next one starts from.
  unfoldable pub next_interval : ReporterData W → ReporterData W
  next_interval r =
      let late = r.cnt_outof_order -ℤ r.last_outof_order in
      record r {
        last_outof_order = r.cnt_outof_order;
        last_error = r.cnt_error;
        last_datagrams = datagrams r;
        last_total = r.total_len;
        next_time = time_add r.next_time r.interval_time;
        info = record r.info {
          cnt_outof_order = late;
          cnt_error = less_late (r.cnt_error -ℤ r.last_error) late;
          cnt_datagrams = datagrams r -ℤ r.last_datagrams;
          total_len = sub_len r.total_len r.last_total;
          start_time = r.info.end_time;
          end_time = time_difference r.next_time r.start_time;
          free = 0;
        };
      }

  -- "Reset transfer stats now that both the individual and SUM reports have completed"
  unfoldable pub reset_interval : TransferInfo W → TransferInfo W
  reset_interval i = record i {
    ipg_cnt = if is_set i.udp then pos 0 else i.ipg_cnt;
    ipg_sum = if is_set i.udp then of_int (pos 0) else i.ipg_sum;
    tcp = record {
      read =
          if i.enhanced && is_server i.tcp_mode
          then record i.tcp.read { cnt_read = 0; bins = 0 ∷ 0 ∷ 0 ∷ 0 ∷ 0 ∷ 0 ∷ 0 ∷ 0 ∷ [] }
          else i.tcp.read;
      write =
          if i.enhanced && is_client i.tcp_mode
          then record i.tcp.write { write_cnt = 0; write_err = 0 }
          else i.tcp.write;
    };
  }

  -- `if ( isMultipleReport(stats) )`
  unfoldable pub add_to_sum :
      ℕ
      → Bool
      → ReporterData W
      → Option (MultiHeader W)
      → Option (Option (MultiHeader W) × List (Output W))
  add_to_sum num force r multi =
      if is_multiple_report r.flags
      then handle_multiple_reports num multi r.info force
      else some (multi, [])

  -- Print the report, then add it to the sum.
  unfoldable pub report_transfer : Bool → Reporting W → Option (Reporting W)
  report_transfer force s =
      let (r, out) = print_transfer force s.stats in
      do
        (multi, sums) ← add_to_sum s.num_slots force r s.multi
        some (record {
          num_slots = s.num_slots;
          stats = r;
          multi = multi;
          out = s.out ++ (out ++ sums);
        })

  -- The branch `if ( force )`.
  unfoldable pub report_final : Probe → Reporting W → Option (Reporting W)
  report_final probe s =
      let r = get_tcp_stats probe s.stats in
      report_transfer true (record s { stats = record r { info = final_info r } })

  -- One round of the loop over the intervals.
  unfoldable pub report_interval : Probe → Reporting W → Option (Reporting W)
  report_interval probe s = do
    s' ← report_transfer false (record s { stats = next_interval (get_tcp_stats probe s.stats) })
    some (record s' { stats = record s'.stats { info = reset_interval s'.stats.info } })

  -- The condition of the loop: there is an interval, and it has ended before the packet.
  unfoldable pub is_due : ReporterData W → Bool
  is_due r =
      (not (r.interval_time.sec == 0) || not (r.interval_time.usec == 0))
      && ltb_w (time_difference {W = W} r.next_time r.packet_time) (of_int (pos 0))

  -- The loop, with fuel: `none` is a fault, or the end of the fuel. `probe n` is the call of
  -- `getsockopt` with `n` rounds of fuel left.
  unfoldable pub report_intervals : ℕ → (ℕ → Probe) → Reporting W → Option (Reporting W)
  report_intervals zero probe s = none
  report_intervals (suc fuel) probe s = elim (is_due s.stats) [
    | false ↦ some s
    | true ↦ report_interval (probe fuel) s >>= λ s'. report_intervals fuel probe s'
  ]

  -- `reporter_condprintstats`, which returns `force`.
  unfoldable pub condprintstats : ℕ → (ℕ → Probe) → Bool → Reporting W → Option (Reporting W)
  condprintstats fuel probe force s = elim force [
    | true ↦ report_final (probe 0) s
    | false ↦ report_intervals fuel probe s
  ]

  -- `reporter_handle_packet`
  unfoldable pub handle_packet :
      ℕ → (ℕ → Probe) → Reporting W → ReportStruct → Option (Reporting W × Bool)
  handle_packet fuel probe s p = do
    (r, finished) ← count_packet s.stats p
    s' ← condprintstats fuel probe finished (record s { stats = r })
    some (s', finished)
