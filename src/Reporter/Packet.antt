-- ===== src/Reporter/Packet.antt =====
-- `reporter_handle_packet` of iperf2-code/src/Reporter.c: what one packet record adds to the totals of
-- its transfer. The interval reports that it triggers are in Reporter/Interval.
pub mod Loss
use flexfcapf.Prelude.{
  ℕ, ◌+◌, ◌-◌, ◌/◌, ◌%◌, ◌^◌, Bool, true, false, ◌&&◌, Option, none, some, List, ◌==◌, ltb,
  if◌then◌else◌, get_elem?, set, ◌>>=◌,
}
use flexfcapf.Prelude.Int.{ℤ, pos, ◌+ℤ◌, ◌-ℤ◌, ltb_ℤ, eqb_ℤ}
use flexfcapf.Prelude.Double.{Double, of_int, add_w, sub_w, mul_w, div_w, ltb_w}
use flexfcapf.Settings.{
  is_server, is_client, is_udp, TransitStats, ReadStats, WriteStats, ReportStruct, TransferInfo,
  ReporterData,
}
use flexfcapf.Reporter.Time.{time_difference, million}

abbrev pub is_negative : ℤ → Bool
is_negative n = ltb_ℤ n (pos 0)

module _ {W : Type 0} ⦃d : Double W⦄ where
  -- `transit * 1e6`
  abbrev pub to_usec : W → W
  to_usec transit = mul_w transit (of_int (pos million))

  -- The first packet of a transfer.
  unfoldable pub first_transit : TransitStats W → W → TransitStats W
  first_transit t transit = record {
    min_transit = transit;
    max_transit = transit;
    sum_transit = transit;
    last_transit = transit;
    cnt_transit = 1;
    totmin_transit = transit;
    totmax_transit = transit;
    totsum_transit = transit;
    totcnt_transit = 1;
    vd_transit = to_usec transit;
    mean_transit = to_usec transit;
    m2_transit = mul_w (to_usec transit) (to_usec transit);
    totvd_transit = to_usec transit;
    totmean_transit = to_usec transit;
    totm2_transit = mul_w (to_usec transit) (to_usec transit);
  }

  -- J + ( | D(i-1,i) | - J ) / 16
  unfoldable pub next_jitter : W → W → W → W
  next_jitter jitter transit last =
      let delta = sub_w transit last in
      let size = if ltb_w delta (of_int (pos 0)) then sub_w (of_int (pos 0)) delta else delta in
      add_w jitter (div_w (sub_w size jitter) (of_int (pos 16)))

  abbrev pub smaller : W → W → W
  smaller x least = if ltb_w x least then x else least

  abbrev pub larger : W → W → W
  larger x most = if ltb_w most x then x else most

  -- A packet after the first: the running minimum, maximum, sum, mean and squared deviations, over
  -- the interval and over the transfer.
  unfoldable pub later_transit : TransitStats W → W → TransitStats W
  later_transit t transit =
      let cnt : ℕ = t.cnt_transit + 1 in
      let totcnt : ℕ = t.totcnt_transit + 1 in
      let usec = to_usec transit in
      let vd = sub_w usec t.mean_transit in
      let mean = add_w t.mean_transit (div_w vd (of_int (pos cnt))) in
      let totvd = sub_w usec t.totmean_transit in
      let totmean = add_w t.totmean_transit (div_w totvd (of_int (pos totcnt))) in
      record {
        min_transit = smaller transit t.min_transit;
        max_transit = larger transit t.max_transit;
        sum_transit = add_w t.sum_transit transit;
        last_transit = transit;
        cnt_transit = cnt;
        totmin_transit = smaller transit t.totmin_transit;
        totmax_transit = larger transit t.totmax_transit;
        totsum_transit = add_w t.totsum_transit transit;
        totcnt_transit = totcnt;
        vd_transit = vd;
        mean_transit = mean;
        m2_transit = add_w t.m2_transit (mul_w vd (sub_w usec mean));
        totvd_transit = totvd;
        totmean_transit = totmean;
        totm2_transit = add_w t.totm2_transit (mul_w totvd (sub_w usec totmean));
      }

  -- "packet loss occured if the datagram numbers aren't sequential"
  unfoldable pub count_loss : ReporterData W → ℤ → ReporterData W
  count_loss r id =
      let next = r.packet_id +ℤ pos 1 in
      record r {
        cnt_outof_order = if ltb_ℤ id next then r.cnt_outof_order +ℤ pos 1 else r.cnt_outof_order;
        cnt_error =
            if eqb_ℤ id next
            then r.cnt_error
            else (if ltb_ℤ id next
                then r.cnt_error
                else r.cnt_error +ℤ (id -ℤ r.packet_id -ℤ pos 1));
        packet_id = if ltb_ℤ r.packet_id id then id else r.packet_id;
      }

  -- The fields of a UDP server.
  unfoldable pub count_transit : TransferInfo W → ReportStruct → TransferInfo W
  unfolding first_transit later_transit next_jitter
  count_transit i p =
      let transit = time_difference p.packet_time p.sent_time in
      if i.transit.totcnt_transit == 0
      then record i { transit = first_transit i.transit transit }
      else record i {
        jitter = next_jitter i.jitter transit i.transit.last_transit;
        transit = later_transit i.transit transit;
      }

  -- The fields of a UDP client or server.
  unfoldable pub count_udp : ReporterData W → ReportStruct → ReporterData W
  unfolding count_loss count_transit
  count_udp r p =
      let i = record r.info {
        ipg_sum = add_w r.info.ipg_sum (time_difference p.packet_time r.ipg_start);
        ipg_cnt = r.info.ipg_cnt +ℤ pos 1;
      } in
      let r' = record r {
        cnt_datagrams = r.cnt_datagrams +ℤ pos 1;
        ipg_start = p.packet_time;
        info = i;
      } in
      if is_server r.info.udp
      then record (count_loss r' p.packet_id) { info = count_transit i p }
      else r'

-- Adds one to an element of an array of eight; `none` is an access past its end.
unfoldable pub bump : List ℕ → ℕ → Option (List ℕ)
bump bins i = elim (get_elem? bins i) [ none ↦ none | some n ↦ some (set bins i (n + 1)) ]

-- The TCP reads by size; `none` is a division by zero or an access past the bins.
unfoldable pub count_read : ReadStats → ℕ → Option ReadStats
unfolding bump
count_read s len =
    if s.binsize == 0
    then none
    else (let bin : ℕ = (len - 1) / s.binsize in
        elim (bump s.bins bin) [
          | none ↦ none
          | some bins ↦ elim (bump s.totbins bin) [
            | none ↦ none
            | some totbins ↦ some (record s {
              cnt_read = s.cnt_read + 1;
              totcnt_read = s.totcnt_read + 1;
              bins = bins;
              totbins = totbins;
            })
          ]
        ])

unfoldable pub count_write : WriteStats → Bool → WriteStats
count_write s errwrite =
    if errwrite
    then record s { write_err = s.write_err + 1; tot_write_err = s.tot_write_err + 1 }
    else record s { write_cnt = s.write_cnt + 1; tot_write_cnt = s.tot_write_cnt + 1 }

-- `umax_size_t` addition
abbrev pub add_len : ℕ → ℕ → ℕ
add_len a b = (a + b) % 2 ^ 64

module _ {W : Type 0} ⦃d : Double W⦄ where
  -- The fields of a TCP server or client.
  unfoldable pub count_tcp : ReporterData W → ReportStruct → Option (ReporterData W)
  unfolding count_read count_write
  count_tcp r p =
      if is_server r.thread_mode && ltb 0 p.packet_len
      then elim (count_read r.info.tcp.read p.packet_len) [
        | none ↦ none
        | some s ↦ some (record r { info = record r.info { tcp = record r.info.tcp { read = s } } })
      ]
      else (if is_client r.thread_mode
          then some (record r {
            info = record r.info {
              tcp = record r.info.tcp { write = count_write r.info.tcp.write p.errwrite };
            };
          })
          else some r)

  -- An empty report across the boundary of an interval.
  unfoldable pub count_empty : ReporterData W → ReporterData W
  count_empty r =
      if is_server r.info.udp && r.info.transit.cnt_transit == 0
      then record r {
        info = record r.info {
          transit = record r.info.transit {
            min_transit = d.flt_max;
            max_transit = d.flt_min;
            sum_transit = of_int (pos 0);
            vd_transit = of_int (pos 0);
            mean_transit = of_int (pos 0);
            m2_transit = of_int (pos 0);
          };
        };
      }
      else r

  -- `reporter_handle_packet` up to its call of `reporter_condprintstats`, with `finished`; `none` is
  -- a fault in the count of reads.
  unfoldable pub count_packet : ReporterData W → ReportStruct → Option (ReporterData W × Bool)
  unfolding count_udp count_tcp count_empty
  count_packet r p =
      let seen = record r {
        packet_time = p.packet_time;
        info = record r.info { socket = p.socket };
      } in
      let more = record seen { total_len = add_len r.total_len p.packet_len } in
      if is_negative p.packet_id
      then some (if is_client r.thread_mode then seen else more, true)
      else (if p.emptyreport
          then some (count_empty seen, false)
          else (if is_udp r.flags
              then some (count_udp more p, false)
              else count_tcp more p >>= λ s. some (s, false)))
