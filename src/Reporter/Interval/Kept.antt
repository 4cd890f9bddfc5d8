-- ===== src/Reporter/Interval/Kept.antt =====
-- What a report leaves alone: printing changes the figures in `info` only, and the loop over the
-- intervals keeps the totals.
use flexfcapf.Prelude.{
  ◌≡◌, refl, ap, ◌∙◌, Bool, ◌&&◌, arith, if_intro, ℕ, zero, suc, true, false, Ensures, Ensures->>=,
  Ensures-trivial, Ensures-mono, Returns, Returns->>=, elim_intro, ◌<◌,
}
use flexfcapf.Prelude.Double.{Double}
use flexfcapf.Settings.{ReportMode, default, csv, TransferInfo, ReporterData, is_client, is_set}
use flexfcapf.Reporter.Time.{time_add}
use flexfcapf.Reporter.Interval.{
  Probe, Reporting, get_tcp_stats, print_statistics, print_transfer, next_interval, reset_interval,
  add_to_sum, report_transfer, report_interval, is_due, report_intervals,
}

module _ {W : Type 0} where
  -- Only the figures of the report have changed, and not the kind of the transfer.
  pub record InfoOnly (r r' : ReporterData W) : Type 0 where
    pub others : r' ≡ record r { info = r'.info }
    pub same_udp : r'.info.udp ≡ r.info.udp
    pub same_tcp : r'.info.tcp_mode ≡ r.info.tcp_mode

  -- The totals of a transfer, and what the interval reports go by.
  pub record SameTotals (r r' : ReporterData W) : Type 0 where
    pub same_error : r'.cnt_error ≡ r.cnt_error
    pub same_late : r'.cnt_outof_order ≡ r.cnt_outof_order
    pub same_datagrams : r'.cnt_datagrams ≡ r.cnt_datagrams
    pub same_id : r'.packet_id ≡ r.packet_id
    pub same_len : r'.total_len ≡ r.total_len
    pub same_flags : r'.flags ≡ r.flags
    pub same_mode : r'.thread_mode ≡ r.thread_mode
    pub same_packet : r'.packet_time ≡ r.packet_time
    pub same_interval : r'.interval_time ≡ r.interval_time
    pub same_udp : r'.info.udp ≡ r.info.udp

  pub SameTotals-refl : (r : ReporterData W) → SameTotals r r
  SameTotals-refl r = ground arith

  pub SameTotals-trans :
      {r r' r'' : ReporterData W} → SameTotals r r' → SameTotals r' r'' → SameTotals r r''
  SameTotals-trans a b = record {
    same_error = b.same_error ∙ a.same_error;
    same_late = b.same_late ∙ a.same_late;
    same_datagrams = b.same_datagrams ∙ a.same_datagrams;
    same_id = b.same_id ∙ a.same_id;
    same_len = b.same_len ∙ a.same_len;
    same_flags = b.same_flags ∙ a.same_flags;
    same_mode = b.same_mode ∙ a.same_mode;
    same_packet = b.same_packet ∙ a.same_packet;
    same_interval = b.same_interval ∙ a.same_interval;
    same_udp = b.same_udp ∙ a.same_udp;
  }

  pub InfoOnly-SameTotals : {r r' : ReporterData W} → InfoOnly r r' → SameTotals r r'
  InfoOnly-SameTotals k = record {
    same_error = ap (λ (x : ReporterData W). x.cnt_error) k.others;
    same_late = ap (λ (x : ReporterData W). x.cnt_outof_order) k.others;
    same_datagrams = ap (λ (x : ReporterData W). x.cnt_datagrams) k.others;
    same_id = ap (λ (x : ReporterData W). x.packet_id) k.others;
    same_len = ap (λ (x : ReporterData W). x.total_len) k.others;
    same_flags = ap (λ (x : ReporterData W). x.flags) k.others;
    same_mode = ap (λ (x : ReporterData W). x.thread_mode) k.others;
    same_packet = ap (λ (x : ReporterData W). x.packet_time) k.others;
    same_interval = ap (λ (x : ReporterData W). x.interval_time) k.others;
    same_udp = k.same_udp;
  }

  pub get_tcp_stats-InfoOnly :
      (probe : Probe) (r : ReporterData W) → InfoOnly r (get_tcp_stats probe r)
  unfolding get_tcp_stats
  get_tcp_stats-InfoOnly (ok, t) r =
      if_intro (InfoOnly r) (r.info.enhanced && is_client r.info.tcp_mode)
        (λ _. record { others = refl; same_udp = refl; same_tcp = refl })
        (λ _. record { others = refl; same_udp = refl; same_tcp = refl })

module _ {W : Type 0} ⦃d : Double W⦄ where
  record SameKind (i i' : TransferInfo W) : Type 0 where
    pub same_udp : i'.udp ≡ i.udp
    pub same_tcp : i'.tcp_mode ≡ i.tcp_mode

  print_statistics-SameKind :
      (m : ReportMode) (i : TransferInfo W) → SameKind i (print_statistics m i)
  unfolding print_statistics
  print_statistics-SameKind default i =
      if_intro (SameKind i) (i.enhanced && is_set i.udp)
        (λ _. record { same_udp = refl; same_tcp = refl })
        (λ _. record { same_udp = refl; same_tcp = refl })
  print_statistics-SameKind csv i = record { same_udp = refl; same_tcp = refl }

  pub print_transfer-InfoOnly :
      (end : Bool) (r : ReporterData W) → InfoOnly r (print_transfer end r).0
  unfolding print_transfer
  print_transfer-InfoOnly end r =
      let k = print_statistics-SameKind r.mode r.info in
      record { others = refl; same_udp = k.same_udp; same_tcp = k.same_tcp }

  pub next_interval-SameTotals : (r : ReporterData W) → SameTotals r (next_interval r)
  unfolding next_interval
  next_interval-SameTotals r = record {
    same_error = refl;
    same_late = refl;
    same_datagrams = refl;
    same_id = refl;
    same_len = refl;
    same_flags = refl;
    same_mode = refl;
    same_packet = refl;
    same_interval = refl;
    same_udp = refl;
  }

  pub reset_interval-InfoOnly :
      (r : ReporterData W) → InfoOnly r (record r { info = reset_interval r.info })
  unfolding reset_interval
  reset_interval-InfoOnly r = record { others = refl; same_udp = refl; same_tcp = refl }

  -- A report of the transfer changes its figures only.
  pub report_transfer-InfoOnly :
      (force : Bool) (s : Reporting W)
      → Ensures (λ (s' : Reporting W). InfoOnly s.stats s'.stats) (report_transfer force s)
  unfolding report_transfer
  report_transfer-InfoOnly force s =
      Ensures->>= (λ _. Unit {0}) _
        (add_to_sum s.num_slots force (print_transfer force s.stats).0 s.multi) _
        (Ensures-trivial (add_to_sum s.num_slots force (print_transfer force s.stats).0 s.multi))
        (λ x _. print_transfer-InfoOnly force s.stats)

  -- A round of the loop over the intervals: the totals stay, and the next one starts from them.
  pub record IntervalStep (r r' : ReporterData W) : Type 0 where
    pub totals : SameTotals r r'
    pub last_len : r'.last_total ≡ r.total_len
    pub later : r'.next_time ≡ time_add r.next_time r.interval_time

  pub report_interval-IntervalStep :
      (probe : Probe) (s : Reporting W)
      → Ensures (λ (s' : Reporting W). IntervalStep s.stats s'.stats) (report_interval probe s)
  unfolding report_interval next_interval
  report_interval-IntervalStep probe s =
      let r = get_tcp_stats probe s.stats in
      let a = get_tcp_stats-InfoOnly probe s.stats in
      Ensures->>= (λ (s' : Reporting W). InfoOnly (next_interval r) s'.stats) _
        (report_transfer false (record s { stats = next_interval r })) _
        (report_transfer-InfoOnly false (record s { stats = next_interval r }))
        (λ s' k. record {
          totals = SameTotals-trans (InfoOnly-SameTotals a) (
              SameTotals-trans (next_interval-SameTotals r) (
                SameTotals-trans (InfoOnly-SameTotals k)
                  (InfoOnly-SameTotals (reset_interval-InfoOnly s'.stats))));
          last_len =
              ap (λ (x : ReporterData W). x.last_total) k.others ∙ (InfoOnly-SameTotals a).same_len;
          later =
              ap (λ (x : ReporterData W). x.next_time) k.others
              ∙ ap (λ (x : ReporterData W). time_add x.next_time x.interval_time) a.others;
        })

  -- The rule for the loop: what each round keeps holds at its end.
  pub report_intervals_inv :
      (P : Reporting W → Type 0)
      → ((probe : Probe) (s : Reporting W) → P s → Ensures P (report_interval probe s))
      → (fuel : ℕ) (probe : ℕ → Probe) (s : Reporting W) → P s
      → Ensures P (report_intervals fuel probe s)
  unfolding report_intervals
  report_intervals_inv P keep zero probe s p = tt
  report_intervals_inv P keep (suc fuel) probe s p =
      elim_intro (Ensures P) (is_due s.stats)
        (λ _.
          Ensures->>= P P (report_interval (probe fuel) s) _ (keep (probe fuel) s p)
            (λ s' p'. report_intervals_inv P keep fuel probe s' p'))
        (λ _. p)

  -- The rule for its end: with a measure that falls below the fuel, there is a result.
  pub report_intervals_end :
      (P : Reporting W → Type 0) (measure : Reporting W → ℕ)
      → ((probe : Probe) (s : Reporting W)
          → P s
          → is_due s.stats ≡ true
          → Returns (λ s'. P s' × (measure s' < measure s)) (report_interval probe s))
      → (fuel : ℕ) (probe : ℕ → Probe) (s : Reporting W) → measure s < fuel
      → P s
      → Returns
          (λ (s' : Reporting W). P s' × (is_due s'.stats ≡ false))
          (report_intervals fuel probe s)
  unfolding report_intervals
  report_intervals_end P measure go zero probe s m p = absurd (omega arith)
  report_intervals_end P measure go (suc fuel) probe s m p =
      elim_intro (Returns (λ (s' : Reporting W). P s' × (is_due s'.stats ≡ false))) (is_due s.stats)
        (λ due.
          Returns->>= (λ s'. P s' × (measure s' < measure s)) _ (report_interval (probe fuel) s) _
            (go (probe fuel) s p due)
            (λ s' q. report_intervals_end P measure go fuel probe s' (omega arith) q.0))
        (λ over. (p, over))

  -- The loop keeps the totals, whatever its fuel.
  pub report_intervals-SameTotals :
      (fuel : ℕ) (probe : ℕ → Probe) (s : Reporting W)
      → Ensures (λ (s' : Reporting W). SameTotals s.stats s'.stats) (report_intervals fuel probe s)
  report_intervals-SameTotals fuel probe s =
      report_intervals_inv (λ s'. SameTotals s.stats s'.stats)
        (λ probe' t k.
          Ensures-mono (λ (s' : Reporting W). IntervalStep t.stats s'.stats) _
            (report_interval probe' t) (report_interval-IntervalStep probe' t)
            (λ s' j. SameTotals-trans k j.totals))
        fuel probe s (SameTotals-refl s.stats)
