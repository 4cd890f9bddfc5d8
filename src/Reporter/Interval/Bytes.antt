-- ===== src/Reporter/Interval/Bytes.antt =====
-- The bytes of a transfer: those of the interval reports and those since the last one make up the total.
use flexfcapf.Prelude.{
  ℕ, ◌+◌, ◌^◌, ◌≤◌, ◌<◌, ◌≡◌, refl, sym, ap, subst, ◌∙◌, Bool, false, Option, none, some, List, [],
  ◌∷◌, ◌++◌, if◌then◌else◌, arith, ltb, Ensures, Ensures->>=, Ensures-trivial, get_elem?, not,
  if_intro, ◌&&◌, ◌==◌, Bool-cases, inl, inr,
}
use flexfcapf.Prelude.Double.{Double, eqb_w}
use flexfcapf.Settings.{
  ReportStruct, TransferInfo, ReporterData, is_multiple_report, is_server, is_udp,
}
use flexfcapf.Reporter.Packet.{
  count_packet, count_tcp, count_udp, count_loss, count_empty, is_negative, add_len,
}
use flexfcapf.Reporter.Multi.{
  Output, transfer, multiple, mss, MultiHeader, stop_index, add_slot, char_is, close_slot,
  sum_report, handle_multiple_reports,
}
use flexfcapf.Reporter.Interval.Kept.{
  InfoOnly-SameTotals, get_tcp_stats-InfoOnly, print_transfer-InfoOnly, report_intervals_inv,
}
use flexfcapf.Reporter.Interval.{
  Probe, Reporting, get_tcp_stats, print_transfer, next_interval, add_to_sum, report_transfer,
  report_interval, report_intervals, condprintstats, handle_packet,
}

module _ {W : Type 0} where
  -- The bytes of the transfer reports that have been printed.
  abbrev pub printed_len : List (Output W) → ℕ
  printed_len [] = 0
  printed_len (transfer _ i ∷ os) = i.total_len + printed_len os
  printed_len (multiple _ _ ∷ os) = printed_len os
  printed_len (mss _ ∷ os) = printed_len os

  printed_len-append :
      (os ps : List (Output W)) → printed_len (os ++ ps) ≡ printed_len os + printed_len ps
  printed_len-append [] ps = omega arith
  printed_len-append (transfer _ i ∷ os) ps = omega (arith, printed_len-append os ps)
  printed_len-append (multiple _ _ ∷ os) ps = omega (arith, printed_len-append os ps)
  printed_len-append (mss _ ∷ os) ps = omega (arith, printed_len-append os ps)

module _ {W : Type 0} ⦃d : Double W⦄ where
  -- A sum that is printed is no transfer report.
  abbrev PrintsNoTransfer : {A : Type 0} → A × List (Output W) → Type 0
  PrintsNoTransfer x = printed_len x.1 ≡ 0

  sum_report-printed_len :
      (num : ℕ) (m : MultiHeader W) (i : TransferInfo W) (force : Bool)
      → Ensures PrintsNoTransfer (sum_report num m i force)
  unfolding sum_report close_slot
  sum_report-printed_len num m i force =
      Ensures->>= (λ _. Unit {0}) PrintsNoTransfer (stop_index _ num m.slots) _ (Ensures-trivial _)
        (λ a _.
          Ensures->>= (λ _. Unit {0}) PrintsNoTransfer (get_elem? m.slots a) _ (Ensures-trivial _)
            (λ x _.
              if_intro (Ensures PrintsNoTransfer) (not (eqb_w x.start_time i.start_time))
                (λ _.
                  Ensures->>= (λ _. Unit {0}) PrintsNoTransfer (stop_index _ num m.slots) _
                    (Ensures-trivial _)
                    (λ b _.
                      Ensures->>= (λ _. Unit {0}) PrintsNoTransfer (get_elem? m.slots b) _
                        (Ensures-trivial _) (λ y _. refl)))
                (λ _.
                  if_intro (Ensures PrintsNoTransfer) (char_is (add_slot x i).free m.threads)
                    (λ _. refl) (λ _. refl))))

  handle_multiple_reports-printed_len :
      (num : ℕ) (m : Option (MultiHeader W)) (i : TransferInfo W) (force : Bool)
      → Ensures PrintsNoTransfer (handle_multiple_reports num m i force)
  unfolding handle_multiple_reports
  handle_multiple_reports-printed_len num none i force = refl
  handle_multiple_reports-printed_len num (some m) i force =
      if_intro (Ensures PrintsNoTransfer) (ltb 1 m.threads)
        (λ _.
          Ensures->>= PrintsNoTransfer PrintsNoTransfer (sum_report num m i force) _
            (sum_report-printed_len num m i force) (λ x h. h))
        (λ _. refl)

  add_to_sum-printed_len :
      (num : ℕ) (force : Bool) (r : ReporterData W) (m : Option (MultiHeader W))
      → Ensures PrintsNoTransfer (add_to_sum num force r m)
  unfolding add_to_sum
  add_to_sum-printed_len num force r m =
      if_intro (Ensures PrintsNoTransfer) (is_multiple_report r.flags)
        (λ _. handle_multiple_reports-printed_len num m r.info force) (λ _. refl)

  -- One call prints one transfer report.
  print_transfer-printed_len :
      (end : Bool) (r : ReporterData W) → printed_len (print_transfer end r).1 ≡ r.info.total_len
  unfolding print_transfer
  print_transfer-printed_len end r = ground arith

  pub report_transfer-adds :
      (force : Bool) (s : Reporting W)
      → Ensures
          (λ (s' : Reporting W).
            (printed_len s'.out ≡ printed_len s.out + s.stats.info.total_len)
            × (s'.stats ≡ (print_transfer force s.stats).0))
          (report_transfer force s)
  unfolding report_transfer
  report_transfer-adds force s =
      let r = (print_transfer force s.stats).0 in
      let out = (print_transfer force s.stats).1 in
      Ensures->>= PrintsNoTransfer _ (add_to_sum s.num_slots force r s.multi) _
        (add_to_sum-printed_len s.num_slots force r s.multi)
        (λ x h. (
          omega (
            arith,
            printed_len-append s.out (out ++ x.1),
            printed_len-append out x.1,
            print_transfer-printed_len force s.stats,
            h,
          ),
          refl,
        ))

  -- The interval reports so far make up the bytes that the last one brought up to date.
  pub record IsAccounted (s : Reporting W) : Type 0 where
    pub printed : printed_len s.out ≡ s.stats.last_total
    pub older : s.stats.last_total ≤ s.stats.total_len
    pub fits : s.stats.total_len < 2 ^ 64

  pub report_interval-IsAccounted :
      (probe : Probe) (s : Reporting W)
      → IsAccounted s
      → Ensures IsAccounted (report_interval probe s)
  unfolding report_interval next_interval
  report_interval-IsAccounted probe s v =
      let r = get_tcp_stats probe s.stats in
      let a = get_tcp_stats-InfoOnly probe s.stats in
      let len = (InfoOnly-SameTotals a).same_len in
      let last = ap (λ (x : ReporterData W). x.last_total) a.others in
      Ensures->>=
        (λ (s' : Reporting W).
          (printed_len s'.out ≡ printed_len s.out + (next_interval r).info.total_len)
          × (s'.stats ≡ (print_transfer false (next_interval r)).0))
        _ (report_transfer false (record s { stats = next_interval r })) _
        (report_transfer-adds false (record s { stats = next_interval r }))
        (λ s' k.
          let i = InfoOnly-SameTotals (print_transfer-InfoOnly false (next_interval r)) in
          let e = (print_transfer-InfoOnly false (next_interval r)).others in
          let len' : s'.stats.total_len ≡ s.stats.total_len =
            ap (λ (x : ReporterData W). x.total_len) k.1 ∙ i.same_len ∙ len in
          let last' : s'.stats.last_total ≡ s.stats.total_len =
            ap (λ (x : ReporterData W). x.last_total) k.1
            ∙ ap (λ (x : ReporterData W). x.last_total) e
            ∙ len in
          omega (arith, k.0, len, last, len', last', v))

  pub report_intervals-IsAccounted :
      (fuel : ℕ) (probe : ℕ → Probe) (s : Reporting W)
      → IsAccounted s
      → Ensures IsAccounted (report_intervals fuel probe s)
  report_intervals-IsAccounted fuel probe s v =
      report_intervals_inv IsAccounted report_interval-IsAccounted fuel probe s v

module _ {W : Type 0} ⦃d : Double W⦄ where
  -- The bytes of the transfer are left alone.
  abbrev SameBytes : ReporterData W → ReporterData W → Type 0
  SameBytes r r' = (r'.last_total ≡ r.last_total) × (r'.total_len ≡ r.total_len)

  count_tcp-SameBytes :
      (r : ReporterData W) (p : ReportStruct) → Ensures (SameBytes r) (count_tcp r p)
  unfolding count_tcp
  count_tcp-SameBytes r p = ground arith

  count_udp-SameBytes : (r : ReporterData W) (p : ReportStruct) → SameBytes r (count_udp r p)
  unfolding count_udp count_loss
  count_udp-SameBytes r p =
      if_intro (SameBytes r) (is_server r.info.udp) (λ _. (refl, refl)) (λ _. (refl, refl))

  count_empty-SameBytes : (r : ReporterData W) → SameBytes r (count_empty r)
  unfolding count_empty
  count_empty-SameBytes r =
      if_intro (SameBytes r) (is_server r.info.udp && r.info.transit.cnt_transit == 0)
        (λ _. (refl, refl)) (λ _. (refl, refl))

  -- The bytes of a packet that does not end the transfer are added, unless its report is empty.
  abbrev AddsBytes : ReporterData W → ReportStruct → ReporterData W × Bool → Type 0
  AddsBytes r p x =
      (x.0.last_total ≡ r.last_total)
      × (x.0.total_len ≡ (if p.emptyreport then r.total_len else add_len r.total_len p.packet_len))
      × (x.1 ≡ false)

  count_packet-AddsBytes :
      (r : ReporterData W) (p : ReportStruct)
      → is_negative p.packet_id ≡ false
      → Ensures (AddsBytes r p) (count_packet r p)
  unfolding count_packet
  count_packet-AddsBytes r p h =
      let seen = record r {
        packet_time = p.packet_time;
        info = record r.info { socket = p.socket };
      } in
      let more = record seen { total_len = add_len r.total_len p.packet_len } in
      elim (Bool-cases p.emptyreport) [
        | inl e ↦ let k = count_empty-SameBytes seen in rw (h, e) (k.0, k.1, refl)
        | inr e ↦
            let k = count_udp-SameBytes more p in
            let P : ReporterData W × Bool → Type 0 =
              AddsBytes r (record p { emptyreport = false }) in
            rw (h, e)
              (if_intro (Ensures P) (is_udp r.flags) (λ _. (k.0, k.1, refl))
                (λ _.
                  Ensures->>= (SameBytes more) P (count_tcp more p) _ (count_tcp-SameBytes more p)
                    (λ r' j. (j.0, j.1, refl))))
      ]

  -- A packet that does not end the transfer, whose bytes still fit 64 bits, keeps the account: the interval
  -- reports make up the bytes that the last one brought up to date, those that it triggers included.
  pub handle_packet-IsAccounted :
      (fuel : ℕ) (probe : ℕ → Probe) (s : Reporting W) (p : ReportStruct)
      → is_negative p.packet_id ≡ false
      → s.stats.total_len + p.packet_len < 2 ^ 64
      → IsAccounted s
      → Ensures
          (λ (x : Reporting W × Bool). IsAccounted x.0 × (x.1 ≡ false))
          (handle_packet fuel probe s p)
  unfolding handle_packet condprintstats
  handle_packet-IsAccounted fuel probe s p h fits v =
      Ensures->>= (AddsBytes s.stats p) _ (count_packet s.stats p) _
        (count_packet-AddsBytes s.stats p h)
        (λ x k.
          let s' = record s { stats = x.0 } in
          Ensures->>= IsAccounted _ (condprintstats fuel probe x.1 s') _
            (subst (λ b. Ensures IsAccounted (condprintstats fuel probe b s')) (sym k.2)
              (report_intervals-IsAccounted fuel probe s' (record {
                printed = v.printed ∙ sym k.0;
                older = ground (arith, k.0, k.1, v.older, v.fits, fits);
                fits = ground (arith, k.1, v.fits, fits);
              })))
            (λ t w. (w, k.2)))
