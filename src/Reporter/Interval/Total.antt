-- ===== src/Reporter/Interval/Total.antt =====
-- A packet of a UDP transfer is always handled to its end.
use flexfcapf.Prelude.{
  ℕ, ◌-◌, ◌≤◌, ◌<◌, ◌≡◌, refl, ◌∙◌, inl, inr, Bool-cases, sym, ap, subst, Bool, true, false, ◌&&◌,
  ◌==◌, if_intro, Returns, Returns->>=, Returns-mono, Returns-and, arith,
}
use flexfcapf.Prelude.Double.{Double}
use flexfcapf.Settings.{is_udp, is_server, is_client, Timeval, ReportStruct, ReporterData}
use flexfcapf.Reporter.Time.{micros, million}
use flexfcapf.Reporter.Packet.{is_negative, count_udp, count_loss, count_empty, count_packet}
use flexfcapf.Reporter.Packet.Loss.{udp_packet, count_packet-eq-udp_packet}
use flexfcapf.Reporter.Interval.Kept.{SameTotals}
use flexfcapf.Reporter.Interval.End.{
  IsExact, InRange, HasRoom, report_transfer-Returns, report_intervals-ends,
}
use flexfcapf.Reporter.Interval.Packets.{handle_packet-SameTotals}
use flexfcapf.Reporter.Interval.{
  Probe, Reporting, get_tcp_stats, final_info, report_final, is_due, condprintstats, handle_packet,
}

module _ {W : Type 0} ⦃d : Double W⦄ where
  abbrev SameTimes : ReporterData W → ReporterData W → Type 0
  SameTimes r r' = (r'.packet_time ≡ r.packet_time) × (r'.next_time ≡ r.next_time)

  count_udp-SameTimes : (r : ReporterData W) (p : ReportStruct) → SameTimes r (count_udp r p)
  unfolding count_udp count_loss
  count_udp-SameTimes r p =
      if_intro (SameTimes r) (is_server r.info.udp) (λ _. (refl, refl)) (λ _. (refl, refl))

  count_empty-SameTimes : (r : ReporterData W) → SameTimes r (count_empty r)
  unfolding count_empty
  count_empty-SameTimes r =
      if_intro (SameTimes r) (is_server r.info.udp && r.info.transit.cnt_transit == 0)
        (λ _. (refl, refl)) (λ _. (refl, refl))

  udp_packet-SameTimes :
      (r : ReporterData W) (p : ReportStruct)
      → SameTimes (record r { packet_time = p.packet_time }) (udp_packet r p).0
  unfolding udp_packet
  udp_packet-SameTimes r p =
      let P : ReporterData W × Bool → Type 0 =
        λ x. SameTimes (record r { packet_time = p.packet_time }) x.0 in
      if_intro P (is_negative p.packet_id)
        (λ _.
          if_intro (SameTimes (record r { packet_time = p.packet_time })) (is_client r.thread_mode)
            (λ _. (refl, refl)) (λ _. (refl, refl)))
        (λ _.
          if_intro P p.emptyreport (λ _. let k = count_empty-SameTimes _ in (k.0, k.1))
            (λ _. let k = count_udp-SameTimes _ p in (k.0, k.1)))

  abbrev SameInterval : ReporterData W → ReporterData W → Type 0
  SameInterval r r' = r'.interval_time ≡ r.interval_time

  udp_packet-SameInterval :
      (r : ReporterData W) (p : ReportStruct) → SameInterval r (udp_packet r p).0
  unfolding udp_packet count_udp count_loss count_empty
  udp_packet-SameInterval r p =
      let P : ReporterData W × Bool → Type 0 = λ x. SameInterval r x.0 in
      if_intro P (is_negative p.packet_id)
        (λ _. if_intro (SameInterval r) (is_client r.thread_mode) (λ _. refl) (λ _. refl))
        (λ _.
          if_intro P p.emptyreport
            (λ _.
              if_intro (SameInterval r) (is_server r.info.udp && r.info.transit.cnt_transit == 0)
                (λ _. refl) (λ _. refl))
            (λ _. if_intro (SameInterval r) (is_server r.info.udp) (λ _. refl) (λ _. refl)))

  ends_if_negative :
      (r : ReporterData W) (p : ReportStruct) → (udp_packet r p).1 ≡ is_negative p.packet_id
  unfolding udp_packet
  ends_if_negative r p = elim (Bool-cases (is_negative p.packet_id)) [
    | inl a ↦ rw a
    | inr a ↦ elim (Bool-cases p.emptyreport) [ inl b ↦ rw (a, b) | inr b ↦ rw (a, b) ]
  ]

  -- After a packet that does not end the transfer no report is due.
  abbrev pub IsSettled : Bool → Reporting W → Type 0
  IsSettled true s = Unit
  IsSettled false s = is_due s.stats ≡ false

  condprintstats-Returns :
      IsExact W
      → (fuel : ℕ) (probe : ℕ → Probe) (force : Bool) (s : Reporting W) → HasRoom s
      → InRange s.stats
      → micros s.stats.packet_time - micros s.stats.next_time < fuel
      → Returns (IsSettled force) (condprintstats fuel probe force s)
  unfolding condprintstats report_final
  condprintstats-Returns exact fuel probe true s h i f =
      let r = get_tcp_stats (probe 0) s.stats in
      let s' = record s { stats = record r { info = final_info r } } in
      Returns-mono HasRoom _ _ (report_transfer-Returns true s' h) (λ t k. tt)
  condprintstats-Returns exact fuel probe false s h i f =
      Returns-mono (λ (t : Reporting W). SameTotals s.stats t.stats × (is_due t.stats ≡ false)) _ _
        (report_intervals-ends exact fuel probe s h i f) (λ t k. k.1)

  udp_packet-InRange :
      (r : ReporterData W) (p : ReportStruct)
      → SameInterval r (udp_packet r p).0
      → InRange (record r { packet_time = p.packet_time })
      → InRange (udp_packet r p).0
  udp_packet-InRange r p e k =
      let t = udp_packet-SameTimes r p in
      record {
        packet = subst (λ (z : Timeval). z.usec ≤ million) (sym t.0) k.packet;
        next = subst (λ (z : Timeval). z.usec ≤ million) (sym t.1) k.next;
        interval = subst (λ (z : Timeval). z.usec < million) (sym e) k.interval;
      }

  handle_packet-Settles :
      IsExact W
      → (fuel : ℕ) (probe : ℕ → Probe) (s : Reporting W) (p : ReportStruct)
      → is_udp s.stats.flags ≡ true
      → HasRoom s
      → InRange (record s.stats { packet_time = p.packet_time })
      → micros p.packet_time - micros s.stats.next_time < fuel
      → Returns (λ (x : Reporting W × Bool). IsSettled x.1 x.0) (handle_packet fuel probe s p)
  unfolding handle_packet
  handle_packet-Settles exact fuel probe s p u h i f =
      let x = udp_packet s.stats p in
      let k = udp_packet-SameTimes s.stats p in
      let s' = record s { stats = x.0 } in
      let e = ap micros k.0 in
      let n = ap micros k.1 in
      Returns->>= (λ y. y ≡ x) _ (count_packet s.stats p) _
        (subst (Returns (λ y. y ≡ x)) (sym (count_packet-eq-udp_packet s.stats p u)) refl)
        (λ y q.
          Returns->>= (IsSettled y.1) _ (condprintstats fuel probe y.1 (record s { stats = y.0 })) _
            (subst
              (λ z.
                Returns (IsSettled z.1) (condprintstats fuel probe z.1 (record s { stats = z.0 })))
              (sym q)
              (condprintstats-Returns exact fuel probe x.1 s' h
                (udp_packet-InRange s.stats p (udp_packet-SameInterval s.stats p) i)
                (omega (arith, e, n, f))))
            (λ t k'. k'))

  -- If a negative difference of times in range tells the earlier time, then with as many slots in the header as
  -- `num_multi_slots`, times in range, and as much fuel as the microseconds from the next report to the packet and one more,
  -- every packet of a UDP transfer is handled to its end: it ends the transfer if its number is negative, the totals are those
  -- that the packet makes, and if it does not end the transfer then no report is due.
  pub handle_packet-Returns :
      IsExact W
      → (fuel : ℕ) (probe : ℕ → Probe) (s : Reporting W) (p : ReportStruct)
      → is_udp s.stats.flags ≡ true
      → HasRoom s
      → InRange (record s.stats { packet_time = p.packet_time })
      → micros p.packet_time - micros s.stats.next_time < fuel
      → Returns
          (λ (x : Reporting W × Bool).
            IsSettled x.1 x.0
            × (SameTotals (udp_packet s.stats p).0 x.0.stats × (x.1 ≡ is_negative p.packet_id)))
          (handle_packet fuel probe s p)
  handle_packet-Returns exact fuel probe s p u h i f =
      Returns-mono _ _ (handle_packet fuel probe s p)
        (Returns-and (λ (x : Reporting W × Bool). IsSettled x.1 x.0) _
          (handle_packet fuel probe s p) (handle_packet-Settles exact fuel probe s p u h i f)
          (handle_packet-SameTotals fuel probe s p u))
        (λ x k. (k.0, (k.1.0, k.1.1 ∙ ends_if_negative s.stats p)))
