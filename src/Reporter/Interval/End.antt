-- ===== src/Reporter/Interval/End.antt =====
-- The loop over the intervals ends: each round moves the next report on by an interval.
use flexfcapf.Prelude.{
  ℕ, ◌-◌, ◌≤◌, ◌<◌, ◌≡◌, ap, sym, subst, ◌∙◌, Bool, true, false, Option, arith, if_intro, Returns,
  Returns->>=, Returns-and, Returns-mono,
}
use flexfcapf.Prelude.Int.{pos}
use flexfcapf.Prelude.Double.{Double, of_int, ltb_w}
use flexfcapf.Settings.{Timeval, ReporterData, is_multiple_report}
use flexfcapf.Reporter.Time.{time_difference, micros, million, micros-time_add, usec-time_add}
use flexfcapf.Reporter.Multi.{MultiHeader}
use flexfcapf.Reporter.Multi.Slots.{HasSlots, handle_multiple_reports-Returns}
use flexfcapf.Reporter.Interval.Kept.{
  SameTotals, SameTotals-refl, SameTotals-trans, IntervalStep, report_interval-IntervalStep,
  report_intervals_end,
}
use flexfcapf.Reporter.Interval.{
  Probe, Reporting, get_tcp_stats, print_transfer, next_interval, add_to_sum, report_transfer,
  report_interval, is_due, report_intervals,
}

-- For times of at most a million microseconds a difference that is negative tells which is the earlier one. IEEE doubles
-- have this: the seconds are an integer of which the conversion keeps the sign, and the size if that is 1; the microseconds
-- by a million are from -1 to 1, with their sign, and below 1 if they are fewer than a million; and the rounding of a sum
-- keeps its sign.
pub record IsExact (W : Type 0) ⦃d : Double W⦄ : Type 0 where
  pub earlier :
      (l r : Timeval)
      → l.usec ≤ million
      → r.usec ≤ million
      → ltb_w {W = W} (time_difference l r) (of_int (pos 0)) ≡ true
      → micros l < micros r

-- The microseconds of the times that a transfer goes by.
pub record InRange {W : Type 0} (r : ReporterData W) : Type 0 where
  pub packet : r.packet_time.usec ≤ million
  pub next : r.next_time.usec ≤ million
  pub interval : r.interval_time.usec < million

module _ {W : Type 0} ⦃d : Double W⦄ where
  abbrev pub HasRoom : Reporting W → Type 0
  HasRoom s = HasSlots s.num_slots s.multi

  add_to_sum-Returns :
      (num : ℕ) (force : Bool) (r : ReporterData W) (m : Option (MultiHeader W))
      → HasSlots num m
      → Returns (λ x. HasSlots num x.0) (add_to_sum num force r m)
  unfolding add_to_sum
  add_to_sum-Returns num force r m h =
      if_intro (Returns (λ x. HasSlots num x.0)) (is_multiple_report r.flags)
        (λ _. handle_multiple_reports-Returns num m r.info force h) (λ _. h)

  pub report_transfer-Returns :
      (force : Bool) (s : Reporting W) → HasRoom s → Returns HasRoom (report_transfer force s)
  unfolding report_transfer
  report_transfer-Returns force s h =
      Returns->>= (λ x. HasSlots s.num_slots x.0) _
        (add_to_sum s.num_slots force (print_transfer force s.stats).0 s.multi) _
        (add_to_sum-Returns s.num_slots force (print_transfer force s.stats).0 s.multi h) (λ x k. k)

  report_interval-Returns :
      (probe : Probe) (s : Reporting W) → HasRoom s → Returns HasRoom (report_interval probe s)
  unfolding report_interval
  report_interval-Returns probe s h =
      Returns->>= HasRoom _
        (report_transfer false (record s { stats = next_interval (get_tcp_stats probe s.stats) })) _
        (report_transfer-Returns false _ h) (λ s' k. k)

  due_earlier :
      IsExact W
      → (r : ReporterData W) → InRange r
      → is_due r ≡ true
      → micros r.next_time < micros r.packet_time
  unfolding is_due
  due_earlier exact r k due = exact.earlier r.next_time r.packet_time k.next k.packet (ground arith)

  due_interval : (r : ReporterData W) → is_due r ≡ true → 0 < micros r.interval_time
  unfolding is_due
  due_interval r due = ground arith

  -- What stays while the loop runs.
  record Running (s s' : Reporting W) : Type 0 where
    pub slots : HasRoom s'
    pub times : InRange s'.stats
    pub totals : SameTotals s.stats s'.stats

  abbrev time_left : Reporting W → ℕ
  time_left s = micros s.stats.packet_time - micros s.stats.next_time

  round_times : (r r' : ReporterData W) → InRange r → IntervalStep r r' → InRange r'
  round_times r r' k q = record {
    packet = subst (λ (t : Timeval). t.usec ≤ million) (sym q.totals.same_packet) k.packet;
    next =
        subst (λ (t : Timeval). t.usec ≤ million) (sym q.later)
          (usec-time_add r.next_time r.interval_time k.next k.interval);
    interval = subst (λ (t : Timeval). t.usec < million) (sym q.totals.same_interval) k.interval;
  }

  round :
      IsExact W
      → (s : Reporting W) → (probe : Probe) (t : Reporting W) → Running s t
      → is_due t.stats ≡ true
      → Returns
          (λ (t' : Reporting W). Running s t' × (time_left t' < time_left t))
          (report_interval probe t)
  round exact s probe t k due =
      Returns-mono _ _ (report_interval probe t)
        (Returns-and HasRoom (λ (t' : Reporting W). IntervalStep t.stats t'.stats)
          (report_interval probe t) (report_interval-Returns probe t k.slots)
          (report_interval-IntervalStep probe t))
        (λ t' q.
          let e = ap micros q.1.totals.same_packet in
          let n = ap micros q.1.later ∙ micros-time_add t.stats.next_time t.stats.interval_time in
          (
            record {
              slots = q.0;
              times = round_times t.stats t'.stats k.times q.1;
              totals = SameTotals-trans k.totals q.1.totals;
            },
            omega (arith, e, n, due_interval t.stats due, due_earlier exact t.stats k.times due),
          ))

  -- If a negative difference of times in range tells the earlier time, then with as many slots in the header as
  -- `num_multi_slots`, times in range, and as much fuel as the microseconds from the next report to the packet and one more,
  -- the loop ends, no report is due, and the totals are what they were.
  pub report_intervals-ends :
      IsExact W
      → (fuel : ℕ) (probe : ℕ → Probe) (s : Reporting W) → HasRoom s
      → InRange s.stats
      → micros s.stats.packet_time - micros s.stats.next_time < fuel
      → Returns
          (λ (s' : Reporting W). SameTotals s.stats s'.stats × (is_due s'.stats ≡ false))
          (report_intervals fuel probe s)
  report_intervals-ends exact fuel probe s slots times f =
      Returns-mono _ _ (report_intervals fuel probe s)
        (report_intervals_end (Running s) time_left (round exact s) fuel probe s f
          (record { slots = slots; times = times; totals = SameTotals-refl s.stats }))
        (λ s' q. (q.0.totals, q.1))
