-- ===== src/Traffic/Delivery/Counted.antt =====
-- The reports of a UDP test in the reporter of the server: what it counts, and what it prints as lost at the end.
use flexfcapf.Prelude.{
  ℕ, zero, suc, ◌+◌, ◌≤◌, ◌≡◌, refl, ap, ap₂, sym, subst, ◌∙◌, max, Bool, true, false, ◌&&◌, Option,
  none, some, List, ◌>>=◌, [], ◌∷◌, if◌then◌else◌, if_intro, elim_intro, Ensures, Ensures->>=,
  Ensures-mono, Ensures-trivial, arith,
}
use flexfcapf.Prelude.Int.{ℤ, pos, negsuc, ltb_ℤ, ◌+ℤ◌, ◌-ℤ◌}
use flexfcapf.Prelude.Double.{Double}
use flexfcapf.Settings.{
  ReportStruct, ReporterData, TransferInfo, ReportMode, default, csv, is_server, is_client, is_set,
}
use flexfcapf.Reporter.Packet.{is_negative, count_udp, count_loss, count_packet}
use flexfcapf.Reporter.Packet.Loss.{udp_packet, count_packet-eq-udp_packet}
use flexfcapf.Reporter.Interval.{
  Probe, Reporting, get_tcp_stats, print_statistics, print_transfer, add_to_sum, final_info,
  report_transfer, report_final, condprintstats, handle_packet, less_late,
}
use flexfcapf.Reporter.Interval.Kept.{SameTotals, get_tcp_stats-InfoOnly, InfoOnly-SameTotals}
use flexfcapf.Reporter.Interval.Packets.{
  handle_packets, IsUdpServer, handle_packet-SameTotals, IsUdpServer-of_same,
  udp_packet-IsUdpServer, at_least_zero, final_info-loss,
}
use flexfcapf.Traffic.Delivery.{Reports, Tells}

larger : (m n : ℕ) → (if ltb_ℤ (pos m) (pos n) then pos n else pos m) ≡ pos (max m n)
larger m n = ground arith

one_more : (c : ℕ) → pos c +ℤ pos 1 ≡ pos (suc c)
unfolding ◌+ℤ◌
one_more c = ground arith

pub not_negative : (n : ℕ) → is_negative (pos n) ≡ false
not_negative n = ground arith

off_on : (b : Bool) → b ≡ true → b ≡ false → ⊥
off_on b h k = ground arith

Ensures-and :
    {A : Type 0} (P Q : A → Type 0) (o : Option A)
    → Ensures P o
    → Ensures Q o
    → Ensures (λ a. P a × Q a) o
Ensures-and P Q none p q = tt
Ensures-and P Q (some a) p q = (p, q)

module _ {W : Type 0} ⦃d : Double W⦄ where
  -- A UDP server's transfer with its highest number and its count of datagrams.
  pub record Counts (m c : ℕ) (r : ReporterData W) : Type 0 where
    pub serves : IsUdpServer r
    pub highest : r.packet_id ≡ pos m
    pub received : r.cnt_datagrams ≡ pos c

  Counts-of_same :
      {m c : ℕ} {r r' : ReporterData W} → SameTotals r r' → Counts m c r → Counts m c r'
  Counts-of_same k h = record {
    serves = IsUdpServer-of_same k h.serves;
    highest = k.same_id ∙ h.highest;
    received = k.same_datagrams ∙ h.received;
  }

  -- A datagram that the server counts.
  count_udp-counts :
      (r : ReporterData W) (p : ReportStruct) (n m c : ℕ)
      → is_server r.info.udp ≡ true
      → p.packet_id ≡ pos n
      → r.packet_id ≡ pos m
      → r.cnt_datagrams ≡ pos c
      → ((count_udp r p).packet_id ≡ pos (max m n)) × ((count_udp r p).cnt_datagrams ≡ pos (suc c))
  unfolding count_udp count_loss
  count_udp-counts r p n m c u e h k =
      if_intro
        (λ (t : ReporterData W). (t.packet_id ≡ pos (max m n)) × (t.cnt_datagrams ≡ pos (suc c)))
        (is_server r.info.udp)
        (λ _. (
          ap₂ (λ (a b : ℤ). if ltb_ℤ a b then b else a) h e ∙ larger m n,
          ap (λ z. z +ℤ pos 1) k ∙ one_more c,
        ))
        (λ off. absurd (off_on _ u off))

  -- What a packet leaves: whether it ends the transfer, and the counts.
  Leaves : Bool → ℕ → ℕ → ReporterData W × Bool → Type 0
  Leaves last m c x = (x.1 ≡ last) × (x.0.packet_id ≡ pos m) × (x.0.cnt_datagrams ≡ pos c)

  udp_packet-Leaves :
      (r : ReporterData W) (p : ReportStruct) (n m c : ℕ)
      → Reports n p
      → Counts m c r
      → Leaves false (max m n) (suc c) (udp_packet r p)
  unfolding Leaves udp_packet
  udp_packet-Leaves r p n m c (e, full) h =
      if_intro (Leaves false (max m n) (suc c)) (is_negative p.packet_id)
        (λ on. absurd (off_on _ on (ap is_negative e ∙ not_negative n)))
        (λ _.
          if_intro (Leaves false (max m n) (suc c)) p.emptyreport (λ on. absurd (off_on _ on full))
            (λ _.
              let k = count_udp-counts _ p n m c h.serves.server e h.highest h.received in
              (refl, k.0, k.1)))

  udp_packet-Leaves_last :
      (r : ReporterData W) (p : ReportStruct) (m c : ℕ)
      → p.packet_id ≡ negsuc 0
      → Counts m c r
      → Leaves true m c (udp_packet r p)
  unfolding Leaves udp_packet
  udp_packet-Leaves_last r p m c e h =
      if_intro (Leaves true m c) (is_negative p.packet_id)
        (λ _.
          if_intro (λ (t : ReporterData W). Leaves true m c (t, true)) (is_client r.thread_mode)
            (λ _. (refl, h.highest, h.received)) (λ _. (refl, h.highest, h.received)))
        (λ off. absurd (off_on _ (ap is_negative e) off))

  Counts_of_leaves :
      (last : Bool) (r : ReporterData W) (p : ReportStruct) (m c : ℕ)
      → IsUdpServer r
      → Leaves last m c (udp_packet r p)
      → Counts m c (udp_packet r p).0
  unfolding Leaves
  Counts_of_leaves last r p m c u h = record {
    serves = udp_packet-IsUdpServer r p u;
    highest = h.1;
    received = h.2;
  }

  handle_packet-Counts :
      (last : Bool) (fuel : ℕ) (probe : ℕ → Probe) (s : Reporting W) (p : ReportStruct) (m c : ℕ)
      → IsUdpServer s.stats
      → Leaves last m c (udp_packet s.stats p)
      → Ensures
          (λ (x : Reporting W × Bool). (x.1 ≡ last) × Counts m c x.0.stats)
          (handle_packet fuel probe s p)
  unfolding Leaves
  handle_packet-Counts last fuel probe s p m c u h =
      Ensures-mono _ _ (handle_packet fuel probe s p)
        (handle_packet-SameTotals fuel probe s p u.udp)
        (λ x k. (k.1 ∙ h.0, Counts-of_same k.0 (Counts_of_leaves last s.stats p m c u h)))

  print_statistics-cnt_error :
      (mode : ReportMode) (i : TransferInfo W) → (print_statistics mode i).cnt_error ≡ i.cnt_error
  unfolding print_statistics
  print_statistics-cnt_error default i =
      if_intro (λ (t : TransferInfo W). t.cnt_error ≡ i.cnt_error) (i.enhanced && is_set i.udp)
        (λ _. refl) (λ _. refl)
  print_statistics-cnt_error csv i = refl

  -- What the final report prints as lost.
  report_final-cnt_error :
      (probe : Probe) (s : Reporting W)
      → Ensures
          (λ (s' : Reporting W).
            s'.stats.info.cnt_error ≡ less_late s.stats.cnt_error s.stats.cnt_outof_order)
          (report_final probe s)
  unfolding report_final report_transfer print_transfer final_info
  report_final-cnt_error probe s =
      let r = get_tcp_stats probe s.stats in
      let k = InfoOnly-SameTotals (get_tcp_stats-InfoOnly probe s.stats) in
      let same = ap₂ less_late k.same_error k.same_late in
      Ensures->>= (λ _. Unit {0}) _ (add_to_sum s.num_slots true _ s.multi) _ (Ensures-trivial _)
        (λ a _. print_statistics-cnt_error r.mode (final_info r) ∙ same)

  -- The transfer is at its end, and what has been printed as lost.
  pub record Finished (n c : ℕ) (s : Reporting W) : Type 0 where
    pub counts : Counts n c s.stats
    pub lost : s.stats.info.cnt_error ≡ at_least_zero (pos n -ℤ pos c)

  counted_error :
      (r : ReporterData W) (n c : ℕ)
      → Counts n c r
      → less_late r.cnt_error r.cnt_outof_order ≡ at_least_zero (pos n -ℤ pos c)
  unfolding final_info
  counted_error r n c h =
      final_info-loss r h.serves ∙ ap₂ (λ (a b : ℤ). at_least_zero (a -ℤ b)) h.highest h.received

  abbrev IsPrinted : ℕ → ℕ → Reporting W × Bool → Type 0
  IsPrinted n c x = (x.1 ≡ true) × (x.0.stats.info.cnt_error ≡ at_least_zero (pos n -ℤ pos c))

  handle_packet-IsPrinted :
      (fuel : ℕ) (probe : ℕ → Probe) (s : Reporting W) (p : ReportStruct) (n c : ℕ)
      → IsUdpServer s.stats
      → Leaves true n c (udp_packet s.stats p)
      → Ensures (IsPrinted n c) (handle_packet fuel probe s p)
  unfolding handle_packet condprintstats Leaves
  handle_packet-IsPrinted fuel probe s p n c u h =
      let made = udp_packet s.stats p in
      let e = counted_error made.0 n c (Counts_of_leaves true s.stats p n c u h) in
      Ensures->>= (λ (x : ReporterData W × Bool). x ≡ (made.0, true)) _ (count_packet s.stats p) _
        (subst (Ensures (λ (x : ReporterData W × Bool). x ≡ (made.0, true)))
          (sym (count_packet-eq-udp_packet s.stats p u.udp)) (ap (λ (b : Bool). (made.0, b)) h.0))
        (λ x k.
          subst
            (λ (z : ReporterData W × Bool).
              Ensures (IsPrinted n c)
                (condprintstats fuel probe z.1 (record s { stats = z.0 }) >>= λ s'. some (s', z.1)))
            (sym k)
            (Ensures->>=
              (λ (s' : Reporting W).
                s'.stats.info.cnt_error ≡ less_late made.0.cnt_error made.0.cnt_outof_order)
              (IsPrinted n c) (report_final (probe 0) (record s { stats = made.0 })) _
              (report_final-cnt_error (probe 0) (record s { stats = made.0 }))
              (λ s' j. (refl, j ∙ e))))

  Counts-eq : {m n c k : ℕ} {r : ReporterData W} → m ≡ n → c ≡ k → Counts m c r → Counts n k r
  Counts-eq e g h = record {
    serves = h.serves;
    highest = h.highest ∙ ap pos e;
    received = h.received ∙ ap pos g;
  }

  -- After a datagram the loop goes on.
  goes_on :
      (P : Reporting W → Type 0) (fuel : ℕ) (probe : ℕ → Probe) (s : Reporting W) (p : ReportStruct)
      (ps : List ReportStruct) (n m c : ℕ)
      → Reports n p
      → Counts m c s.stats
      → ((s' : Reporting W)
          → Counts (max m n) (suc c) s'.stats
          → Ensures P (handle_packets fuel probe s' ps))
      → Ensures P (handle_packets fuel probe s (p ∷ ps))
  unfolding handle_packets
  goes_on P fuel probe s p ps n m c e h k =
      Ensures->>= _ P (handle_packet fuel probe s p) _
        (handle_packet-Counts false fuel probe s p (max m n) (suc c) h.serves
          (udp_packet-Leaves s.stats p n m c e h))
        (λ x j. elim_intro (Ensures P) x.1 (λ on. absurd (off_on _ on j.0)) (λ _. k x.0 j.1))

  -- The packet that closes the report ends it.
  ends_here :
      (fuel : ℕ) (probe : ℕ → Probe) (s : Reporting W) (q : ReportStruct) (n c : ℕ)
      → q.packet_id ≡ negsuc 0
      → Counts n c s.stats
      → Ensures (Finished n c) (handle_packets fuel probe s (q ∷ []))
  unfolding handle_packets
  ends_here fuel probe s q n c e h =
      let left = udp_packet-Leaves_last s.stats q n c e h in
      Ensures->>= _ (Finished n c) (handle_packet fuel probe s q) _
        (Ensures-and _ (IsPrinted n c) (handle_packet fuel probe s q)
          (handle_packet-Counts true fuel probe s q n c h.serves left)
          (handle_packet-IsPrinted fuel probe s q n c h.serves left))
        (λ x j.
          elim_intro (Ensures (Finished n c)) x.1 (λ _. record { counts = j.0.1; lost = j.1.1 })
            (λ off. absurd (off_on _ j.0.0 off)))

  -- The packets of a transfer of which `k` have the number `f` and the last one has the number `n`.
  pub handle_packets-Finished :
      (fuel : ℕ) (probe : ℕ → Probe) (s : Reporting W) (f n k m c : ℕ) (ps : List ReportStruct)
      → f ≤ n
      → m ≤ n
      → Tells f n k ps
      → Counts m c s.stats
      → Ensures (Finished n (c + k + 1)) (handle_packets fuel probe s ps)
  handle_packets-Finished fuel probe s f n zero m c [] le lm t h = absurd t
  handle_packets-Finished fuel probe s f n zero m c (p ∷ []) le lm t h = absurd t
  handle_packets-Finished fuel probe s f n zero m c (p ∷ q ∷ []) le lm t h =
      goes_on (Finished n (c + 0 + 1)) fuel probe s p (q ∷ []) n m c t.0 h (λ s' k.
        ends_here fuel probe s' q n (c + 0 + 1) t.1 (Counts-eq (omega arith) (omega arith) k))
  handle_packets-Finished fuel probe s f n zero m c (p ∷ q ∷ o ∷ ps) le lm t h = absurd t
  handle_packets-Finished fuel probe s f n (suc k) m c [] le lm t h = absurd t
  handle_packets-Finished fuel probe s f n (suc k) m c (p ∷ ps) le lm t h =
      goes_on (Finished n (c + suc k + 1)) fuel probe s p ps f m c t.0 h (λ s' j.
        subst (λ z. Ensures (Finished n z) (handle_packets fuel probe s' ps)) (omega arith)
          (handle_packets-Finished fuel probe s' f n k (max m f) (suc c) ps le (omega arith) t.1 j))
