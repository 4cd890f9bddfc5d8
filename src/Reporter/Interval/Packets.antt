-- ===== src/Reporter/Interval/Packets.antt =====
-- The packets of a transfer, one after the other, each with the reports that it triggers.
use flexfcapf.Prelude.{
  ℕ, ◌≡◌, refl, sym, ap, ap₂, ◌∙◌, ◌&&◌, ◌==◌, Bool, true, false, Option, some, List, [], ◌∷◌,
  if◌then◌else◌, if_intro, elim_intro, Ensures, Ensures->>=, Ensures-mono, ◌>>=◌, subst,
}
use flexfcapf.Prelude.Int.{ℤ, pos, ◌+ℤ◌, ◌-ℤ◌, ltb_ℤ, pos_parts, neg_parts, int_laws}
use flexfcapf.Prelude.Double.{Double}
use flexfcapf.Settings.{is_udp, is_server, is_client, ReportStruct, ReporterData, TransferInfo}
use flexfcapf.Reporter.Packet.{
  is_negative, count_udp, count_transit, count_loss, count_empty, count_packet,
}
use flexfcapf.Reporter.Packet.Loss.{
  IsBalanced, udp_packet, count_packet-eq-udp_packet, udp_packet-IsBalanced,
}
use flexfcapf.Reporter.Interval.Kept.{
  SameTotals, SameTotals-trans, InfoOnly, InfoOnly-SameTotals, get_tcp_stats-InfoOnly,
  report_transfer-InfoOnly, report_intervals-SameTotals,
}
use flexfcapf.Reporter.Interval.{
  Probe, Reporting, get_tcp_stats, final_info, report_transfer, report_final, condprintstats,
  handle_packet,
}

abbrev pub at_least_zero : ℤ → ℤ
at_least_zero n = if ltb_ℤ n (pos 0) then pos 0 else n

module _ {W : Type 0} ⦃d : Double W⦄ where
  -- The packets up to the one that ends the transfer, or to the last.
  unfoldable pub handle_packets :
      ℕ → (ℕ → Probe) → Reporting W → List ReportStruct → Option (Reporting W)
  handle_packets fuel probe s [] = some s
  handle_packets fuel probe s (p ∷ ps) =
      handle_packet fuel probe s p >>= λ (x : Reporting W × Bool). elim x.1 [
        | true ↦ some x.0
        | false ↦ handle_packets fuel probe x.0 ps
      ]

  -- A UDP server's transfer whose counts balance.
  pub record IsUdpServer (r : ReporterData W) : Type 0 where
    pub udp : is_udp r.flags ≡ true
    pub server : is_server r.info.udp ≡ true
    pub balanced : IsBalanced r

  pub IsUdpServer-of_same :
      {r r' : ReporterData W} → SameTotals r r' → IsUdpServer r → IsUdpServer r'
  IsUdpServer-of_same k u = record {
    udp = ap is_udp k.same_flags ∙ u.udp;
    server = ap is_server k.same_udp ∙ u.server;
    balanced =
        ap₂ (λ (x y : ℤ). x +ℤ y) k.same_id k.same_late
        ∙ u.balanced
        ∙ sym (ap₂ (λ (x y : ℤ). x +ℤ y) k.same_datagrams k.same_error);
  }

  report_final-SameTotals :
      (probe : Probe) (s : Reporting W)
      → Ensures (λ (s' : Reporting W). SameTotals s.stats s'.stats) (report_final probe s)
  unfolding report_final final_info
  report_final-SameTotals probe s =
      let r = get_tcp_stats probe s.stats in
      let a = InfoOnly-SameTotals (get_tcp_stats-InfoOnly probe s.stats) in
      let r' = record r { info = final_info r } in
      let b : InfoOnly r r' = record { others = refl; same_udp = refl; same_tcp = refl } in
      Ensures-mono (λ (s' : Reporting W). InfoOnly r' s'.stats) _
        (report_transfer true (record s { stats = r' }))
        (report_transfer-InfoOnly true (record s { stats = r' }))
        (λ s' k.
          SameTotals-trans a (SameTotals-trans (InfoOnly-SameTotals b) (InfoOnly-SameTotals k)))

  pub condprintstats-SameTotals :
      (fuel : ℕ) (probe : ℕ → Probe) (force : Bool) (s : Reporting W)
      → Ensures
          (λ (s' : Reporting W). SameTotals s.stats s'.stats)
          (condprintstats fuel probe force s)
  unfolding condprintstats
  condprintstats-SameTotals fuel probe true s = report_final-SameTotals (probe 0) s
  condprintstats-SameTotals fuel probe false s = report_intervals-SameTotals fuel probe s

  abbrev Serves : ReporterData W → Type 0
  Serves r = (is_udp r.flags ≡ true) × (is_server r.info.udp ≡ true)

  count_udp-Serves : (r : ReporterData W) (p : ReportStruct) → Serves r → Serves (count_udp r p)
  unfolding count_udp count_transit count_loss
  count_udp-Serves r p u =
      if_intro Serves (is_server r.info.udp)
        (λ _. (
          u.0,
          if_intro (λ (i : TransferInfo W). is_server i.udp ≡ true)
              (r.info.transit.totcnt_transit == 0) (λ _. u.1) (λ _. u.1),
        ))
        (λ _. u)

  count_empty-Serves : (r : ReporterData W) → Serves r → Serves (count_empty r)
  unfolding count_empty
  count_empty-Serves r u =
      if_intro Serves (is_server r.info.udp && r.info.transit.cnt_transit == 0) (λ _. u) (λ _. u)

  udp_packet-Serves : (r : ReporterData W) (p : ReportStruct) → Serves r → Serves (udp_packet r p).0
  unfolding udp_packet
  udp_packet-Serves r p u =
      if_intro (λ (x : ReporterData W × Bool). Serves x.0) (is_negative p.packet_id)
        (λ _. if_intro Serves (is_client r.thread_mode) (λ _. u) (λ _. u))
        (λ _.
          if_intro (λ (x : ReporterData W × Bool). Serves x.0) p.emptyreport
            (λ _. count_empty-Serves _ u) (λ _. count_udp-Serves _ p u))

  -- One packet of a UDP server.
  pub udp_packet-IsUdpServer :
      (r : ReporterData W) (p : ReportStruct) → IsUdpServer r → IsUdpServer (udp_packet r p).0
  udp_packet-IsUdpServer r p u = record {
    udp = (udp_packet-Serves r p (u.udp, u.server)).0;
    server = (udp_packet-Serves r p (u.udp, u.server)).1;
    balanced = udp_packet-IsBalanced r p u.server u.balanced;
  }

  -- The reports that a packet triggers leave the totals that it makes.
  pub handle_packet-SameTotals :
      (fuel : ℕ) (probe : ℕ → Probe) (s : Reporting W) (p : ReportStruct)
      → is_udp s.stats.flags ≡ true
      → Ensures
          (λ (x : Reporting W × Bool).
            SameTotals (udp_packet s.stats p).0 x.0.stats × (x.1 ≡ (udp_packet s.stats p).1))
          (handle_packet fuel probe s p)
  unfolding handle_packet
  handle_packet-SameTotals fuel probe s p u =
      let made = udp_packet s.stats p in
      Ensures->>= (λ (x : ReporterData W × Bool). x ≡ made) _ (count_packet s.stats p) _
        (subst (Ensures (λ (x : ReporterData W × Bool). x ≡ made))
          (sym (count_packet-eq-udp_packet s.stats p u)) refl)
        (λ x k.
          Ensures->>= (λ (s' : Reporting W). SameTotals x.0 s'.stats) _
            (condprintstats fuel probe x.1 (record s { stats = x.0 })) _
            (condprintstats-SameTotals fuel probe x.1 (record s { stats = x.0 }))
            (λ s' j. (
              subst (λ (y : ReporterData W). SameTotals y s'.stats)
                  (ap (λ (y : ReporterData W × Bool). y.0) k) j,
              ap (λ (y : ReporterData W × Bool). y.1) k,
            )))

  handle_packet-IsUdpServer :
      (fuel : ℕ) (probe : ℕ → Probe) (s : Reporting W) (p : ReportStruct)
      → IsUdpServer s.stats
      → Ensures (λ (x : Reporting W × Bool). IsUdpServer x.0.stats) (handle_packet fuel probe s p)
  handle_packet-IsUdpServer fuel probe s p u =
      Ensures-mono _ _ (handle_packet fuel probe s p)
        (handle_packet-SameTotals fuel probe s p u.udp)
        (λ x k. IsUdpServer-of_same k.0 (udp_packet-IsUdpServer s.stats p u))

  -- If the transfer is one of a UDP server and its counts balance, so it is after any packets, with the
  -- interval reports between them and the final one, as far as these are made: the highest number seen and the
  -- late datagrams are then as many as those received and those missed.
  pub handle_packets-balanced :
      (fuel : ℕ) (probe : ℕ → Probe) (s : Reporting W) (ps : List ReportStruct)
      → IsUdpServer s.stats
      → Ensures (λ (s' : Reporting W). IsUdpServer s'.stats) (handle_packets fuel probe s ps)
  unfolding handle_packets
  handle_packets-balanced fuel probe s [] u = u
  handle_packets-balanced fuel probe s (p ∷ ps) u =
      Ensures->>= (λ (x : Reporting W × Bool). IsUdpServer x.0.stats) _
        (handle_packet fuel probe s p) _ (handle_packet-IsUdpServer fuel probe s p u)
        (λ x k.
          elim_intro (Ensures (λ (s' : Reporting W). IsUdpServer s'.stats)) x.1 (λ _. k)
            (λ _. handle_packets-balanced fuel probe x.0 ps k))

  -- The loss in the final report of a UDP server whose counts balance is the highest number seen less the
  -- datagrams received, and not below zero.
  pub final_info-loss :
      (r : ReporterData W)
      → IsUdpServer r
      → (final_info r).cnt_error ≡ at_least_zero (r.packet_id -ℤ r.cnt_datagrams)
  unfolding final_info
  final_info-loss r u =
      let h : r.cnt_error -ℤ r.cnt_outof_order ≡ r.packet_id -ℤ r.cnt_datagrams =
        omega (int_laws, pos_parts u.balanced, neg_parts u.balanced) in
      ap at_least_zero h
