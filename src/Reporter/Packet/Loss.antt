-- ===== src/Reporter/Packet/Loss.antt =====
-- The datagrams that a UDP server counts as lost, late and received make up the highest number seen.
use flexfcapf.Prelude.{
  ◌≡◌, ◌≢◌, ap, Bool, true, false, some, arith, if_intro, Bool-cases, ◌&&◌, ◌==◌, inl, inr,
  if◌then◌else◌,
}
use flexfcapf.Prelude.Int.{
  ℤ, pos, pos_part, neg_part, ◌+ℤ◌, ◌-ℤ◌, ◌<ℤ◌, ltb_ℤ, eqb_ℤ, ltb_ℤ→lt, ltb_ℤ→le, lt→ltb_ℤ,
  le→ltb_ℤ, ne→eqb_ℤ, eqb_ℤ→eq, int_laws,
}
use flexfcapf.Prelude.Double.{Double}
use flexfcapf.Settings.{is_server, is_client, is_udp, ReportStruct, ReporterData}
use flexfcapf.Reporter.Packet.{count_udp, count_empty, count_packet, is_negative, add_len}

module _ {W : Type 0} where
  -- The highest number seen and the late datagrams make up those received and those missed.
  abbrev pub IsBalanced : ReporterData W → Type 0
  IsBalanced r = r.packet_id +ℤ r.cnt_outof_order ≡ r.cnt_datagrams +ℤ r.cnt_error

ne_of_lt : (a b : ℤ) → a <ℤ b → a ≢ b
ne_of_lt a b h e =
    let p : pos_part a ≡ pos_part b = ap pos_part e in
    let q : neg_part a ≡ neg_part b = ap neg_part e in omega arith

-- The three ways a number can stand to the one that is expected.
balance_step :
    (p o n e id : ℤ)
    → p +ℤ o ≡ n +ℤ e
    → (if ltb_ℤ p id then id else p) +ℤ (if ltb_ℤ id (p +ℤ pos 1) then o +ℤ pos 1 else o)
      ≡ n
        +ℤ pos 1
        +ℤ (if eqb_ℤ id (p +ℤ pos 1)
            then e
            else (if ltb_ℤ id (p +ℤ pos 1) then e else e +ℤ (id -ℤ p -ℤ pos 1)))
balance_step p o n e id h =
    let hp : pos_part (p +ℤ o) ≡ pos_part (n +ℤ e) = ap pos_part h in
    let hn : neg_part (p +ℤ o) ≡ neg_part (n +ℤ e) = ap neg_part h in
    elim (Bool-cases (ltb_ℤ id (p +ℤ pos 1))) [
      | inl late ↦
          rw
            (
              late,
              le→ltb_ℤ p id (omega (int_laws, ltb_ℤ→lt id (p +ℤ pos 1) late)),
              ne→eqb_ℤ id (p +ℤ pos 1)
                  (λ e. ne_of_lt id (p +ℤ pos 1) (ltb_ℤ→lt id (p +ℤ pos 1) late) e),
            )
            (omega int_laws)
      | inr new ↦ elim (Bool-cases (eqb_ℤ id (p +ℤ pos 1))) [
        | inl next ↦
            rw
              (
                new,
                next,
                lt→ltb_ℤ p id (omega (int_laws, ltb_ℤ→le id (p +ℤ pos 1) new)),
                eqb_ℤ→eq id (p +ℤ pos 1) next,
              )
              (omega int_laws)
        | inr gap ↦
            rw (new, gap, lt→ltb_ℤ p id (omega (int_laws, ltb_ℤ→le id (p +ℤ pos 1) new)))
              (omega int_laws)
      ]
    ]

module _ {W : Type 0} ⦃d : Double W⦄ where
  -- One datagram of a UDP server.
  count_udp-IsBalanced :
      (r : ReporterData W) (p : ReportStruct)
      → is_server r.info.udp ≡ true
      → IsBalanced r
      → IsBalanced (count_udp r p)
  unfolding count_udp
  count_udp-IsBalanced r p e b =
      rw e (balance_step r.packet_id r.cnt_outof_order r.cnt_datagrams r.cnt_error p.packet_id b)

  -- What `count_packet` does of a UDP transfer: it cannot fault.
  unfoldable pub udp_packet : ReporterData W → ReportStruct → ReporterData W × Bool
  udp_packet r p =
      let seen = record r {
        packet_time = p.packet_time;
        info = record r.info { socket = p.socket };
      } in
      let more = record seen { total_len = add_len r.total_len p.packet_len } in
      if is_negative p.packet_id
      then (if is_client r.thread_mode then seen else more, true)
      else (if p.emptyreport then (count_empty seen, false) else (count_udp more p, false))

  pub count_packet-eq-udp_packet :
      (r : ReporterData W) (p : ReportStruct)
      → is_udp r.flags ≡ true
      → count_packet r p ≡ some (udp_packet r p)
  unfolding count_packet udp_packet
  count_packet-eq-udp_packet r p u = elim (Bool-cases (is_negative p.packet_id)) [
    | inl a ↦ rw a
    | inr a ↦ elim (Bool-cases p.emptyreport) [ inl b ↦ rw (a, b) | inr b ↦ rw (a, b, u) ]
  ]

  count_empty-IsBalanced : (r : ReporterData W) → IsBalanced r → IsBalanced (count_empty r)
  unfolding count_empty
  count_empty-IsBalanced r b =
      if_intro IsBalanced (is_server r.info.udp && r.info.transit.cnt_transit == 0) (λ _. b)
        (λ _. b)

  pub udp_packet-IsBalanced :
      (r : ReporterData W) (p : ReportStruct)
      → is_server r.info.udp ≡ true
      → IsBalanced r
      → IsBalanced (udp_packet r p).0
  unfolding udp_packet
  udp_packet-IsBalanced r p e b =
      if_intro (λ (x : ReporterData W × Bool). IsBalanced x.0) (is_negative p.packet_id)
        (λ _. if_intro IsBalanced (is_client r.thread_mode) (λ _. b) (λ _. b))
        (λ _.
          if_intro (λ (x : ReporterData W × Bool). IsBalanced x.0) p.emptyreport
            (λ _. count_empty-IsBalanced _ b) (λ _. count_udp-IsBalanced _ p e b))
