-- ===== src/Traffic/Delivery/Lost.antt =====
-- A UDP test from end to end: iperf2-code/src/Client.cpp, the network, iperf2-code/src/Server.cpp, and the reporter of the server.
use flexfcapf.Prelude.{
  ℕ, zero, suc, ◌+◌, ◌^◌, ◌≤◌, ◌<◌, ◌≡◌, ap, sym, subst, ◌∙◌, Bool, true, false, some, List, [],
  ◌∷◌, length, Ensures, Returns, Returns-mono,
}
use flexfcapf.Prelude.Int.{pos}
use flexfcapf.Prelude.Double.{Double}
use flexfcapf.Settings.{Timeval, ReportStruct}
use flexfcapf.Reporter.Packet.{is_negative}
use flexfcapf.Reporter.Interval.{Probe, Reporting}
use flexfcapf.Reporter.Interval.Packets.{handle_packets}
use flexfcapf.Reporter.Ring.{Thread, minus_one, run, init}
use flexfcapf.Reporter.Ring.Order.{Closes}
use flexfcapf.Reporter.Ring.Safety.{run_complete}
use flexfcapf.Traffic.Reports.{is_last}
use flexfcapf.Traffic.{Datagram, EndTime, never}
use flexfcapf.Traffic.Server.{Received, run_udp}
use flexfcapf.Traffic.Client.{UdpRun, Round, run_client_udp}
use flexfcapf.Traffic.Sent.{Ends, stops_udp, run_client_udp-Ends}
use flexfcapf.Traffic.Delivery.{Arrival, AreOf, answered, IsFin, Tells, run_udp-Tells}
use flexfcapf.Traffic.Delivery.Counted.{Counts, Finished, handle_packets-Finished, not_negative}

nothing_told : (f n k : ℕ) → Tells f n k [] → ⊥
nothing_told f n zero t = t
nothing_told f n (suc k) t = t

-- What the server's loop tells of a test whose client has come to its end.
client-Tells :
    (f n : ℕ) (time_mode : Bool) (end : EndTime) (stop : Timeval) (amount : ℕ) (rounds : List Round)
    → (r : ReportStruct) (b : Datagram) (u : UdpRun) → f < 2 ^ 31
    → r.packet_id ≡ pos n
    → n + length rounds < 2 ^ 31
    → stops_udp time_mode end amount rounds ≡ true
    → run_client_udp false (pos f) time_mode end stop amount rounds r b ≡ some u
    → (arrivals : List Arrival) (fin : Arrival) (rest : List Received) (closing : Timeval)
    → (told : ReportStruct) → AreOf arrivals u.wire
    → fin.datagram ≡ u.fin
    → Returns
        (Tells f (n + length u.wire) (length arrivals))
        (run_udp false never closing (answered arrivals fin rest) told)
client-Tells f n time_mode end stop amount rounds r b u small e h stops ran arrivals fin rest
      closing told from same =
    let ended =
      subst (Returns (Ends false (pos f) n)) ran
        (run_client_udp-Ends false (pos f) time_mode end stop amount rounds r b n e h stops) in
    run_udp-Tells f (n + length u.wire) closing arrivals u.wire fin rest told small ended.stamped
      from (λ old. subst (IsFin (n + length u.wire)) (sym same) ended.fin old)

Tells-Closes : (f n k : ℕ) (ps : List ReportStruct) → Tells f n k ps → Closes is_last ps
Tells-Closes f n zero [] t = absurd t
Tells-Closes f n zero (p ∷ []) t = absurd t
Tells-Closes f n zero (p ∷ q ∷ []) t = (ap is_negative t.0.0 ∙ not_negative n, ap is_negative t.1)
Tells-Closes f n zero (p ∷ q ∷ o ∷ ps) t = absurd t
Tells-Closes f n (suc k) [] t = absurd t
Tells-Closes f n (suc k) (p ∷ []) t = absurd (nothing_told f n k t.1)
Tells-Closes f n (suc k) (p ∷ q ∷ ps) t =
    (ap is_negative t.0.0 ∙ not_negative f, Tells-Closes f n k (q ∷ ps) t.1)

module _ {W : Type 0} ⦃d : Double W⦄ where
  -- A UDP test with short numbers and a flow id below 2 ^ 31 and not above the last number. The client's loop has ended, and
  -- of its datagrams the server gets the last one, before it any of the others in any order, some of them not at all or
  -- several times, and behind it anything. The server runs without -t, and no wait before the last datagram times out. Then
  -- its loop ends; and the reporter, whose counts balance and that has seen no higher number, once it has handled the reports
  -- of the server, as far as it makes its own, has the number behind the last one that was written for the highest, has
  -- counted the arrivals and the last datagram, and prints as lost by how much the first of these two is above the second.
  pub run_udp-Finished :
      (f n : ℕ) (time_mode : Bool) (end : EndTime) (stop : Timeval) (amount : ℕ)
      → (rounds : List Round) (r : ReportStruct) (b : Datagram) (u : UdpRun) → f < 2 ^ 31
      → r.packet_id ≡ pos n
      → n + length rounds < 2 ^ 31
      → stops_udp time_mode end amount rounds ≡ true
      → run_client_udp false (pos f) time_mode end stop amount rounds r b ≡ some u
      → (arrivals : List Arrival) (fin : Arrival) (rest : List Received) (closing : Timeval)
      → (told : ReportStruct) → AreOf arrivals u.wire
      → fin.datagram ≡ u.fin
      → f ≤ n + length u.wire
      → (fuel : ℕ) (probe : ℕ → Probe) (s : Reporting W) (m c : ℕ) → m ≤ n + length u.wire
      → Counts m c s.stats
      → Returns
          (λ ps.
            Ensures
              (Finished (n + length u.wire) (c + length arrivals + 1))
              (handle_packets fuel probe s ps))
          (run_udp false never closing (answered arrivals fin rest) told)
  run_udp-Finished f n time_mode end stop amount rounds r b u small e h stops ran arrivals fin rest
        closing told from same fl fuel probe s m c ml k =
      Returns-mono (Tells f (n + length u.wire) (length arrivals)) _ _
        (client-Tells f n time_mode end stop amount rounds r b u small e h stops ran arrivals fin
          rest closing told from same)
        (λ ps t.
          handle_packets-Finished fuel probe s f (n + length u.wire) (length arrivals) m c ps fl ml
            t k)

  -- A UDP test with short numbers and a flow id below 2 ^ 31 and not above the last number, with the ring of reports between
  -- the server's thread and the reporter. The client's loop has ended, the server gets its last datagram, before it any of
  -- the others in any order, some not at all or several times, and behind it anything, and the server's loop has ended. After
  -- any schedule of the server's thread and the reporter, once `reporterindex` is -1, the reports that the reporter has taken
  -- out of a ring of more than two slots have these effects, as far as the reporter, whose counts balance and that has seen no
  -- higher number, makes its own reports: the highest number is the one behind the last that was written, the arrivals and
  -- the last datagram are counted, and what is printed as lost is by how much the first is above the second.
  pub run-Finished :
      (f n : ℕ) (time_mode : Bool) (end : EndTime) (stop : Timeval) (amount : ℕ)
      → (rounds : List Round) (r : ReportStruct) (b : Datagram) (u : UdpRun) → f < 2 ^ 31
      → r.packet_id ≡ pos n
      → n + length rounds < 2 ^ 31
      → stops_udp time_mode end amount rounds ≡ true
      → run_client_udp false (pos f) time_mode end stop amount rounds r b ≡ some u
      → (arrivals : List Arrival) (fin : Arrival) (rest : List Received) (closing : Timeval)
      → (told : ReportStruct) → AreOf arrivals u.wire
      → fin.datagram ≡ u.fin
      → f ≤ n + length u.wire
      → (fuel : ℕ) (probe : ℕ → Probe) (s : Reporting W) (m c : ℕ) → m ≤ n + length u.wire
      → Counts m c s.stats
      → (size : ℕ) (slot : ℕ → ReportStruct) (ts : List Thread) (ps : List ReportStruct) → 2 < size
      → run_udp false never closing (answered arrivals fin rest) told ≡ some ps
      → (run size is_last ts (init size is_last slot ps)).reporterindex ≡ minus_one
      → Ensures
          (Finished (n + length u.wire) (c + length arrivals + 1))
          (handle_packets fuel probe s (run size is_last ts (init size is_last slot ps)).handled)
  run-Finished f n time_mode end stop amount rounds r b u small e h stops ran arrivals fin rest
        closing told from same fl fuel probe s m c ml k size slot ts ps big made done =
      let t = subst (Returns (Tells f (n + length u.wire) (length arrivals))) made (
        client-Tells f n time_mode end stop amount rounds r b u small e h stops ran arrivals fin
          rest closing told from same) in
      let (_, all) = run_complete size is_last slot ps big (Tells-Closes f _ _ ps t) ts done in
      subst
        (λ qs.
          Ensures (Finished (n + length u.wire) (c + length arrivals + 1))
            (handle_packets fuel probe s qs))
        (sym all)
        (handle_packets-Finished fuel probe s f (n + length u.wire) (length arrivals) m c ps fl ml t
          k)
