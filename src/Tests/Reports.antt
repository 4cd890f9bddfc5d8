-- ===== src/Tests/Reports.antt =====
-- Transfers of a UDP server.
use flexfcapf.Prelude.{
  ℕ, List, replicate, length-replicate, true, [], ◌∷◌, ◌≡◌, refl, Bool, false, some, arith, Ensures,
  Returns,
}
use flexfcapf.Prelude.Int.{ℤ, pos, ◌+ℤ◌, ◌-ℤ◌}
use flexfcapf.Reporter.Multi.Slots.{AtLeast}
use flexfcapf.Reporter.Setup.{num_slots, init_multi}
use flexfcapf.Reporter.Setup.Slots.{Event, another, report, sums, sums-init_multi}
use flexfcapf.Reporter.Header.{Agent}
use flexfcapf.Settings.{TransferInfo, ThreadMode}
use flexfcapf.Reporter.Interval.{Reporting, final_info, report_intervals, is_due, handle_packet}
use flexfcapf.Reporter.Interval.Kept.{SameTotals}
use flexfcapf.Reporter.Interval.End.{report_intervals-ends}
use flexfcapf.Reporter.Interval.Total.{IsSettled, handle_packet-Returns}
use flexfcapf.Reporter.Packet.{is_negative}
use flexfcapf.Reporter.Packet.Loss.{udp_packet}
use flexfcapf.Reporter.Interval.Bytes.{IsAccounted, handle_packet-IsAccounted}
use flexfcapf.Reporter.Interval.Packets.{
  IsUdpServer, handle_packets, handle_packets-balanced, at_least_zero, final_info-loss,
}
use flexfcapf.Reporter.Setup.Barrier.{arrive_all, leave_all, StartAt, barrier_meets}
use flexfcapf.Tests.Fixed.{
  fixed, fixed-IsExact, no_data, two_slots, no_info, start, big_endian, two_clients, time, datagram,
  datagrams, no_probe,
}

no_data-IsUdpServer : IsUdpServer no_data
unfolding ◌+ℤ◌
no_data-IsUdpServer = record { udp = refl; server = refl; balanced = refl }

handle_packets-balanced_example :
    Ensures (λ (s : Reporting ℤ). IsUdpServer s.stats) (handle_packets 5 no_probe start datagrams)
handle_packets-balanced_example =
    handle_packets-balanced 5 no_probe start datagrams no_data-IsUdpServer

final_info-loss_example :
    (final_info no_data).cnt_error ≡ at_least_zero (no_data.packet_id -ℤ no_data.cnt_datagrams)
final_info-loss_example = final_info-loss no_data no_data-IsUdpServer

-- A transfer whose next report is over.
abbrev late : Reporting ℤ
late = record start { stats = record no_data { packet_time = time 12 5 } }

report_intervals-ends_example :
    Returns
      (λ (s : Reporting ℤ). SameTotals late.stats s.stats × (is_due s.stats ≡ false))
      (report_intervals 2000000 no_probe late)
report_intervals-ends_example =
    report_intervals-ends fixed-IsExact 2000000 no_probe late (omega arith, omega arith)
      (record { packet = omega arith; next = omega arith; interval = omega arith }) (omega arith)

handle_packet-IsAccounted_example :
    Ensures
      (λ (x : Reporting ℤ × Bool). IsAccounted x.0 × (x.1 ≡ false))
      (handle_packet 5 no_probe start (datagram (pos 1) (time 10 5)))
handle_packet-IsAccounted_example =
    handle_packet-IsAccounted 5 no_probe start (datagram (pos 1) (time 10 5)) refl (omega arith)
      (record { printed = refl; older = omega arith; fits = omega arith })

-- A UDP server that takes its sums from eight streams, and a client of two streams that comes behind it.
abbrev serving : Agent ℤ
serving = record two_clients { thread_mode = ThreadMode.server; threads = 8 }

abbrev filled : ℕ → List (TransferInfo ℤ)
filled n = replicate n (no_info (pos 0))

abbrev mixed : List (Event ℤ)
mixed = report (no_info (pos 0)) false ∷ another two_clients ∷ report (no_info (pos 5)) false ∷ []

sums-init_multi_example :
    Ensures
      (λ x. Returns (AtLeast (num_slots serving)) (sums (num_slots serving) (some x.0) mixed))
      (init_multi big_endian serving (pos 1) filled)
unfolding num_slots
sums-init_multi_example =
    sums-init_multi big_endian serving (pos 1) filled mixed
      (λ n. length-replicate n (no_info (pos 0))) refl (omega arith, tt)

barrier_meets_example :
    ((arrive_all (time 5 0 ∷ time 6 0 ∷ []) two_slots).1 ≡ false ∷ true ∷ [])
    × (((leave_all
            (no_data ∷ no_data ∷ [])
            (arrive_all (time 5 0 ∷ time 6 0 ∷ []) two_slots).0).0.threads
          ≡ 2)
        × StartAt
            (time 6 0)
            (leave_all
              (no_data ∷ no_data ∷ [])
              (arrive_all (time 5 0 ∷ time 6 0 ∷ []) two_slots).0).1)
barrier_meets_example =
    barrier_meets (time 5 0 ∷ []) (time 6 0) (no_data ∷ no_data ∷ []) two_slots (omega arith)
      (omega arith)

handle_packet-Returns_example :
    Returns
      (λ (x : Reporting ℤ × Bool).
        IsSettled x.1 x.0
        × (SameTotals (udp_packet no_data (datagram (pos 1) (time 12 5))).0 x.0.stats
            × (x.1 ≡ is_negative (pos 1))))
      (handle_packet 2000000 no_probe start (datagram (pos 1) (time 12 5)))
handle_packet-Returns_example =
    handle_packet-Returns fixed-IsExact 2000000 no_probe start (datagram (pos 1) (time 12 5)) refl
      (omega arith, omega arith)
      (record { packet = omega arith; next = omega arith; interval = omega arith }) (omega arith)
