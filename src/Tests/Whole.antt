-- ===== src/Tests/Whole.antt =====
-- A UDP test from end to end: two datagrams are written, and the first of them is lost.
use flexfcapf.Prelude.{
  ℕ, ◌+◌, ◌^◌, ◌≡◌, refl, true, false, some, List, [], ◌∷◌, ◌++◌, inl, inr, replicate, Ensures,
  Returns, arith,
}
use flexfcapf.Prelude.Int.{pos, ◌+ℤ◌}
use flexfcapf.Settings.{ReportStruct}
use flexfcapf.Reporter.Ring.{
  Thread, the_agent, the_reporter, run, init, step, agent_move, reporter_move,
}
use flexfcapf.Reporter.Interval.Packets.{handle_packets}
use flexfcapf.Traffic.{
  Datagram, never, store_id, store_fin_id, close_report, after_close, read_id, is_fin, unsign,
}
use flexfcapf.Traffic.Server.{run_udp, take_udp}
use flexfcapf.Traffic.Reports.{is_last}
use flexfcapf.Traffic.Client.{
  sent, Round, UdpRun, run_client_udp, prepare_udp, report_written, finish_udp, stamp_flow,
}
use flexfcapf.Traffic.Delivery.{Arrival, answered}
use flexfcapf.Traffic.Delivery.Counted.{Counts, Finished}
use flexfcapf.Traffic.Delivery.Lost.{run_udp-Finished, run-Finished}
use flexfcapf.Tests.Fixed.{fixed, no_data, start, time, datagram, no_probe}

abbrev blank : Datagram
blank = record { id = 0; tv_sec = 0; tv_usec = 0; id2 = 0 }

abbrev first : ReportStruct
first = datagram (pos 0) (time 10 0)

abbrev two_rounds : List Round
two_rounds =
    record { time = time 10 1; written = sent 1470; can_read = true; interrupted = false }
    ∷ record { time = time 10 2; written = sent 1470; can_read = true; interrupted = true }
    ∷ []

abbrev written_at : ℕ → Datagram
written_at usec = record { id = 0; tv_sec = 10; tv_usec = usec; id2 = 0 }

abbrev last_one : Datagram
last_one = record { id = 2 ^ 31 + 2; tv_sec = 10; tv_usec = 0; id2 = 0 }

abbrev reported : ℕ → ReportStruct
reported usec = record first { packet_id = pos usec; packet_time = time 10 usec }

abbrev client_run : UdpRun
client_run = record {
  reports =
      reported 1 ∷ reported 2 ∷ close_report (record (reported 2) { packet_time = time 11 0 }) ∷ [];
  wire = written_at 1 ∷ written_at 2 ∷ [];
  fin = last_one;
}

client_ran :
    run_client_udp false (pos 0) true never (time 11 0) 1000 two_rounds first blank
    ≡ some client_run
unfolding run_client_udp prepare_udp report_written finish_udp stamp_flow store_id store_fin_id
    close_report after_close ◌+ℤ◌
client_ran = refl

abbrev second : Arrival
second = record { len = 1470; datagram = written_at 2; time = time 10 5 }

abbrev ending : Arrival
ending = record { len = 1470; datagram = last_one; time = time 11 5 }

counted : Counts 0 0 no_data
unfolding ◌+ℤ◌
counted = record {
  serves = record { udp = refl; server = refl; balanced = refl };
  highest = refl;
  received = refl;
}

run_udp-Finished_example :
    Returns
      (λ ps. Ensures (Finished 2 2) (handle_packets 5 no_probe start ps))
      (run_udp false never (time 12 0) (answered (second ∷ []) ending []) first)
run_udp-Finished_example =
    run_udp-Finished 0 0 true never (time 11 0) 1000 two_rounds first blank client_run (omega arith)
      refl (omega arith) refl client_ran (second ∷ []) ending [] (time 12 0) first
      (inr (inl refl), tt) refl (omega arith) 5 no_probe start 0 0 (omega arith) counted

abbrev told : List ReportStruct
told =
    record first { packet_id = pos 0; packet_time = time 10 5; sent_time = time 10 2 }
    ∷ record first { packet_id = pos 2; packet_time = time 11 5; sent_time = time 10 0 }
    ∷ close_report
        (record first { packet_id = pos 2; packet_time = time 12 0; sent_time = time 10 0 })
    ∷ []

server_ran : run_udp false never (time 12 0) (answered (second ∷ []) ending []) first ≡ some told
unfolding run_udp take_udp read_id unsign is_fin close_report
server_ran = refl

abbrev turns : List Thread
turns =
    replicate 4 the_agent
    ++ (replicate 6 the_reporter
        ++ (replicate 4 the_agent
            ++ (replicate 6 the_reporter ++ (replicate 4 the_agent ++ replicate 6 the_reporter))))

run-Finished_example : Ensures (Finished 2 2) (
    handle_packets 5 no_probe start
      (run 5 is_last turns (init 5 is_last (λ n. first) told)).handled)
unfolding init agent_move reporter_move step run close_report
run-Finished_example =
    run-Finished 0 0 true never (time 11 0) 1000 two_rounds first blank client_run (omega arith)
      refl (omega arith) refl client_ran (second ∷ []) ending [] (time 12 0) first
      (inr (inl refl), tt) refl (omega arith) 5 no_probe start 0 0 (omega arith) counted 5
      (λ n. first) turns told (omega arith) server_ran refl
