-- ===== src/Tests/Streams.antt =====
-- The threads that move the traffic.
use flexfcapf.Prelude.{
  Bool, none, ℕ, ◌+◌, ◌^◌, ◌≡◌, refl, true, false, some, List, [], ◌∷◌, ◌++◌, arith, replicate,
  Returns, if◌then◌else◌,
}
use flexfcapf.Prelude.Int.{ℤ, pos, negsuc}
use flexfcapf.Prelude.Bits.{has_bit}
use flexfcapf.Settings.{ReportStruct, TransferInfo}
use flexfcapf.Reporter.Ring.{
  Thread, the_agent, the_reporter, run, init, step, agent_move, reporter_move,
}
use flexfcapf.Reporter.Ring.Order.{Closes}
use flexfcapf.Reporter.Relay.{ServerHdr, Words, relay_info}
use flexfcapf.Traffic.{Datagram, EndTime, never, read_id, is_fin, unsign, close_report}
use flexfcapf.Traffic.Server.{
  Received, data_of, closed, run_udp, run_tcp, take_udp, fill_server_hdr,
}
use flexfcapf.Traffic.Reports.{is_last, IsCons, run_udp-Closes, run_udp-handled}
use flexfcapf.Traffic.Bytes.{HasBytes, counted, received, repeated, run_tcp-counted}
use flexfcapf.Traffic.Ack.{fill_server_hdr-relay_info}
use flexfcapf.Traffic.Client.{
  sent, Round, run_client_tcp, run_client_udp, nothing, bytes, write_udp_fin,
}
use flexfcapf.Traffic.Sent.{written_tcp, run_client_tcp-counted, Ends, run_client_udp-Ends}
use flexfcapf.Traffic.Fin.{IsRetried, write_udp_fin-IsRetried}
use flexfcapf.Address.{Addr}
use flexfcapf.Clients.Listener.{Listening, Visit, listen}
use flexfcapf.Clients.Only.{IsOnly, listen-IsOnly}
use flexfcapf.Traffic.Rated.{RatedRound, run_rate_limited_tcp}
use flexfcapf.Traffic.Rated.Bytes.{written_rated, run_rate_limited_tcp-counted}
use flexfcapf.Clients.{Event, comes, goes, act_all}
use flexfcapf.Clients.Groups.{IsGrouped, act_all-IsGrouped}
use flexfcapf.Reporter.Queue.{Job, Desk, spawn_round}
use flexfcapf.Reporter.Queue.Refines.{keep, spawn_round-keep}
use flexfcapf.Tests.Fixed.{no_addr, fixed, time, datagram, no_info}

abbrev blank : Datagram
blank = record { id = 0; tv_sec = 0; tv_usec = 0; id2 = 0 }

abbrev first : ReportStruct
first = datagram (pos 0) (time 10 0)

-- A datagram and the end of the stream.
abbrev answers : List Received
answers = data_of 1470 (record blank { id = 1 }) (time 10 5) ∷ closed (time 10 9) ∷ []

run_udp-Closes_example :
    Returns (λ ps. Closes is_last ps × IsCons ps) (run_udp false never (time 11 0) answers first)
run_udp-Closes_example =
    run_udp-Closes false never (time 11 0) answers first ((omega arith, omega arith), (tt, tt))
      (0, refl, omega arith) refl

-- What the loop reports of them.
abbrev told : List ReportStruct
told =
    record first { packet_id = pos 1; packet_time = time 10 5; sent_time = time 0 0 }
    ∷ record first {
      packet_id = pos 1;
      packet_time = time 10 9;
      sent_time = time 0 0;
      emptyreport = true;
    }
    ∷ record first {
      packet_id = negsuc 0;
      packet_len = 0;
      packet_time = time 11 0;
      sent_time = time 0 0;
      emptyreport = true;
    }
    ∷ []

abbrev empty_slot : ℕ → ReportStruct
empty_slot n = first

-- The agent and the reporter take turns for the three reports.
abbrev turns : List Thread
turns =
    replicate 4 the_agent
    ++ (replicate 6 the_reporter
        ++ (replicate 4 the_agent
            ++ (replicate 6 the_reporter ++ (replicate 4 the_agent ++ replicate 6 the_reporter))))

run_udp-handled_example : (run 5 is_last turns (init 5 is_last empty_slot told)).handled ≡ told
unfolding init agent_move reporter_move step run run_udp take_udp read_id unsign is_fin close_report
run_udp-handled_example =
    run_udp-handled 5 empty_slot turns false never (time 11 0) answers first told (omega arith)
      ((omega arith, omega arith), (tt, tt)) (0, refl, omega arith) refl refl refl

run_tcp-counted_example :
    Returns
      (λ ps.
        counted ps
        ≡ received (EndTime.at (time 10 1)) answers
          + repeated true (EndTime.at (time 10 1)) 0 answers)
      (run_tcp true (EndTime.at (time 10 1)) (time 11 0) 0 answers first)
run_tcp-counted_example =
    run_tcp-counted true (EndTime.at (time 10 1)) (time 11 0) 0 answers first refl refl

abbrev no_words : Words
no_words = record { first = 0; second = 0 }

abbrev no_hdr : ServerHdr
no_hdr = record {
  flags = 0;
  total_len = no_words;
  stop = no_words;
  error_cnt = 0;
  outorder_cnt = 0;
  datagrams = 0;
  datagrams2 = 0;
  jitter = no_words;
  min_transit = no_words;
  max_transit = no_words;
  sum_transit = no_words;
  mean_transit = no_words;
  m2_transit = no_words;
  vd_transit = no_words;
  cnt_transit = 0;
  ipg_cnt = 0;
  ipg_sum = 0;
}

-- A server that has seen five datagrams and missed two.
abbrev seen_five : TransferInfo ℤ
seen_five = record (no_info (pos 0)) {
  total_len = 7350;
  cnt_error = pos 2;
  cnt_datagrams = pos 7;
  end_time = pos 1000000;
}

fill_server_hdr-relay_info_example :
    (has_bit (fill_server_hdr true seen_five no_hdr).flags 31 ≡ true)
    × ((relay_info (fill_server_hdr true seen_five no_hdr) (no_info (pos 0))).total_len
        ≡ seen_five.total_len)
    × ((relay_info (fill_server_hdr true seen_five no_hdr) (no_info (pos 0))).cnt_error
        ≡ seen_five.cnt_error)
    × ((relay_info (fill_server_hdr true seen_five no_hdr) (no_info (pos 0))).cnt_outof_order
        ≡ seen_five.cnt_outof_order)
    × ((relay_info (fill_server_hdr true seen_five no_hdr) (no_info (pos 0))).cnt_datagrams
        ≡ seen_five.cnt_datagrams)
fill_server_hdr-relay_info_example =
    fill_server_hdr-relay_info true seen_five (no_info (pos 0)) no_hdr 2 0 7 (record {
      total_max = omega arith;
      cnt_error = (refl, omega arith);
      cnt_outof_order = (refl, omega arith);
      cnt_datagrams = (refl, omega arith);
    })

-- Two writes, the second of which is interrupted afterwards.
abbrev two_rounds : List Round
two_rounds =
    record { time = time 10 1; written = sent 1470; can_read = true; interrupted = false }
    ∷ record { time = time 10 2; written = sent 1470; can_read = true; interrupted = true }
    ∷ []

run_client_tcp-counted_example :
    Returns
      (λ ps. counted ps ≡ (if true then 0 else 0) + written_tcp true 1000 two_rounds)
      (run_client_tcp true true (time 11 0) 1000 0 two_rounds first)
run_client_tcp-counted_example =
    run_client_tcp-counted true true (time 11 0) 1000 0 two_rounds first refl refl refl

run_client_udp-Ends_example :
    Returns
      (Ends false (pos 7) 0)
      (run_client_udp false (pos 7) true never (time 11 0) 1000 two_rounds first blank)
run_client_udp-Ends_example =
    run_client_udp-Ends false (pos 7) true never (time 11 0) 1000 two_rounds first blank 0 refl
      (omega arith) refl

write_udp_fin-IsRetried_example :
    Returns
      (IsRetried 2 (2 ^ 31 + 5))
      (write_udp_fin 2 (nothing ∷ bytes 1470 ∷ []) (record blank { id = 2 ^ 31 + 5 }))
write_udp_fin-IsRetried_example =
    write_udp_fin-IsRetried 2 (nothing ∷ bytes 1470 ∷ []) (record blank { id = 2 ^ 31 + 5 })
      (omega arith) (omega arith) (omega arith)

abbrev host : ℕ → Addr
host n = record no_addr { addr4 = n; port = n }

-- Two clients of one host and one of another come, and the first goes.
abbrev visits : List Event
visits = comes (host 1) ∷ comes (record (host 1) { port = 9 }) ∷ comes (host 2) ∷ goes (host 1) ∷ []

act_all-IsGrouped_example : IsGrouped (act_all visits (record { clients = []; groups = 0 }))
act_all-IsGrouped_example = act_all-IsGrouped visits (record { clients = []; groups = 0 }) (tt, tt)

-- A transfer that is done is in the list behind one that is not, and behind the settings.
abbrev jobs : List (Job Bool)
jobs =
    record { name = 1; kind = 4; flags = 0; group = none; transfer = false }
    ∷ record { name = 2; kind = 9; flags = 0; group = some 1; transfer = false }
    ∷ record { name = 3; kind = 1; flags = 0; group = none; transfer = true }
    ∷ []

abbrev desk : Desk
desk = record { group_kind = λ g. 8; out = [] }

spawn_round-keep_example :
    ((spawn_round (λ b. (b, b)) [] jobs desk).0 ≡ [] ++ (keep (λ b. (b, b)) jobs desk).0)
    × ((spawn_round (λ b. (b, b)) [] jobs desk).1 ≡ (keep (λ b. (b, b)) jobs desk).1)
spawn_round-keep_example = spawn_round-keep (λ b. (b, b)) [] jobs desk

-- Two streams of one host, and a third from another one, which has to wait until both have ended.
abbrev crowd : List Visit
crowd =
    Visit.arrives (host 1) true
    ∷ Visit.arrives (record (host 1) { port = 9 }) true
    ∷ Visit.arrives (host 2) true
    ∷ Visit.leaves (host 1)
    ∷ []

abbrev waiting : Listening
waiting = record {
  registry = record { clients = []; groups = 0 };
  is_limited = false;
  peer = no_addr;
  left = pos 2;
  served = [];
}

listen-IsOnly_example : IsOnly (listen true true crowd waiting)
listen-IsOnly_example =
    listen-IsOnly true crowd waiting (record { from = tt; unlimited = λ e. refl })

-- A write with tokens, and a round that is interrupted before there are any.
abbrev rated_rounds : List (RatedRound ℤ)
rated_rounds =
    record {
      now = pos 1000000;
      round = record {
        time = time 10 1;
        written = sent 1470;
        can_read = true;
        interrupted = false;
      };
    }
    ∷ record {
      now = pos 1000000;
      round = record { time = time 10 2; written = sent 1470; can_read = true; interrupted = true };
    }
    ∷ []

run_rate_limited_tcp-counted_example :
    Returns
      (HasBytes (
        (if true then 0 else 0)
        + written_rated true (pos 8000000) (pos 0) (pos 0) 1000 rated_rounds))
      (run_rate_limited_tcp true true
        (time 11 0)
        (pos 8000000)
        (pos 0)
        (pos 0)
        1000
        0
        rated_rounds
        first)
run_rate_limited_tcp-counted_example =
    run_rate_limited_tcp-counted true true (time 11 0) (pos 8000000) (pos 0) (pos 0) 1000 0
      rated_rounds first refl refl (ground arith)
