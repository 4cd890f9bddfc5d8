-- ===== src/Traffic/Server.antt =====
-- The loops of `Server::RunUDP` and `Server::RunTCP` in iperf2-code/src/Server.cpp, as the reports that they make of what
-- the socket answers, and the acknowledgement of the last datagram.
use Prim.Native.Nat.{ℕ, zero, suc, ◌+◌, ◌/◌, ◌%◌, ◌^◌}
use flexfcapf.Prelude.{
  Bool, true, false, ◌||◌, Option, none, some, List, [], ◌∷◌, if◌then◌else◌, ◌>>=◌,
}
use flexfcapf.Prelude.Int.{pos, to_unsigned}
use flexfcapf.Prelude.Double.{Double, of_int, to_int, sub_w, mul_w, div_w}
use flexfcapf.Settings.{Timeval, ReportStruct, TransferInfo}
use flexfcapf.Reporter.Relay.{Words, ServerHdr}
use flexfcapf.Traffic.{Datagram, EndTime, is_over, read_id, is_fin, unsign, close_report}

-- What a read of the socket answers, and when: data, the end of the stream, a timeout or an error.
pub data Received : Type 0 where
  data_of : (len : ℕ) → Datagram → Timeval → Received
  closed timed_out broken : Timeval → Received

-- The end of the stream and an error end the loop.
abbrev pub ends_loop : Received → Bool
ends_loop (data_of len b time) = false
ends_loop (timed_out time) = false
ends_loop _ = true

-- The report of a read by `RunUDP`. An answer without data leaves the id and the length.
unfoldable pub take_udp : Bool → Received → ReportStruct → ReportStruct
take_udp seqno64 (data_of len b time) r =
    read_id seqno64 b (record r { emptyreport = false; packet_len = len; packet_time = time })
take_udp seqno64 (closed time) r = record r { emptyreport = true; packet_time = time }
take_udp seqno64 (timed_out time) r = record r { emptyreport = true; packet_time = time }
take_udp seqno64 (broken time) r = record r { emptyreport = true; packet_time = time }

-- The loop of `RunUDP` and its `CloseReport` at the time `stop`: the reports in order, or nothing as long as the
-- loop waits for the socket.
unfoldable pub run_udp :
    Bool → EndTime → Timeval → List Received → ReportStruct → Option (List ReportStruct)
unfolding take_udp
run_udp seqno64 end stop [] r = none
run_udp seqno64 end stop (a ∷ rest) r =
    let taken = take_udp seqno64 a r in
    let told = unsign seqno64 taken in
    let later = run_udp seqno64 end stop rest told in
    if ends_loop a || is_fin seqno64 taken || is_over end told.packet_time
    then some (told ∷ close_report (record told { packet_time = stop }) ∷ [])
    else later >>= λ reports. some (told ∷ reports)

-- The report of a read by `RunTCP`; the time is taken after every read.
unfoldable pub take_tcp : Received → ReportStruct → ReportStruct
take_tcp (data_of len b time) r = record r {
  emptyreport = false;
  packet_len = len;
  packet_time = time;
}
take_tcp (closed time) r = record r { emptyreport = true; packet_len = 0; packet_time = time }
take_tcp (timed_out time) r = record r { emptyreport = true; packet_len = 0; packet_time = time }
take_tcp (broken time) r = record r { emptyreport = true; packet_len = 0; packet_time = time }

-- The loop of `RunTCP` and what follows it: the last report is made again, with the whole length if there are no
-- interval reports, and the report is closed.
unfoldable pub run_tcp :
    Bool → EndTime → Timeval → ℕ → List Received → ReportStruct → Option (List ReportStruct)
unfolding take_tcp
run_tcp no_interval end stop total [] r = none
run_tcp no_interval end stop total (a ∷ rest) r =
    let told = take_tcp a r in
    let sum = total + told.packet_len in
    let again = record told {
      packet_time = stop;
      packet_len = if no_interval then sum else told.packet_len;
    } in
    let later = run_tcp no_interval end stop sum rest told in
    if ends_loop a || is_over end told.packet_time
    then some (told ∷ again ∷ close_report again ∷ [])
    else later >>= λ reports. some (told ∷ reports)

-- What `select` and `read` answer after an acknowledgement; a count of bytes is positive.
pub data Reaction : Type 0 where
  silence : Reaction
  datagram : Reaction
  gone : Reaction

-- The loop of `write_UDP_AckFIN`: how many acknowledgements are sent, with as many as `fuel` left. Without a reaction
-- it waits.
unfoldable pub write_udp_ack_fin : (fuel : ℕ) → List Reaction → Option ℕ
write_udp_ack_fin zero reactions = some 0
write_udp_ack_fin (suc fuel) [] = none
write_udp_ack_fin (suc fuel) (silence ∷ rest) = some 1
write_udp_ack_fin (suc fuel) (gone ∷ rest) = some 1
write_udp_ack_fin (suc fuel) (datagram ∷ rest) = write_udp_ack_fin fuel rest >>= λ n. some (suc n)

module _ {W : Type 0} ⦃d : Double W⦄ where
  -- A time as a whole part and millionths.
  unfoldable pub fixed_words : W → Words
  fixed_words x = record {
    first = to_unsigned 32 (to_int x);
    second = to_unsigned 32 (to_int (mul_w (sub_w x (of_int (to_int x))) (of_int (pos 1000000))));
  }

  -- The header of the acknowledgement; without `HEADER_EXTEND` the words of the extension keep their values.
  unfoldable pub fill_server_hdr : Bool → TransferInfo W → ServerHdr → ServerHdr
  unfolding fixed_words
  fill_server_hdr enhanced stats old =
      let transit = stats.transit in
      let base = record old {
        flags = if enhanced then 2 ^ 31 + 2 ^ 30 else 2 ^ 31;
        total_len = record {
          first = stats.total_len / 2 ^ 32 % 2 ^ 32;
          second = stats.total_len % 2 ^ 32;
        };
        stop = fixed_words stats.end_time;
        error_cnt = to_unsigned 32 stats.cnt_error;
        outorder_cnt = to_unsigned 32 stats.cnt_outof_order;
        datagrams2 = to_unsigned 64 stats.cnt_datagrams / 2 ^ 32;
        datagrams = to_unsigned 64 stats.cnt_datagrams % 2 ^ 32;
        jitter = fixed_words stats.jitter;
      } in
      let time = sub_w stats.end_time stats.start_time in
      if enhanced
      then record base {
        min_transit = fixed_words transit.totmin_transit;
        max_transit = fixed_words transit.totmax_transit;
        sum_transit = fixed_words transit.totsum_transit;
        mean_transit = fixed_words transit.totmean_transit;
        m2_transit = fixed_words transit.totm2_transit;
        vd_transit = fixed_words transit.totvd_transit;
        cnt_transit = transit.totcnt_transit % 2 ^ 32;
        ipg_cnt = to_unsigned 32 (to_int (div_w (of_int stats.cnt_datagrams) time));
        ipg_sum = 1;
      }
      else base
