-- ===== src/Traffic.antt =====
-- iperf2-code/src/Server.cpp and iperf2-code/src/Client.cpp: the threads that move the traffic. Here stand the numbers
-- in a datagram, as the client stores them and as the server reads them, and the end of a report.
pub mod Server
pub mod Client
pub mod Sent
pub mod Fin
pub mod Rated
pub mod Exchange
pub mod Ids
pub mod Reports
pub mod Bytes
pub mod Ack
pub mod Delivery
use Prim.Native.Nat.{ℕ, ◌+◌, ◌*◌, ◌/◌, ◌%◌, ◌^◌}
use flexfcapf.Prelude.{Bool, true, false, ◌&&◌, ◌||◌, ltb, ◌==◌, if◌then◌else◌}
use flexfcapf.Prelude.Int.{ℤ, pos, negsuc, to_unsigned, as_signed, to_signed}
use flexfcapf.Prelude.Bits.{has_bit, set_bit}
use flexfcapf.Settings.{Timeval, ReportStruct}

-- `UDP_datagram`, each word after `ntohl`.
pub record Datagram : Type 0 where
  pub id : ℕ
  pub tv_sec : ℕ
  pub tv_usec : ℕ
  pub id2 : ℕ

-- `Timestamp::before`
abbrev pub before : Timeval → Timeval → Bool
before left right = ltb left.sec right.sec || left.sec == right.sec && ltb left.usec right.usec

-- `mMode_Time && mEndTime.before( time )`; with no end the mode is another.
pub data EndTime : Type 0 where
  never : EndTime
  at : Timeval → EndTime

abbrev pub is_over : EndTime → Timeval → Bool
is_over never time = false
is_over (EndTime.at end) time = before end time

-- The client's `// store datagram ID into buffer`, with 64 bits or with 32.
unfoldable pub store_id : Bool → ReportStruct → Datagram → Datagram
store_id seqno64 r b = record b {
  id = to_unsigned 32 r.packet_id;
  id2 = if seqno64 then to_unsigned 64 r.packet_id / 2 ^ 32 else b.id2;
  tv_sec = r.packet_time.sec % 2 ^ 32;
  tv_usec = r.packet_time.usec % 2 ^ 32;
}

-- The id of the datagram that ends the stream.
unfoldable pub store_fin_id : Bool → ReportStruct → Datagram → Datagram
store_fin_id seqno64 r b = record b {
  id =
      if seqno64
      then to_unsigned 64 r.packet_id % 2 ^ 36 % 2 ^ 32
      else set_bit (to_unsigned 32 r.packet_id) 31;
  id2 = if seqno64 then set_bit (to_unsigned 64 r.packet_id / 2 ^ 32) 31 else b.id2;
  tv_usec = r.packet_time.usec % 2 ^ 32;
}

-- The server's `// read the datagram ID and sentTime out of the buffer`.
unfoldable pub read_id : Bool → Datagram → ReportStruct → ReportStruct
read_id seqno64 b r = record r {
  packet_id = if seqno64 then as_signed 64 (b.id2 * 2 ^ 32 + b.id) else pos b.id;
  sent_time = record { sec = b.tv_sec; usec = b.tv_usec };
}

-- `// terminate when datagram begins with negative index`: whether it does.
unfoldable pub is_fin : Bool → ReportStruct → Bool
is_fin seqno64 r = has_bit (to_unsigned 64 r.packet_id) (if seqno64 then 63 else 31)

-- The id without its sign if it has one.
unfoldable pub unsign : Bool → ReportStruct → ReportStruct
unfolding is_fin
unsign seqno64 r =
    if is_fin seqno64 r
    then record r {
      packet_id = pos (to_unsigned 64 r.packet_id % (if seqno64 then 2 ^ 63 else 2 ^ 31));
    }
    else r

-- What `CloseReport` reports.
unfoldable pub close_report : ReportStruct → ReportStruct
close_report r = record r { packet_id = negsuc 0; packet_len = 0 }

-- What `CloseReport` leaves in the caller's report: it keeps the id, of 64 bits, in an `int` meanwhile.
unfoldable pub after_close : ReportStruct → ReportStruct
after_close r = record r { packet_id = to_signed 32 r.packet_id; packet_len = 0 }
