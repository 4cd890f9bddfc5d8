-- ===== src/Traffic/Client.antt =====
-- The loops of `Client::Run`, `Client::RunTCP` and `Client::write_UDP_FIN` in iperf2-code/src/Client.cpp, as what they write
-- and report for what the system answers.
use Prim.Native.Nat.{ℕ, zero, suc, ◌+◌, ◌-◌, ◌%◌, ◌^◌}
use flexfcapf.Prelude.{
  Bool, true, false, not, ◌&&◌, ◌||◌, Option, none, some, List, [], ◌∷◌, ◌==◌, if◌then◌else◌, ◌>>=◌,
}
use flexfcapf.Prelude.Int.{ℤ, pos, to_unsigned, ◌+ℤ◌, ◌-ℤ◌}
use flexfcapf.Prelude.Bits.{has_bit}
use flexfcapf.Prelude.Double.{Double, of_int, add_w, mul_w, div_w, ltb_w}
use flexfcapf.Settings.{Timeval, RateUnits, is_pps, ReportStruct}
use flexfcapf.Traffic.{
  Datagram, EndTime, is_over, store_id, store_fin_id, close_report, after_close,
}

-- What `write` answers: bytes, an error after which the loop goes on, or another.
pub data Written : Type 0 where
  sent : ℕ → Written
  again failed : Written

abbrev pub bytes_of : Written → ℕ
bytes_of (sent n) = n
bytes_of _ = 0

abbrev pub is_error : Written → Bool
is_error (sent n) = false
is_error _ = true

abbrev pub is_failed : Written → Bool
is_failed failed = true
is_failed _ = false

-- One round of a loop: the time that it takes, the answer of the write, `canRead` and `sInterupted`.
pub record Round : Type 0 where
  pub time : Timeval
  pub written : Written
  pub can_read : Bool
  pub interrupted : Bool

-- `mAmount` after a write.
abbrev pub left_amount : Bool → ℕ → ℕ → ℕ
left_amount time_mode amount n = if time_mode then amount else amount - n

-- What `RunTCP` does at its end: the one report of everything if there are no interval reports, and `CloseReport`.
unfoldable pub finish_tcp : Bool → Timeval → ℕ → ReportStruct → List ReportStruct
finish_tcp no_interval stop total r =
    let last = record r {
      packet_time = stop;
      packet_len = if no_interval then total else r.packet_len;
    } in
    if no_interval then last ∷ close_report last ∷ [] else close_report last ∷ []

-- The loop of `RunTCP`, whose `mInterval` is not negative: the reports, or nothing as long as it writes.
unfoldable pub run_client_tcp :
    Bool → Bool → Timeval → ℕ → ℕ → List Round → ReportStruct → Option (List ReportStruct)
unfolding finish_tcp
run_client_tcp no_interval time_mode stop amount total [] r = none
run_client_tcp no_interval time_mode stop amount total (round ∷ rest) r =
    let n = bytes_of round.written in
    let told = record r {
      errwrite = is_error round.written;
      packet_time = if no_interval then r.packet_time else round.time;
      packet_len = if no_interval then r.packet_len else n;
    } in
    let amount' = left_amount time_mode amount n in
    let ends = round.interrupted || not time_mode && (amount' == 0 || not round.can_read) in
    let later = run_client_tcp no_interval time_mode stop amount' (total + n) rest told in
    let reports : Option (List ReportStruct) =
      if ends then some (finish_tcp no_interval stop (total + n) told) else later in
    if is_failed round.written
    then some (finish_tcp no_interval stop total (record r { errwrite = true }))
    else if no_interval
    then reports
    else reports >>= λ ps. some (told ∷ ps)

-- The flow id goes over the first four bytes of the buffer, which are those of the datagram's id.
unfoldable pub stamp_flow : ℤ → Datagram → Datagram
stamp_flow flow_id b = record b { id = to_unsigned 32 flow_id }

-- What `Run` has written and reported at its end.
pub record UdpRun : Type 0 where
  pub reports : List ReportStruct
  pub wire : List Datagram  -- the datagrams that were written
  pub fin : Datagram  -- the one that write_UDP_FIN starts with

-- A round of `Run` for UDP up to the write: the report and the buffer.
unfoldable pub prepare_udp : Bool → ℤ → Timeval → ReportStruct → Datagram → ReportStruct × Datagram
unfolding stamp_flow
prepare_udp seqno64 flow_id time r b =
    let timed = record r { packet_time = time } in
    (
      record timed { packet_id = r.packet_id +ℤ pos 1 },
      stamp_flow flow_id (store_id seqno64 timed b),
    )

-- The number is past the end of its word.
abbrev pub is_wrapped : Bool → ReportStruct → Bool
is_wrapped seqno64 r = not seqno64 && has_bit (to_unsigned 64 r.packet_id) 31

-- The report after the write. An error is never taken back.
unfoldable pub report_written : Written → ReportStruct → ReportStruct
report_written (sent n) r = record r { packet_len = n }
report_written again r = record r {
  errwrite = true;
  packet_id = r.packet_id -ℤ pos 1;
  emptyreport = true;
  packet_len = 0;
}
report_written failed r = record r {
  errwrite = true;
  packet_id = r.packet_id -ℤ pos 1;
  emptyreport = true;
}

-- What `Run` does behind its loop.
unfoldable pub finish_udp : Bool → Timeval → ReportStruct → Datagram → UdpRun
finish_udp seqno64 stop r b =
    let last = record r { packet_time = stop } in
    record {
      reports = close_report last ∷ [];
      wire = [];
      fin = store_fin_id seqno64 (after_close last) b;
    }

abbrev pub put : Written → ReportStruct → Datagram → UdpRun → UdpRun
put (sent n) r b u = record u { reports = r ∷ u.reports; wire = b ∷ u.wire }
put _ r b u = record u { reports = r ∷ u.reports }

-- The loop of `Run` for UDP without its delays; `end` is never outside the mode of time.
unfoldable pub run_client_udp :
    Bool → ℤ → Bool → EndTime → Timeval → ℕ → List Round → ReportStruct → Datagram → Option UdpRun
unfolding prepare_udp report_written finish_udp
run_client_udp seqno64 flow_id time_mode end stop amount [] r b = none
run_client_udp seqno64 flow_id time_mode end stop amount (round ∷ rest) r b =
    let (r', b') = prepare_udp seqno64 flow_id round.time r b in
    let told = report_written round.written r' in
    let amount' = left_amount time_mode amount (bytes_of round.written) in
    let over = time_mode && is_over end round.time || not time_mode && amount' == 0 in
    let later = run_client_udp seqno64 flow_id time_mode end stop amount' rest told b' in
    let next : Option UdpRun =
      if round.interrupted || over || not round.can_read
      then some (finish_udp seqno64 stop told b')
      else later in
    if is_wrapped seqno64 r'
    then some
        (finish_udp seqno64 stop r' (store_id seqno64 (record r { packet_time = round.time }) b))
    else if is_failed round.written
    then some (finish_udp seqno64 stop told b')
    else next >>= λ u. some (put round.written told b' u)

-- What `select` and `read` answer after the last datagram: nothing, bytes or an error.
pub data Answer : Type 0 where
  nothing : Answer
  bytes : ℕ → Answer
  error : Answer

-- `htonl(--packetid)`
unfoldable pub decrement_id : Datagram → Datagram
decrement_id b = record b { id = (b.id + 2 ^ 32 - 1) % 2 ^ 32 }

-- The loop of `write_UDP_FIN`: the datagrams that it writes, and the length of the answer that ended it, if one did.
unfoldable pub write_udp_fin :
    (fuel : ℕ) → List Answer → Datagram → Option (List Datagram × Option ℕ)
unfolding decrement_id
write_udp_fin zero answers b = some ([], none)
write_udp_fin (suc fuel) [] b = none
write_udp_fin (suc fuel) (bytes n ∷ rest) b = some (b ∷ [], some n)
write_udp_fin (suc fuel) (error ∷ rest) b = some (b ∷ [], none)
write_udp_fin (suc fuel) (nothing ∷ rest) b =
    write_udp_fin fuel rest (decrement_id b) >>= λ (bs, answer). some (b ∷ bs, answer)

module _ {W : Type 0} ⦃d : Double W⦄ where
  -- The target of the delay in nanoseconds.
  unfoldable pub delay_target : RateUnits → (len rate : ℤ) → W
  delay_target units len rate =
      let second = of_int (pos 1000000000) in
      let target =
        if is_pps units
        then div_w second (of_int rate)
        else mul_w (of_int len) (div_w (of_int (pos 8000000000)) (of_int rate)) in
      if ltb_w target (of_int (pos 0)) || ltb_w second target then second else target

  -- The running delay after the loop's time, which is negative as `lastPacketTime` is before.
  unfoldable pub next_delay : W → W → Bool → ℤ → W → W
  next_delay target lower_bound was_written elapsed delay =
      let adjust =
        if was_written
        then add_w target (mul_w (of_int (pos 1000)) (of_int elapsed))
        else mul_w (of_int (pos 1000)) (of_int elapsed) in
      if ltb_w (add_w delay adjust) lower_bound then target else add_w delay adjust
