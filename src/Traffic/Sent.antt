-- ===== src/Traffic/Sent.antt =====
-- What the client of iperf2-code/src/Client.cpp has sent when its loops are at their ends.
use flexfcapf.Prelude.{
  ℕ, suc, ◌+◌, ◌*◌, ◌/◌, ◌%◌, ◌^◌, ◌≤◌, ◌<◌, ◌≡◌, refl, ap, sym, ◌∙◌, Bool, true, false, not, ◌&&◌,
  ◌||◌, Option, some, List, [], ◌∷◌, length, if◌then◌else◌, ◌==◌, ◌>>=◌, if_intro, Returns-mono,
  Returns, Returns->>=, arith,
}
use flexfcapf.Prelude.Int.{ℤ, pos, to_unsigned, as_signed, to_signed, ◌+ℤ◌, ◌-ℤ◌}
use flexfcapf.Prelude.Bits.{has_bit, set_bit}
use flexfcapf.Settings.{Timeval, ReportStruct}
use flexfcapf.Traffic.{
  Datagram, EndTime, is_over, close_report, after_close, store_fin_id, read_id, is_fin, unsign,
}
use flexfcapf.Traffic.Ids.{id_limit, unsign-sign, fin_signed, true_not_false}
use flexfcapf.Traffic.Reports.{is_last}
use flexfcapf.Traffic.Bytes.{HasBytes, counted_one, counted_full}
use flexfcapf.Traffic.Client.{
  Written, sent, again, failed, bytes_of, is_error, is_failed, Round, left_amount, finish_tcp,
  run_client_tcp, stamp_flow, UdpRun, prepare_udp, is_wrapped, report_written, finish_udp, put,
  run_client_udp,
}

-- The bytes that are written up to the end of the loop of `RunTCP`.
abbrev pub ends_tcp : Bool → ℕ → Round → Bool
ends_tcp time_mode amount round =
    round.interrupted
    || not time_mode
      && (left_amount time_mode amount (bytes_of round.written) == 0 || not round.can_read)

abbrev pub written_tcp : Bool → ℕ → List Round → ℕ
written_tcp time_mode amount [] = 0
written_tcp time_mode amount (round ∷ rest) =
    bytes_of round.written
    + (if is_failed round.written || ends_tcp time_mode amount round
        then 0
        else written_tcp time_mode (left_amount time_mode amount (bytes_of round.written)) rest)

pub finish_tcp-counted :
    (no_interval : Bool) (stop : Timeval) (total : ℕ) (r : ReportStruct)
    → is_last r ≡ false
    → r.emptyreport ≡ false
    → HasBytes (if no_interval then total else 0) (finish_tcp no_interval stop total r)
unfolding finish_tcp close_report
finish_tcp-counted true stop total r l e = ground (arith, l, e)
finish_tcp-counted false stop total r l e = ground (arith, l, e)

pub failed_bytes : (w : Written) → is_failed w ≡ true → bytes_of w ≡ 0
failed_bytes (sent n) e = absurd (ground arith)
failed_bytes again e = refl
failed_bytes failed e = refl

-- One of the rounds ends the loop.
abbrev pub stops_tcp : Bool → ℕ → List Round → Bool
stops_tcp time_mode amount [] = false
stops_tcp time_mode amount (round ∷ rest) =
    is_failed round.written
    || ends_tcp time_mode amount round
    || stops_tcp time_mode (left_amount time_mode amount (bytes_of round.written)) rest

-- One round without interval reports, and one with them.
pub step_whole :
    (f e : Bool) (t n w : ℕ) (fin1 fin2 : List ReportStruct) (later : Option (List ReportStruct))
    → HasBytes t fin1
    → (f ≡ true → n ≡ 0)
    → HasBytes (t + n) fin2
    → (f || e ≡ false → Returns (HasBytes (t + n + w)) later)
    → Returns
        (HasBytes (t + (n + (if f || e then 0 else w))))
        (if f then some fin1 else if e then some fin2 else later)
step_whole true e t n w fin1 fin2 later c z d h = omega (arith, c, z refl)
step_whole false true t n w fin1 fin2 later c z d h = omega (arith, d)
step_whole false false t n w fin1 fin2 later c z d h =
    Returns-mono (HasBytes (t + n + w)) (HasBytes (t + (n + w))) later (h refl)
      (λ ps k. omega (arith, k))

pub step_parts :
    (f e : Bool) (n w : ℕ) (told : ReportStruct) (fin1 fin2 : List ReportStruct)
    (later : Option (List ReportStruct))
    → HasBytes 0 fin1
    → (f ≡ true → n ≡ 0)
    → counted_one told ≡ n
    → HasBytes 0 fin2
    → (f || e ≡ false → Returns (HasBytes (0 + w)) later)
    → Returns
        (HasBytes (0 + (n + (if f || e then 0 else w))))
        (if f then some fin1 else (if e then some fin2 else later) >>= λ ps. some (told ∷ ps))
step_parts true e n w told fin1 fin2 later c z o d h = omega (arith, c, z refl)
step_parts false true n w told fin1 fin2 later c z o d h = omega (arith, o, d)
step_parts false false n w told fin1 fin2 later c z o d h =
    Returns->>= (HasBytes (0 + w)) (HasBytes (0 + (n + w))) later (λ ps. some (told ∷ ps)) (h refl)
      (λ ps k. omega (arith, o, k))

-- With a round that ends it the loop of `RunTCP` comes to its end, and its reports count the bytes that it has written,
-- with interval reports and without.
pub run_client_tcp-counted :
    (no_interval time_mode : Bool) (stop : Timeval) (amount total : ℕ) (rounds : List Round)
    (r : ReportStruct)
    → is_last r ≡ false
    → r.emptyreport ≡ false
    → stops_tcp time_mode amount rounds ≡ true
    → Returns
        (HasBytes ((if no_interval then total else 0) + written_tcp time_mode amount rounds))
        (run_client_tcp no_interval time_mode stop amount total rounds r)
unfolding run_client_tcp
run_client_tcp-counted no_interval time_mode stop amount total [] r l e s = absurd (ground arith)
run_client_tcp-counted true time_mode stop amount total (round ∷ rest) r l e s =
    let n = bytes_of round.written in
    let told : ReportStruct = record r { errwrite = is_error round.written } in
    step_whole (is_failed round.written) (ends_tcp time_mode amount round) total n _ _ _ _
      (finish_tcp-counted true stop total (record r { errwrite = true }) l e)
      (failed_bytes round.written) (finish_tcp-counted true stop (total + n) told l e)
      (λ goes.
        run_client_tcp-counted true time_mode stop (left_amount time_mode amount n) (total + n) rest
          told l e (ground (arith, s, goes)))
run_client_tcp-counted false time_mode stop amount total (round ∷ rest) r l e s =
    let n = bytes_of round.written in
    let told : ReportStruct = record r {
      errwrite = is_error round.written;
      packet_time = round.time;
      packet_len = n;
    } in
    step_parts (is_failed round.written) (ends_tcp time_mode amount round) n _ told _ _ _
      (finish_tcp-counted false stop total (record r { errwrite = true }) l e)
      (failed_bytes round.written) (counted_full told l e)
      (finish_tcp-counted false stop (total + n) told l e)
      (λ goes.
        run_client_tcp-counted false time_mode stop (left_amount time_mode amount n) (total + n)
          rest told l e (ground (arith, s, goes)))

-- A round ends the loop of `Run` for UDP.
abbrev pub ends_udp : Bool → EndTime → ℕ → Round → Bool
ends_udp time_mode end amount round =
    round.interrupted
    || (time_mode && is_over end round.time
        || not time_mode && left_amount time_mode amount (bytes_of round.written) == 0)
    || not round.can_read

abbrev pub stops_udp : Bool → EndTime → ℕ → List Round → Bool
stops_udp time_mode end amount [] = false
stops_udp time_mode end amount (round ∷ rest) =
    is_failed round.written
    || ends_udp time_mode end amount round
    || stops_udp time_mode end (left_amount time_mode amount (bytes_of round.written)) rest

abbrev pub All : (Datagram → Type 0) → List Datagram → Type 0
All P [] = Unit
All P (b ∷ bs) = P b × All P bs

-- What is left of a number that has gone through an `int` and, with long numbers, has lost its highest bit then.
abbrev pub kept_id : Bool → ℕ → ℕ
kept_id seqno64 n = if seqno64 then to_unsigned 64 (to_signed 32 (pos n)) % 2 ^ 63 else n

-- Every datagram that was written has the same first word, and the last one has the number of those before it.
pub record Ends (seqno64 : Bool) (flow_id : ℤ) (n : ℕ) (u : UdpRun) : Type 0 where
  pub stamped : All (λ b. b.id ≡ to_unsigned 32 flow_id) u.wire
  pub fin :
      (old : ReportStruct)
      → (is_fin seqno64 (read_id seqno64 u.fin old) ≡ true)
        × ((unsign seqno64 (read_id seqno64 u.fin old)).packet_id
            ≡ pos (kept_id seqno64 (n + length u.wire)))

no_sign : (n : ℕ) → n < 2 ^ 31 → has_bit (n % 2 ^ 64) 31 ≡ false
no_sign n h = ground arith

any_fin_words :
    (w : ℕ)
    → w < 2 ^ 64
    → set_bit (w / 2 ^ 32) 31 * 2 ^ 32 + w % 2 ^ 36 % 2 ^ 32 ≡ w % 2 ^ 63 + 2 ^ 63
any_fin_words w h = ground arith

unsigned_max : (z : ℤ) → to_unsigned 64 z < 2 ^ 64
unsigned_max z = ground arith

short_kept :
    (n : ℕ) → n < 2 ^ 31 → set_bit (to_unsigned 32 (to_signed 32 (pos n))) 31 % 2 ^ 64 ≡ n + 2 ^ 31
short_kept n h = ground arith

number_eq : (seqno64 : Bool) (m n : ℕ) → m ≡ n → pos (kept_id seqno64 m) ≡ pos (kept_id seqno64 n)
number_eq seqno64 m n e = ap (λ k. pos (kept_id seqno64 k)) e

fin_number :
    (seqno64 : Bool) (r : ReportStruct) (b : Datagram) (n : ℕ) (old : ReportStruct)
    → r.packet_id ≡ pos n
    → n < id_limit seqno64
    → (is_fin seqno64 (read_id seqno64 (store_fin_id seqno64 (after_close r) b) old) ≡ true)
      × ((unsign seqno64 (read_id seqno64 (store_fin_id seqno64 (after_close r) b) old)).packet_id
          ≡ pos (kept_id seqno64 n))
unfolding store_fin_id read_id after_close
fin_number true r b n old e h =
    let w = to_unsigned 64 (to_signed 32 r.packet_id) in
    let m = unsigned_max (to_signed 32 r.packet_id) in
    let (f, g) = unsign-sign true (w % 2 ^ 63) _ (omega arith) (
      ap (λ v. to_unsigned 64 (as_signed 64 v)) (any_fin_words w m)
      ∙ fin_signed (w % 2 ^ 63) (omega arith)) in
    (f, g ∙ ap (λ z. pos (to_unsigned 64 (to_signed 32 z) % 2 ^ 63)) e)
fin_number false r b n old e h =
    unsign-sign false n _ h
      (ap (λ z. set_bit (to_unsigned 32 (to_signed 32 z)) 31 % 2 ^ 64) e ∙ short_kept n h)

plus_one : (n : ℕ) → pos n +ℤ pos 1 ≡ pos (n + 1)
unfolding ◌+ℤ◌
plus_one n = ground arith

minus_one : (n : ℕ) → pos (n + 1) -ℤ pos 1 ≡ pos n
unfolding ◌-ℤ◌
minus_one n = ground arith

not_wrapped :
    (seqno64 : Bool) (r : ReportStruct) (n : ℕ)
    → r.packet_id ≡ pos n
    → n < id_limit seqno64
    → is_wrapped seqno64 r ≡ false
not_wrapped true r n e h = refl
not_wrapped false r n e h = ap (λ z. is_wrapped false (record r { packet_id = z })) e ∙ no_sign n h

finish_udp-Ends :
    (seqno64 : Bool) (flow_id : ℤ) (stop : Timeval) (r : ReportStruct) (b : Datagram) (n : ℕ)
    → r.packet_id ≡ pos n
    → n < id_limit seqno64
    → Ends seqno64 flow_id n (finish_udp seqno64 stop r b)
unfolding finish_udp
finish_udp-Ends seqno64 flow_id stop r b n e h = record {
  stamped = tt;
  fin = λ old.
      let (f, g) = fin_number seqno64 (record r { packet_time = stop }) b n old e h in
      (f, g ∙ number_eq seqno64 n (n + 0) (omega arith));
}

put_sent :
    (seqno64 : Bool) (flow_id : ℤ) (n : ℕ) (k : ℕ) (r : ReportStruct) (b : Datagram) (u : UdpRun)
    → b.id ≡ to_unsigned 32 flow_id
    → Ends seqno64 flow_id (n + 1) u
    → Ends seqno64 flow_id n (put (sent k) r b u)
put_sent seqno64 flow_id n k r b u i h = record {
  stamped = (i, h.stamped);
  fin = λ old.
      let (f, g) = h.fin old in
      (f, g ∙ number_eq seqno64 (n + 1 + length u.wire) (n + suc (length u.wire)) (omega arith));
}

-- A round that is not past the last number.
round-Ends :
    (seqno64 : Bool) (flow_id : ℤ) (stop : Timeval) (w : Written) (over : Bool)
    (later : Option UdpRun)
    → (r : ReportStruct) (b : Datagram) (n : ℕ) → r.packet_id ≡ pos (n + 1)
    → b.id ≡ to_unsigned 32 flow_id
    → n + 1 < id_limit seqno64
    → (is_failed w || over ≡ false
        → (m : ℕ) → (report_written w r).packet_id ≡ pos m
        → m ≤ n + 1
        → Returns (Ends seqno64 flow_id m) later)
    → Returns (Ends seqno64 flow_id n) (
        if is_failed w
        then some (finish_udp seqno64 stop (report_written w r) b)
        else (if over then some (finish_udp seqno64 stop (report_written w r) b) else later)
          >>= λ u. some (put w (report_written w r) b u))
unfolding report_written
round-Ends seqno64 flow_id stop failed over later r b n e i h k =
    finish_udp-Ends seqno64 flow_id stop _ b n (ap (λ z. z -ℤ pos 1) e ∙ minus_one n) (omega arith)
round-Ends seqno64 flow_id stop (sent c) true later r b n e i h k =
    put_sent seqno64 flow_id n c _ b _ i (finish_udp-Ends seqno64 flow_id stop _ b (n + 1) e h)
round-Ends seqno64 flow_id stop (sent c) false later r b n e i h k =
    Returns->>= (Ends seqno64 flow_id (n + 1)) (Ends seqno64 flow_id n) later _
      (k refl (n + 1) e (omega arith)) (λ u t. put_sent seqno64 flow_id n c _ b u i t)
round-Ends seqno64 flow_id stop again true later r b n e i h k =
    let t =
      finish_udp-Ends seqno64 flow_id stop (report_written again r) b n
        (ap (λ z. z -ℤ pos 1) e ∙ minus_one n) (omega arith) in
    record { stamped = t.stamped; fin = t.fin }
round-Ends seqno64 flow_id stop again false later r b n e i h k =
    Returns->>= (Ends seqno64 flow_id n) (Ends seqno64 flow_id n) later _
      (k refl n (ap (λ z. z -ℤ pos 1) e ∙ minus_one n) (omega arith))
      (λ u t. record { stamped = t.stamped; fin = t.fin })

-- If one of the rounds ends the loop and the numbers are below 2 ^ 31, or below 2 ^ 63 with long numbers, then the loop of
-- `Run` for UDP comes to its end. The server reads the last datagram as the end, and its number as the first
-- number and the count of the datagrams that were written; with long numbers only what is left of this sum when `CloseReport`
-- has kept it in an `int`, with the sign of that int but for the highest bit. Each of the datagrams that were written has the
-- flow id where the server reads its number.
pub run_client_udp-Ends :
    (seqno64 : Bool) (flow_id : ℤ) (time_mode : Bool) (end : EndTime) (stop : Timeval) (amount : ℕ)
    → (rounds : List Round) (r : ReportStruct) (b : Datagram) (n : ℕ) → r.packet_id ≡ pos n
    → n + length rounds < id_limit seqno64
    → stops_udp time_mode end amount rounds ≡ true
    → Returns
        (Ends seqno64 flow_id n)
        (run_client_udp seqno64 flow_id time_mode end stop amount rounds r b)
unfolding run_client_udp prepare_udp stamp_flow
run_client_udp-Ends seqno64 flow_id time_mode end stop amount [] r b n e h s = absurd (ground arith)
run_client_udp-Ends seqno64 flow_id time_mode end stop amount (round ∷ rest) r b n e h s =
    let (r', b') = prepare_udp seqno64 flow_id round.time r b in
    let number = ap (λ z. z +ℤ pos 1) e ∙ plus_one n in
    if_intro (Returns (Ends seqno64 flow_id n)) (is_wrapped seqno64 r')
      (λ wrapped.
        absurd
          (true_not_false (sym wrapped ∙ not_wrapped seqno64 r' (n + 1) number (omega (arith, h)))))
      (λ fits.
        round-Ends seqno64 flow_id stop round.written (ends_udp time_mode end amount round) _ r' b'
          n number refl (omega (arith, h))
          (λ goes m e' le.
            run_client_udp-Ends seqno64 flow_id time_mode end stop
              (left_amount time_mode amount (bytes_of round.written)) rest
              (report_written round.written r') b' m e' (omega (arith, h))
              (ground (arith, s, goes))))
