-- ===== src/Traffic/Reports.antt =====
-- What `Server::RunUDP` of iperf2-code/src/Server.cpp hands to the ring of reports.
use flexfcapf.Prelude.{
  ℕ, ◌+◌, ◌*◌, ◌%◌, ◌^◌, ◌<◌, ◌≡◌, refl, ap, sym, subst, ◌∙◌, Bool, true, false, ◌||◌, some, List,
  [], ◌∷◌, if◌then◌else◌, if_intro, Returns, Returns->>=, arith,
}
use flexfcapf.Prelude.Int.{ℤ, pos, to_unsigned, as_signed, ltb_ℤ}
use flexfcapf.Prelude.Bits.{has_bit}
use flexfcapf.Settings.{Timeval, ReportStruct}
use flexfcapf.Reporter.Ring.{Thread, minus_one, run, init}
use flexfcapf.Reporter.Ring.Order.{Closes}
use flexfcapf.Reporter.Ring.Safety.{run_complete}
use flexfcapf.Traffic.{EndTime, is_over, read_id, is_fin, unsign, close_report}
use flexfcapf.Traffic.Ids.{id_limit}
use flexfcapf.Traffic.Server.{
  Received, data_of, closed, timed_out, broken, ends_loop, take_udp, run_udp,
}

-- The report that `CloseReport` makes.
abbrev pub is_last : ReportStruct → Bool
is_last r = ltb_ℤ r.packet_id (pos 0)

-- The id is a number of a datagram.
abbrev pub IsNumbered : Bool → ReportStruct → Type 0
IsNumbered seqno64 r = (n : ℕ) × (r.packet_id ≡ pos n) × (n < id_limit seqno64)

-- The words of a datagram have 32 bits.
abbrev pub HasWords : Received → Type 0
HasWords (data_of len b time) = (b.id < 2 ^ 32) × (b.id2 < 2 ^ 32)
HasWords _ = Unit

abbrev pub AllHaveWords : List Received → Type 0
AllHaveWords [] = Unit
AllHaveWords (a ∷ rest) = HasWords a × AllHaveWords rest

abbrev pub any_end : List Received → Bool
any_end [] = false
any_end (a ∷ rest) = ends_loop a || any_end rest

-- The number that a word stands for.
abbrev word_id : Bool → ℕ → ℤ
word_id seqno64 w = if seqno64 then as_signed 64 w else pos w

positive64 :
    (w : ℕ)
    → w < 2 ^ 64
    → has_bit (to_unsigned 64 (as_signed 64 w)) 63 ≡ false
    → (as_signed 64 w ≡ pos w) × (w < 2 ^ 63)
positive64 w h e = ground arith

positive32 : (w : ℕ) → w < 2 ^ 32 → has_bit (w % 2 ^ 64) 31 ≡ false → w < 2 ^ 31
positive32 w h e = ground arith

unsign-IsNumbered :
    (seqno64 : Bool) (w : ℕ) (r : ReportStruct)
    → r.packet_id ≡ word_id seqno64 w
    → w < (if seqno64 then 2 ^ 64 else 2 ^ 32)
    → IsNumbered seqno64 (unsign seqno64 r)
unfolding unsign is_fin
unsign-IsNumbered true w r e h =
    if_intro (IsNumbered true) (is_fin true r)
      (λ fin. (to_unsigned 64 r.packet_id % 2 ^ 63, refl, ground arith))
      (λ no.
        let (s, b) = positive64 w h (ap (λ z. has_bit (to_unsigned 64 z) 63) (sym e) ∙ no) in
        (w, e ∙ s, b))
unsign-IsNumbered false w r e h =
    if_intro (IsNumbered false) (is_fin false r)
      (λ fin. (to_unsigned 64 r.packet_id % 2 ^ 31, refl, ground arith))
      (λ no. (w, e, positive32 w h (ap (λ z. has_bit (to_unsigned 64 z) 31) (sym e) ∙ no)))

small_signed : (n : ℕ) → n < 2 ^ 63 → as_signed 64 n ≡ pos n
small_signed n h = ground arith

two_words : (hi lo : ℕ) → hi < 2 ^ 32 → lo < 2 ^ 32 → hi * 2 ^ 32 + lo < 2 ^ 64
two_words hi lo p q = omega arith

not_negative : (n : ℕ) → ltb_ℤ (pos n) (pos 0) ≡ false
not_negative n = ground arith

-- A report whose id is a number keeps it.
unsign-keeps :
    (seqno64 : Bool) (r : ReportStruct)
    → IsNumbered seqno64 r
    → IsNumbered seqno64 (unsign seqno64 r)
unsign-keeps true r (n, e, h) =
    unsign-IsNumbered true n r (e ∙ sym (small_signed n h)) (omega arith)
unsign-keeps false r (n, e, h) = unsign-IsNumbered false n r e (omega arith)

take-IsNumbered :
    (seqno64 : Bool) (a : Received) (r : ReportStruct)
    → HasWords a
    → IsNumbered seqno64 r
    → IsNumbered seqno64 (unsign seqno64 (take_udp seqno64 a r))
unfolding take_udp read_id
take-IsNumbered true (data_of len b time) r w n =
    unsign-IsNumbered true (b.id2 * 2 ^ 32 + b.id) _ refl (two_words b.id2 b.id w.1 w.0)
take-IsNumbered false (data_of len b time) r w n = unsign-IsNumbered false b.id _ refl w.0
take-IsNumbered seqno64 (closed time) r w n = unsign-keeps seqno64 _ n
take-IsNumbered seqno64 (timed_out time) r w n = unsign-keeps seqno64 _ n
take-IsNumbered seqno64 (broken time) r w n = unsign-keeps seqno64 _ n

numbered-not_last : (seqno64 : Bool) (r : ReportStruct) → IsNumbered seqno64 r → is_last r ≡ false
numbered-not_last seqno64 r (n, e, h) = ap (λ z. ltb_ℤ z (pos 0)) e ∙ not_negative n

abbrev pub IsCons : List ReportStruct → Type 0
IsCons [] = ⊥
IsCons (p ∷ ps) = Unit

-- Reports to come that close do so behind one that does not.
Closes-behind :
    (p : ReportStruct) (ps : List ReportStruct)
    → is_last p ≡ false
    → Closes is_last ps × IsCons ps
    → Closes is_last (p ∷ ps) × IsCons (p ∷ ps)
Closes-behind p [] e (c, n) = absurd n
Closes-behind p (q ∷ qs) e (c, n) = ((e, c), tt)

-- Once the stream of answers has an end or an error the loop of `RunUDP` has come to an end, and of its reports the last
-- alone closes the transfer.
pub run_udp-Closes :
    (seqno64 : Bool) (end : EndTime) (stop : Timeval) (answers : List Received) (r : ReportStruct)
    → AllHaveWords answers
    → IsNumbered seqno64 r
    → any_end answers ≡ true
    → Returns (λ ps. Closes is_last ps × IsCons ps) (run_udp seqno64 end stop answers r)
unfolding run_udp close_report
run_udp-Closes seqno64 end stop [] r w n e = absurd (ground arith)
run_udp-Closes seqno64 end stop (a ∷ rest) r (w, ws) n e =
    let told = unsign seqno64 (take_udp seqno64 a r) in
    let numbered = take-IsNumbered seqno64 a r w n in
    let first = numbered-not_last seqno64 told numbered in
    if_intro (Returns (λ ps. Closes is_last ps × IsCons ps))
      (ends_loop a || is_fin seqno64 (take_udp seqno64 a r) || is_over end told.packet_time)
      (λ ends. ((first, refl), tt))
      (λ goes.
        Returns->>= (λ ps. Closes is_last ps × IsCons ps) (λ ps. Closes is_last ps × IsCons ps)
          (run_udp seqno64 end stop rest told) _
          (run_udp-Closes seqno64 end stop rest told ws numbered (ground arith))
          (λ ps c. Closes-behind told ps first c))

-- After any schedule of the agent and the reporter, once `reporterindex` is -1 the reporter has handled exactly the
-- reports that the loop of `RunUDP` made, in their order.
pub run_udp-handled :
    (size : ℕ) (slot : ℕ → ReportStruct) (ts : List Thread)
    → (seqno64 : Bool) (end : EndTime) (stop : Timeval) (answers : List Received) (r : ReportStruct)
    → (ps : List ReportStruct) → 2 < size
    → AllHaveWords answers
    → IsNumbered seqno64 r
    → any_end answers ≡ true
    → run_udp seqno64 end stop answers r ≡ some ps
    → (run size is_last ts (init size is_last slot ps)).reporterindex ≡ minus_one
    → (run size is_last ts (init size is_last slot ps)).handled ≡ ps
run_udp-handled size slot ts seqno64 end stop answers r ps big w n e made done =
    let (closes, _) =
      subst (Returns (λ qs. Closes is_last qs × IsCons qs)) made
        (run_udp-Closes seqno64 end stop answers r w n e) in
    (run_complete size is_last slot ps big closes ts done).1
