-- ===== src/Traffic/Delivery.antt =====
-- A UDP test from end to end: what the loop of `Client::Run` in iperf2-code/src/Client.cpp has written, a network that may
-- lose, repeat and reorder it, and the loop of `Server::RunUDP` in iperf2-code/src/Server.cpp.
pub mod Counted
pub mod Lost
use flexfcapf.Prelude.{
  ℕ, zero, suc, ◌+◌, ◌%◌, ◌^◌, ◌≤◌, ◌<◌, ◌≡◌, refl, ap, sym, subst, ◌∙◌, Bool, true, false, ◌||◌,
  Option, some, List, ◌⊎◌, inl, inr, [], ◌∷◌, ◌++◌, map, length, if◌then◌else◌, if_intro, Returns,
  Returns->>=, arith,
}
use flexfcapf.Prelude.Int.{ℤ, pos, negsuc, to_unsigned}
use flexfcapf.Prelude.Bits.{has_bit}
use flexfcapf.Settings.{Timeval, ReportStruct}
use flexfcapf.Traffic.{Datagram, EndTime, never, is_over, read_id, is_fin, unsign, close_report}
use flexfcapf.Traffic.Ids.{true_not_false}
use flexfcapf.Traffic.Server.{Received, data_of, ends_loop, take_udp, run_udp}
use flexfcapf.Traffic.Client.{UdpRun}
use flexfcapf.Traffic.Sent.{All, Ends}

-- A datagram as the server receives it.
pub record Arrival : Type 0 where
  pub len : ℕ
  pub datagram : Datagram
  pub time : Timeval

-- The datagram is one of those that were written.
abbrev pub IsOneOf : Datagram → List Datagram → Type 0
IsOneOf b [] = ⊥
IsOneOf b (c ∷ cs) = (b ≡ c) ⊎ IsOneOf b cs

-- What the network delivers, in any order: some of the datagrams may be missing, others may come twice.
abbrev pub AreOf : List Arrival → List Datagram → Type 0
AreOf [] wire = Unit
AreOf (a ∷ others) wire = IsOneOf a.datagram wire × AreOf others wire

-- The answers of the socket: the arrivals, then the datagram that ends the stream, then whatever comes.
abbrev pub answered : List Arrival → Arrival → List Received → List Received
answered [] fin rest = data_of fin.len fin.datagram fin.time ∷ rest
answered (a ∷ others) fin rest = data_of a.len a.datagram a.time ∷ answered others fin rest

-- The report of a datagram with a number.
abbrev pub Reports : ℕ → ReportStruct → Type 0
Reports n p = (p.packet_id ≡ pos n) × (p.emptyreport ≡ false)

-- `k` reports with the number `f`, then one with the number `n`, then one that closes.
abbrev pub Tells : (f n k : ℕ) → List ReportStruct → Type 0
Tells f n zero (p ∷ q ∷ []) = Reports n p × (q.packet_id ≡ negsuc 0)
Tells f n (suc k) (p ∷ ps) = Reports f p × Tells f n k ps
Tells f n k ps = ⊥

stamp_of :
    (P : Datagram → Type 0) (b : Datagram) (wire : List Datagram)
    → All P wire
    → IsOneOf b wire
    → P b
stamp_of P b [] h k = absurd k
stamp_of P b (c ∷ cs) h (inl e) = subst P (sym e) h.0
stamp_of P b (c ∷ cs) h (inr k) = stamp_of P b cs h.1 k

not_fin : (b f : ℕ) → f < 2 ^ 31 → b ≡ f % 2 ^ 32 → (b ≡ f) × (has_bit (b % 2 ^ 64) 31 ≡ false)
not_fin b f h e = (omega arith, ground arith)

-- The number that ends the stream is read as `n`.
abbrev pub IsFin : ℕ → Datagram → Type 0
IsFin n b =
    (old : ReportStruct)
    → (is_fin false (read_id false b old) ≡ true)
      × ((unsign false (read_id false b old)).packet_id ≡ pos n)

unsign_kept : (seqno64 : Bool) (r : ReportStruct) → (unsign seqno64 r).emptyreport ≡ r.emptyreport
unfolding unsign
unsign_kept seqno64 r =
    if_intro (λ (t : ReportStruct). t.emptyreport ≡ r.emptyreport) (is_fin seqno64 r) (λ _. refl)
      (λ _. refl)

unsign_plain :
    (r : ReportStruct) (f : ℕ)
    → r.packet_id ≡ pos f
    → is_fin false r ≡ false
    → (unsign false r).packet_id ≡ pos f
unfolding unsign
unsign_plain r f e plain =
    if_intro (λ (t : ReportStruct). t.packet_id ≡ pos f) (is_fin false r)
      (λ on. absurd (true_not_false (sym on ∙ plain))) (λ _. e)

either : (b : Bool) → b || false ≡ true → b ≡ false → ⊥
either b h k = ground arith

run_udp-Tells :
    (f n : ℕ) (stop : Timeval) (others : List Arrival) (wire : List Datagram) (fin : Arrival)
    (rest : List Received) (r : ReportStruct)
    → f < 2 ^ 31
    → All (λ b. b.id ≡ f % 2 ^ 32) wire
    → AreOf others wire
    → IsFin n fin.datagram
    → Returns (Tells f n (length others)) (run_udp false never stop (answered others fin rest) r)
unfolding run_udp take_udp close_report read_id is_fin
run_udp-Tells f n stop [] wire fin rest r h w k e =
    let got : ReportStruct = take_udp false (data_of fin.len fin.datagram fin.time) r in
    let x = e (record r { emptyreport = false; packet_len = fin.len; packet_time = fin.time }) in
    if_intro (Returns (Tells f n 0)) (is_fin false got || false)
      (λ _. ((x.1, unsign_kept false got), refl)) (λ off. absurd (ground arith))
run_udp-Tells f n stop (a ∷ others) wire fin rest r h w (k, ks) e =
    let got : ReportStruct = take_udp false (data_of a.len a.datagram a.time) r in
    let (same, plain) =
      not_fin a.datagram.id f h (stamp_of (λ b. b.id ≡ f % 2 ^ 32) a.datagram wire w k) in
    if_intro (Returns (Tells f n (suc (length others)))) (is_fin false got || false)
      (λ on. absurd (either (is_fin false got) on plain))
      (λ _.
        Returns->>= (Tells f n (length others)) (Tells f n (suc (length others))) _ _
          (run_udp-Tells f n stop others wire fin rest (unsign false got) h w ks e)
          (λ ps t. ((unsign_plain got f (ap pos same) plain, unsign_kept false got), t)))
