-- ===== src/Clients/Single.antt =====
-- `Listener::UDPSingleServer` of iperf2-code/src/Listener.cpp: one thread that serves all of the UDP clients. What the socket
-- answers is the input. The settings of a test of both ways, the sockets and the numbers in an acknowledgement are not
-- modelled here.
pub mod Apart
pub mod Round
pub mod Streams
use flexfcapf.Prelude.{
  ℕ, ◌+◌, ◌-◌, ◌%◌, ◌^◌, Bool, true, false, not, ◌&&◌, List, [], ◌∷◌, ◌++◌, if◌then◌else◌, ltb,
}
use flexfcapf.Prelude.Int.{ℤ, pos, as_signed, ltb_ℤ}
use flexfcapf.Prelude.Bits.{has_bit}
use flexfcapf.Address.{Addr}
use flexfcapf.Settings.{Timeval, ReportStruct}
use flexfcapf.Traffic.{Datagram, close_report, after_close}
use flexfcapf.Clients.{present, unregister}
use flexfcapf.Clients.Listener.{Listening, is_absent, reset_single, is_allowed, serve}

-- What `recvfrom` answers: a datagram of `len` bytes at a time, with the time after its report, or an error; or the time
-- of -t is over, or a signal has come.
pub data Heard : Type 0 where
  heard : Addr → (len : ℕ) → Datagram → Timeval → (stop : Timeval) → Heard
  broken over : Heard

-- What is written into the datagram that is sent back.
pub data Reply : Type 0 where
  statistics : Reply  -- HEADER_VERSION1 and the numbers of the report
  no_flags : Reply
  as_received : Reply

-- What the server does with a client: it enters it in its list, turns it away, hands a record to its report by `ReportPacket`
-- or by `CloseReport`, or sends a datagram back.
pub data Action : Type 0 where
  enters turns_away : Addr → Action
  reports closes : Addr → ReportStruct → Action
  replies : Addr → Reply → Action

-- The listener and `reportstruct`, which serves for all of the clients.
pub record Single : Type 0 where
  pub listening : Listening
  pub report : ReportStruct

-- The id of a datagram is negative.
abbrev pub is_negative : Datagram → Bool
is_negative b = has_bit b.id 31

-- `datagramID`, or `-datagramID` if it is negative.
unfoldable pub datagram_id : Datagram → ℤ
datagram_id b = if is_negative b then as_signed 32 ((2 ^ 32 - b.id) % 2 ^ 32) else pos b.id

-- `// read the datagram ID and sentTime out of the buffer`
unfoldable pub fill_report : ℕ → Datagram → Timeval → ReportStruct → ReportStruct
unfolding datagram_id
fill_report len b time r = record r {
  packet_id = datagram_id b;
  sent_time = record { sec = b.tv_sec; usec = b.tv_usec };
  packet_len = len;
  packet_time = time;
}

-- There is room for an acknowledgement: `sizeof(UDP_datagram) + sizeof(server_hdr)`.
abbrev pub has_room : ℕ → Bool
has_room len = ltb (16 + 104) len

abbrev pub reply_to : Bool → ℕ → Reply
reply_to is_known len =
    if has_room len then (if is_known then statistics else no_flags) else as_received

-- A datagram of a client in the list. The last one removes the client.
unfoldable pub serve_known : Addr → ℕ → Datagram → Timeval → Timeval → Single → List Action × Single
serve_known peer len b time stop s =
    let told = fill_report len b time s.report in
    let ended = record told { packet_time = stop } in
    if is_negative b
    then (
      reports peer told ∷ closes peer (close_report ended) ∷ replies peer (reply_to true len) ∷ [],
      record {
        listening = record s.listening { registry = unregister peer s.listening.registry };
        report = after_close ended;
      },
    )
    else (reports peer told ∷ [], record s { report = told })

-- A first datagram: the number for its socket is taken, and if the client is allowed then it is entered.
unfoldable pub admit : Bool → Addr → Single → List Action × Single
unfolding reset_single is_allowed serve
admit is_single peer s =
    let old = s.listening in
    let numbered = record old {
      registry = record old.registry { groups = old.registry.groups + 1 };
    } in
    let t = reset_single is_single peer numbered in
    if is_allowed peer t
    then (enters peer ∷ [], record s { listening = serve is_single peer t })
    else (turns_away peer ∷ [], record s { listening = t })

-- A datagram of a client that is not in the list.
unfoldable pub serve_unknown : Bool → Addr → ℕ → Datagram → Single → List Action × Single
unfolding admit
serve_unknown is_single peer len b s =
    if is_negative b then (replies peer (reply_to false len) ∷ [], s) else admit is_single peer s

unfoldable pub serve_datagram :
    Bool → Addr → ℕ → Datagram → Timeval → Timeval → Single → List Action × Single
unfolding serve_known serve_unknown
serve_datagram is_single peer len b time stop s =
    if is_absent (present peer s.listening.registry.clients)
    then serve_unknown is_single peer len b s
    else serve_known peer len b time stop s

-- The two loops. The test of the outer one is made when a first datagram has been served; before that it has passed.
unfoldable pub udp_single_server : Bool → Bool → List Heard → Single → List Action × Single
unfolding serve_datagram
udp_single_server is_single is_counted [] s = ([], s)
udp_single_server is_single is_counted (broken ∷ rest) s = ([], s)
udp_single_server is_single is_counted (over ∷ rest) s = ([], s)
udp_single_server is_single is_counted (heard peer len b time stop ∷ rest) s =
    let (now, t) = serve_datagram is_single peer len b time stop s in
    let later = udp_single_server is_single is_counted rest t in
    let is_first = is_absent (present peer s.listening.registry.clients) && not (is_negative b) in
    if is_first && (is_counted && not (ltb_ℤ (pos 0) t.listening.left))
    then (now, t)
    else (now ++ later.0, later.1)
