-- ===== src/Clients/Single/Streams.antt =====
-- `Listener::UDPSingleServer` of iperf2-code/src/Listener.cpp as one server for each client.
use flexfcapf.Prelude.{
  ℕ, ◌≡◌, refl, ap, ◌∙◌, Bool, true, false, not, ◌&&◌, List, [], ◌∷◌, ◌++◌, Bool-cases, inl, inr,
  if◌then◌else◌, if_intro,
}
use flexfcapf.Prelude.Int.{pos, ltb_ℤ}
use flexfcapf.Settings.{Timeval, ReportStruct}
use flexfcapf.Traffic.{Datagram}
use flexfcapf.Address.{Addr, are_equal}
use flexfcapf.Clients.Single.{
  Heard, heard, broken, over, Action, enters, turns_away, reports, closes, replies, Single,
  is_negative, serve_datagram, udp_single_server,
}
use flexfcapf.Clients.Single.Apart.{AllApart, is_known, are_equal_comm, known_same}
use flexfcapf.Clients.Single.Round.{clients_of, response, IsServed, serve_datagram-IsStep}

abbrev pub client_of : Action → Addr
client_of (enters a) = a
client_of (turns_away a) = a
client_of (reports a r) = a
client_of (closes a r) = a
client_of (replies a r) = a

-- What the server does with one client.
abbrev pub concerning : Addr → List Action → List Action
concerning peer [] = []
concerning peer (x ∷ xs) =
    if are_equal peer (client_of x) then x ∷ concerning peer xs else concerning peer xs

-- What comes from one client, and the end.
abbrev pub from_client : Addr → List Heard → List Heard
from_client peer [] = []
from_client peer (heard a len b time stop ∷ rest) =
    if are_equal peer a
    then heard a len b time stop ∷ from_client peer rest
    else from_client peer rest
from_client peer (broken ∷ rest) = broken ∷ from_client peer rest
from_client peer (over ∷ rest) = over ∷ from_client peer rest

-- A server of one client: it knows the client from a datagram with a number to one with a negative id.
abbrev pub follow : Bool → ReportStruct → List Heard → List Action
follow known r [] = []
follow known r (heard a len b time stop ∷ rest) =
    response known r a len b time stop ++ follow (not (is_negative b)) r rest
follow known r (broken ∷ rest) = []
follow known r (over ∷ rest) = []

-- What is done with one client alone.
abbrev Kept : Addr → Addr → List Action → Type 0
Kept peer a xs = concerning peer xs ≡ (if are_equal peer a then xs else [])

concerning-response :
    (peer : Addr) (known : Bool) (r : ReportStruct) (a : Addr) (len : ℕ) (b : Datagram)
    (time stop : Timeval)
    → concerning peer (response known r a len b time stop)
      ≡ (if are_equal peer a then response known r a len b time stop else [])
concerning-response peer known r a len b time stop =
    if_intro (Kept peer a) known
      (λ k.
        if_intro (Kept peer a) (is_negative b)
          (λ n. elim (Bool-cases (are_equal peer a)) [ inl q ↦ rw q | inr q ↦ rw q ])
          (λ n. elim (Bool-cases (are_equal peer a)) [ inl q ↦ rw q | inr q ↦ rw q ]))
      (λ k.
        if_intro (Kept peer a) (is_negative b)
          (λ n. elim (Bool-cases (are_equal peer a)) [ inl q ↦ rw q | inr q ↦ rw q ])
          (λ n. elim (Bool-cases (are_equal peer a)) [ inl q ↦ rw q | inr q ↦ rw q ]))

concerning-append :
    (peer : Addr) (xs ys : List Action)
    → concerning peer (xs ++ ys) ≡ concerning peer xs ++ concerning peer ys
concerning-append peer [] ys = refl
concerning-append peer (x ∷ xs) ys =
    if_intro
      (λ l.
        (if are_equal peer (client_of x)
          then x ∷ concerning peer (xs ++ ys)
          else concerning peer (xs ++ ys))
        ≡ l ++ concerning peer ys)
      (are_equal peer (client_of x)) (λ q. rw q (ap (λ l. x ∷ l) (concerning-append peer xs ys)))
      (λ q. rw q (concerning-append peer xs ys))

-- The round of a datagram goes on if the clients are not counted.
not_counted :
    (x y : Bool) (now : List Action) (t : Single) (later : List Action × Single)
    → (let z : List Action × Single =
          if x && (false && y) then (now, t) else (now ++ later.0, later.1) in
        z.0 ≡ now ++ later.0)
not_counted true y now t later = refl
not_counted false y now t later = refl

-- One client among others.
among :
    (peer a : Addr) (k : Bool) (b : Datagram) (r : ReportStruct) (rest : List Heard)
    (xs : List Action) (len : ℕ) (time stop : Timeval) (known known' : Bool)
    → (are_equal peer a ≡ true → known ≡ k)
    → known' ≡ (if are_equal a peer then not (is_negative b) else k)
    → xs ≡ follow known' r (from_client peer rest)
    → (if are_equal peer a then response known r a len b time stop else []) ++ xs
      ≡ follow k r (from_client peer (heard a len b time stop ∷ rest))
among peer a k b r rest xs len time stop known known' same next e =
    elim (Bool-cases (are_equal peer a)) [
      | inl q ↦
          rw (q, same q)
            (ap (λ l. response k r a len b time stop ++ l)
              (e
                ∙ ap (λ c. follow c r (from_client peer rest))
                    (next ∙ rw (are_equal_comm a peer ∙ q))))
      | inr q ↦
          rw q (
            e
            ∙ ap (λ c. follow c r (from_client peer rest)) (next ∙ rw (are_equal_comm a peer ∙ q)))
    ]

follows :
    (peer : Addr) (hs : List Heard) (s : Single) (r0 : ReportStruct)
    → IsServed s r0
    → concerning peer (udp_single_server false false hs s).0
      ≡ follow (is_known peer (clients_of s)) r0 (from_client peer hs)
unfolding udp_single_server
follows peer [] s r0 v = refl
follows peer (broken ∷ rest) s r0 v = refl
follows peer (over ∷ rest) s r0 v = refl
follows peer (heard a len b time stop ∷ rest) s r0 v =
    let x = serve_datagram false a len b time stop s in
    let p = serve_datagram-IsStep r0 peer a len b time stop s v in
    let later = udp_single_server false false rest x.1 in
    ap (concerning peer) (not_counted _ (not (ltb_ℤ (pos 0) x.1.listening.left)) x.0 x.1 later)
    ∙ (concerning-append peer x.0 later.0
        ∙ (ap (λ l. l ++ concerning peer later.0)
              (ap (concerning peer) p.acts
                ∙ concerning-response peer (is_known a (clients_of s)) r0 a len b time stop)
            ∙ among peer a (is_known peer (clients_of s)) b r0 rest (concerning peer later.0) len
                time stop (is_known a (clients_of s)) (is_known peer (clients_of x.1))
                (λ q. known_same a peer (clients_of s) (are_equal_comm a peer ∙ q)) p.known
                (follows peer rest x.1 r0 p.served)))

-- With no count of clients, not one client at a time and no host set, and no address twice in the list: what the server does
-- with a client, in the order of what it does, is what a server of that client alone does with the client's own datagrams:
-- it reports those between the one that enters the client and the one with a negative id, that one included, which it closes
-- the report for and answers; one with a negative id before that is answered only.
pub udp_single_server-follow :
    (peer : Addr) (hs : List Heard) (s : Single)
    → AllApart s.listening.registry.clients
    → s.listening.is_limited ≡ false
    → concerning peer (udp_single_server false false hs s).0
      ≡ follow (is_known peer s.listening.registry.clients) s.report (from_client peer hs)
udp_single_server-follow peer hs s a u =
    follows peer hs s s.report (record { apart = a; unlimited = u; filled = λ len b time. refl })
