-- ===== src/Clients/Listener.antt =====
-- `Listener::Run` and the acceptance of UDP clients in `Listener::Accept` of iperf2-code/src/Listener.cpp: which clients get
-- a server thread. The sockets, the threads and the settings of a test of both ways are not modelled here.
use flexfcapf.Prelude.{
  ℕ, ◌^◌, Bool, true, false, not, ◌&&◌, ◌||◌, Option, none, some, List, [], ◌∷◌, if◌then◌else◌, ltb,
}
use flexfcapf.Prelude.Int.{ℤ, pos, ◌-ℤ◌, ltb_ℤ, eqb_ℤ}
use flexfcapf.Address.{Addr, host_are_equal}
use flexfcapf.Clients.{Entry, Registry, present, register, unregister}

abbrev pub is_absent : Option Entry → Bool
is_absent none = true
is_absent (some e) = false

abbrev pub is_null : List Entry → Bool
is_null [] = true
is_null (e ∷ es) = false

-- The loop of `Accept` for UDP: the sender of the first datagram, with its id, that is no known client and does not end a
-- stream; nothing as long as it waits.
unfoldable pub accept_udp : List Entry → List (Addr × ℕ) → Option Addr
accept_udp clients [] = none
accept_udp clients ((peer, id) ∷ rest) =
    let later = accept_udp clients rest in
    if is_absent (present peer clients) && ltb id (2 ^ 31) then some peer else later

-- The state of `Run`: the clients, `client` with the peer of the settings, `mClients`, and the clients for which a server
-- has been started, the last one first.
pub record Listening : Type 0 where
  pub registry : Registry
  pub is_limited : Bool
  pub peer : Addr
  pub left : ℤ
  pub served : List Addr

-- A client is accepted, and its header is read or is not; or the server of a client ends.
pub data Visit : Type 0 where
  arrives : Addr → (has_header : Bool) → Visit
  leaves : Addr → Visit

-- `// Reset Single Client Stuff`
unfoldable pub reset_single : Bool → Addr → Listening → Listening
reset_single is_single peer s =
    let less = s.left -ℤ pos 1 in
    if is_single && is_null s.registry.clients
    then record s {
      peer = peer;
      is_limited = true;
      left = if eqb_ℤ less (pos 0) then pos 1 else less;
    }
    else s

-- `// Verify that it is allowed`
unfoldable pub is_allowed : Addr → Listening → Bool
is_allowed peer s = not s.is_limited || host_are_equal s.peer peer

-- The client's entry and its server.
unfoldable pub serve : Bool → Addr → Listening → Listening
serve is_single peer s = record s {
  registry = register peer s.registry;
  served = peer ∷ s.served;
  left = if is_single then s.left else s.left -ℤ pos 1;
}

-- One round of the loop, or the end of a server.
unfoldable pub visit : Bool → Visit → Listening → Listening
unfolding reset_single is_allowed serve
visit is_single (arrives peer has_header) s =
    let t = reset_single is_single peer s in
    if is_allowed peer t && has_header then serve is_single peer t else t
visit is_single (leaves peer) s = record s { registry = unregister peer s.registry }

-- The loop: with a count it ends when `mClients` is not positive.
unfoldable pub listen : Bool → Bool → List Visit → Listening → Listening
unfolding visit
listen is_single is_counted [] s = s
listen is_single is_counted (v ∷ vs) s =
    let t = visit is_single v s in
    let later = listen is_single is_counted vs t in
    if is_counted && not (ltb_ℤ (pos 0) t.left) then t else later
