-- ===== src/Address/Port.antt =====
-- The port of an address.
use flexfcapf.Prelude.{
  ℕ, ◌^◌, ◌<◌, ◌≡◌, refl, none, some, if◌then◌else◌, arith, Ensures, Ensures->>=, Ensures-trivial,
}
use flexfcapf.Settings.{is_client}
use flexfcapf.Address.{
  Addr, ByteOrder, Resolver, Endpoint, set_port, set_port_any, get_port, host_addr, bind_local,
  local_addr, remote_addr, get_sizeof_sockaddr,
}

-- The conversions of a 16-bit number to network order and back.
unfoldable pub RoundTrips : ByteOrder → Type 0
RoundTrips o = (p : ℕ) → p < 2 ^ 16 → o.ntohs (o.htons p) ≡ p

-- The port that an endpoint is to have: the one after the colon of -B for a client, else that of -p.
abbrev pub wanted_port : Endpoint → ℕ
wanted_port e =
    if is_client e.thread_mode
    then elim e.localhost [ none ↦ 0 | some name ↦ e.bind_port ]
    else e.port

get_port-bind_local :
    (o : ByteOrder)
    → RoundTrips o
    → (e : Endpoint) (a : Addr) → e.port < 2 ^ 16
    → e.bind_port < 2 ^ 16
    → get_port o (bind_local o e a) ≡ wanted_port e
unfolding bind_local set_port_any set_port get_port RoundTrips
get_port-bind_local o r e a h k =
    let x0 = r 0 (omega arith) in
    let x1 = r e.port h in let x2 = r e.bind_port k in ground (arith, x0, x1, x2)

-- `SockAddr_localAddr` either exits or leaves the wanted port, and the size that goes with the family.
pub local_addr-port :
    (o : ByteOrder) (resolve : Resolver) (e : Endpoint)
    → RoundTrips o
    → e.port < 2 ^ 16
    → e.bind_port < 2 ^ 16
    → Ensures (λ (e' : Endpoint). get_port o e'.local_addr ≡ wanted_port e) (local_addr o resolve e)
unfolding local_addr
local_addr-port o resolve e r h k =
    Ensures->>= (λ _. Unit {0}) _ (host_addr resolve e.localhost e.flags) _ (Ensures-trivial _)
      (λ a _. get_port-bind_local o r e a h k)

-- `SockAddr_remoteAddr` either exits or leaves the port of -p in the peer's address, and the size of that
-- address.
pub remote_addr-port :
    (o : ByteOrder) (resolve : Resolver) (e : Endpoint)
    → RoundTrips o
    → e.port < 2 ^ 16
    → Ensures
        (λ (e' : Endpoint).
          (get_port o e'.peer ≡ e.port) × (e'.size_peer ≡ get_sizeof_sockaddr e'.peer))
        (remote_addr o resolve e)
unfolding remote_addr set_port get_port RoundTrips get_sizeof_sockaddr
remote_addr-port o resolve e r h =
    Ensures->>= (λ _. Unit {0}) _ (host_addr resolve e.host e.flags) _ (Ensures-trivial _)
      (λ a _. (r e.port h, refl))
