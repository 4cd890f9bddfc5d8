-- ===== src/Clients/Only.antt =====
-- One host at a time in iperf2-code/src/Listener.cpp.
use flexfcapf.Prelude.{
  ◌≡◌, refl, ap, Bool, true, false, not, ◌&&◌, Option, none, some, List, [], ◌∷◌, if_intro, arith,
}
use flexfcapf.Prelude.Int.{pos, ltb_ℤ}
use flexfcapf.Address.{Addr, are_equal, host_are_equal}
use flexfcapf.Clients.{
  Entry, Registry, pushback, hostpresent, delete, register_in, register, unregister,
}
use flexfcapf.Clients.Listener.{
  Listening, Visit, arrives, leaves, is_null, reset_single, is_allowed, serve, visit, listen,
}

-- Every entry has the host of an address.
abbrev pub AllFrom : Addr → List Entry → Type 0
AllFrom peer [] = Unit
AllFrom peer (e ∷ es) = (host_are_equal peer e.addr ≡ true) × AllFrom peer es

-- With one client at a time, the clients have the host of the peer once there is a limit, and before there are none.
pub record IsOnly (s : Listening) : Type 0 where
  pub from : AllFrom s.peer s.registry.clients
  pub unlimited : s.is_limited ≡ false → s.registry.clients ≡ []

from_null : (peer other : Addr) (es : List Entry) → is_null es ≡ true → AllFrom other es
from_null peer other [] h = tt
from_null peer other (e ∷ es) h = absurd (ground arith)

delete-AllFrom :
    (peer del : Addr) (es : List Entry) → AllFrom peer es → AllFrom peer (delete del es)
unfolding delete
delete-AllFrom peer del [] a = tt
delete-AllFrom peer del (e ∷ es) a =
    if_intro (AllFrom peer) (are_equal e.addr del) (λ q. a.1)
      (λ q. (a.0, delete-AllFrom peer del es a.1))

delete-null : (del : Addr) (es : List Entry) → es ≡ [] → delete del es ≡ []
unfolding delete
delete-null del es h = ap (delete del) h

register_in-AllFrom :
    (peer new : Addr) (o : Option Entry) (s : Registry)
    → host_are_equal peer new ≡ true
    → AllFrom peer s.clients
    → AllFrom peer (register_in o new s).clients
unfolding register_in pushback
register_in-AllFrom peer new none s h a = (h, a)
register_in-AllFrom peer new (some e) s h a = (h, a)

reset-IsOnly : (peer : Addr) (s : Listening) → IsOnly s → IsOnly (reset_single true peer s)
unfolding reset_single
reset-IsOnly peer s o =
    if_intro IsOnly (is_null s.registry.clients)
      (λ q. record {
        from = from_null peer peer s.registry.clients q;
        unlimited = λ e. absurd (ground arith);
      })
      (λ q. o)

limited_from : (b : Bool) (es : List Entry) → (b ≡ false → es ≡ []) → is_null es ≡ false → b ≡ true
limited_from true es u q = refl
limited_from false es u q = let n : is_null es ≡ true = ap is_null (u refl) in absurd (ground arith)

limited_of : (s : Listening) → IsOnly s → is_null s.registry.clients ≡ false → s.is_limited ≡ true
limited_of s o q = limited_from s.is_limited s.registry.clients o.unlimited q

reset-is_limited :
    (peer : Addr) (s : Listening) → IsOnly s → (reset_single true peer s).is_limited ≡ true
unfolding reset_single
reset-is_limited peer s o =
    if_intro (λ (t : Listening). t.is_limited ≡ true) (is_null s.registry.clients) (λ q. refl)
      (λ q. limited_of s o q)

serve-IsOnly :
    (peer : Addr) (t : Listening)
    → t.is_limited ≡ true
    → host_are_equal t.peer peer ≡ true
    → IsOnly t
    → IsOnly (serve true peer t)
unfolding serve register
serve-IsOnly peer t l h o = record {
  from = register_in-AllFrom t.peer peer (hostpresent peer t.registry.clients) t.registry h o.from;
  unlimited = λ e. absurd (ground arith);
}

allowed_host :
    (peer : Addr) (has_header : Bool) (t : Listening)
    → t.is_limited ≡ true
    → (is_allowed peer t && has_header) ≡ true
    → host_are_equal t.peer peer ≡ true
unfolding is_allowed
allowed_host peer has_header t l q = ground arith

visit-IsOnly : (v : Visit) (s : Listening) → IsOnly s → IsOnly (visit true v s)
unfolding visit unregister
visit-IsOnly (leaves peer) s o = record {
  from = delete-AllFrom s.peer peer s.registry.clients o.from;
  unlimited = λ e. delete-null peer s.registry.clients (o.unlimited e);
}
visit-IsOnly (arrives peer has_header) s o =
    let t = reset_single true peer s in
    let l = reset-is_limited peer s o in
    if_intro IsOnly (is_allowed peer t && has_header)
      (λ q. serve-IsOnly peer t l (allowed_host peer has_header t l q) (reset-IsOnly peer s o))
      (λ q. reset-IsOnly peer s o)

-- With one client at a time, when every client of the list has the host of the peer, and the list is empty as long as no
-- peer is set, the same holds after the loop has seen any accepted connections and any ends of servers, whether the loop
-- counts its clients or not.
pub listen-IsOnly :
    (is_counted : Bool) (vs : List Visit) (s : Listening)
    → IsOnly s
    → IsOnly (listen true is_counted vs s)
unfolding listen
listen-IsOnly is_counted [] s o = o
listen-IsOnly is_counted (v ∷ vs) s o =
    let t = visit true v s in
    let p = visit-IsOnly v s o in
    if_intro IsOnly (is_counted && not (ltb_ℤ (pos 0) t.left)) (λ q. p)
      (λ q. listen-IsOnly is_counted vs t p)
