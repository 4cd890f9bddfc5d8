-- ===== src/Clients/Single/Apart.antt =====
-- The list of clients in iperf2-code/src/List.cpp as a set of addresses.
use flexfcapf.Prelude.{
  ◌≡◌, refl, ap, ap₂, sym, ◌∙◌, Bool, true, false, not, ◌&&◌, ◌||◌, Option, none, some, List, [],
  ◌∷◌, if_intro, arith, Bool-cases, inl, inr,
}
use flexfcapf.Address.{Addr, are_equal}
use flexfcapf.Address.Compare.{are_equal-host, host_are_equal_comm}
use flexfcapf.Clients.{
  Entry, Registry, present, delete, register, register_in, pushback, hostpresent,
}
use flexfcapf.Clients.Groups.{host_are_equal_left}
use flexfcapf.Clients.Listener.{is_absent}

-- Addresses that are equal are alike for every other.
pub are_equal_left : (a b c : Addr) → are_equal a b ≡ true → are_equal a c ≡ are_equal b c
are_equal_left a b c h =
    let f = host_are_equal_left a b c in
    rw (are_equal-host a c, are_equal-host b c) (ground (arith, are_equal-host a b, f))

pub are_equal_comm : (a b : Addr) → are_equal a b ≡ are_equal b a
are_equal_comm a b =
    rw (are_equal-host a b, are_equal-host b a) (ground (arith, host_are_equal_comm a b))

abbrev pub is_known : Addr → List Entry → Bool
is_known peer es = not (is_absent (present peer es))

-- No two entries have the same address.
abbrev pub AllApart : List Entry → Type 0
AllApart [] = Unit
AllApart (e ∷ es) = (is_known e.addr es ≡ false) × AllApart es

known_step :
    (peer : Addr) (e : Entry) (es : List Entry)
    → is_known peer (e ∷ es) ≡ (are_equal e.addr peer || is_known peer es)
unfolding present
known_step peer e es = ground arith

pub known_same :
    (a b : Addr) (es : List Entry) → are_equal a b ≡ true → is_known a es ≡ is_known b es
unfolding present
known_same a b [] h = refl
known_same a b (e ∷ es) h =
    let same = are_equal_comm e.addr a ∙ (are_equal_left a b e.addr h ∙ are_equal_comm b e.addr) in
    known_step a e es ∙ (ap₂ (λ p q. p || q) same (known_same a b es h) ∙ sym (known_step b e es))

and_false : (b : Bool) → false ≡ (b && false)
and_false b = ground arith

delete_here :
    (peer del : Addr) (e : Entry) (es : List Entry)
    → are_equal e.addr del ≡ true
    → is_known e.addr es ≡ false
    → is_known peer es ≡ (not (are_equal peer del) && (are_equal e.addr peer || is_known peer es))
delete_here peer del e es q a =
    let same : are_equal e.addr peer ≡ are_equal peer del =
      are_equal_left e.addr del peer q ∙ are_equal_comm del peer in
    elim (Bool-cases (are_equal e.addr peer)) [
      | inl y ↦ ground (arith, known_same e.addr peer es y)
      | inr n ↦ ground arith
    ]

delete_there :
    (peer del : Addr) (e : Entry) (es : List Entry)
    → are_equal e.addr del ≡ false
    → is_known peer (delete del es) ≡ (not (are_equal peer del) && is_known peer es)
    → (are_equal e.addr peer || is_known peer (delete del es))
      ≡ (not (are_equal peer del) && (are_equal e.addr peer || is_known peer es))
delete_there peer del e es q ih = rw ih (ground (arith, are_equal_left e.addr peer del))

none_left : (b : Bool) {k : Bool} → k ≡ false → (b && k) ≡ false
none_left b h = ground arith

pub known-delete :
    (peer del : Addr) (es : List Entry)
    → AllApart es
    → is_known peer (delete del es) ≡ (not (are_equal peer del) && is_known peer es)
unfolding delete present
known-delete peer del [] a = and_false (not (are_equal peer del))
known-delete peer del (e ∷ es) a =
    if_intro (λ l. is_known peer l ≡ (not (are_equal peer del) && is_known peer (e ∷ es)))
      (are_equal e.addr del)
      (λ q.
        delete_here peer del e es q a.0
        ∙ ap (λ k. not (are_equal peer del) && k) (sym (known_step peer e es)))
      (λ q.
        known_step peer e (delete del es)
        ∙ (delete_there peer del e es q (known-delete peer del es a.1)
            ∙ ap (λ k. not (are_equal peer del) && k) (sym (known_step peer e es))))

pub delete-AllApart : (del : Addr) (es : List Entry) → AllApart es → AllApart (delete del es)
unfolding delete
delete-AllApart del [] a = tt
delete-AllApart del (e ∷ es) a =
    if_intro AllApart (are_equal e.addr del) (λ q. a.1)
      (λ q. (
        known-delete e.addr del es a.1 ∙ none_left (not (are_equal e.addr del)) a.0,
        delete-AllApart del es a.1,
      ))

known-register_in :
    (peer new : Addr) (o : Option Entry) (s : Registry)
    → is_known peer (register_in o new s).clients ≡ (are_equal new peer || is_known peer s.clients)
unfolding register_in pushback
known-register_in peer new none s = known_step peer _ s.clients
known-register_in peer new (some e) s = known_step peer _ s.clients

register_in-AllApart :
    (new : Addr) (o : Option Entry) (s : Registry)
    → is_known new s.clients ≡ false
    → AllApart s.clients
    → AllApart (register_in o new s).clients
unfolding register_in pushback
register_in-AllApart new none s k a = (k, a)
register_in-AllApart new (some e) s k a = (k, a)

-- The client that is entered is known from then on.
pub known-register :
    (peer new : Addr) (s : Registry)
    → is_known peer (register new s).clients ≡ (are_equal new peer || is_known peer s.clients)
unfolding register
known-register peer new s = known-register_in peer new (hostpresent new s.clients) s

pub register-AllApart :
    (new : Addr) (s : Registry)
    → is_known new s.clients ≡ false
    → AllApart s.clients
    → AllApart (register new s).clients
unfolding register
register-AllApart new s k a = register_in-AllApart new (hostpresent new s.clients) s k a
