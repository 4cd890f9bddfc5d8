-- ===== src/Clients/Groups.antt =====
-- The groups of the clients in iperf2-code/src/Listener.cpp, whose reports are summed.
use flexfcapf.Prelude.{
  ℕ, ◌+◌, ◌≤◌, ◌≡◌, ◌↔◌, refl, ap, ap₂, ==→eq, sym, subst, ◌∙◌, true, false, ◌&&◌, none, some, List,
  [], ◌∷◌, if_intro, arith, Option-cases, inl, inr,
}
use mathlib.Core.Option.{some_inj}
use flexfcapf.Address.{Family, Addr, is_inet, is_inet6, same_bytes, are_equal, host_are_equal}
use flexfcapf.Address.Compare.{host_are_equal_comm}
use flexfcapf.Clients.{
  Entry, Registry, pushback, hostpresent, delete, register_in, register, unregister, Event, comes,
  goes, act, act_all,
}

-- Entries with the same host, and only those, share a group.
abbrev pub Agree : Entry → Entry → Type 0
Agree e f = (host_are_equal e.addr f.addr ≡ true) ↔ (e.holder ≡ f.holder)

abbrev pub AgreesWithAll : Entry → List Entry → Type 0
AgreesWithAll e [] = Unit
AgreesWithAll e (f ∷ fs) = Agree e f × AgreesWithAll e fs

abbrev pub AllAgree : List Entry → Type 0
AllAgree [] = Unit
AllAgree (e ∷ es) = AgreesWithAll e es × AllAgree es

-- The groups have their numbers.
abbrev pub AllNumbered : ℕ → List Entry → Type 0
AllNumbered n [] = Unit
AllNumbered n (e ∷ es) = (e.holder ≤ n) × AllNumbered n es

abbrev pub IsGrouped : Registry → Type 0
IsGrouped s = AllAgree s.clients × AllNumbered s.groups s.clients

same_bytes→eq : (xs ys : List ℕ) → same_bytes xs ys ≡ true → xs ≡ ys
same_bytes→eq [] [] h = refl
same_bytes→eq [] (y ∷ ys) h = absurd (ground arith)
same_bytes→eq (x ∷ xs) [] h = absurd (ground arith)
same_bytes→eq (x ∷ xs) (y ∷ ys) h =
    ap₂ (λ b bs. b ∷ bs) (==→eq x y (ground arith)) (same_bytes→eq xs ys (ground arith))

one_family : (f : Family) → is_inet f && is_inet6 f ≡ false
one_family Family.inet = refl
one_family Family.inet6 = refl
one_family Family.unspec = refl
one_family Family.other = refl

same_bytes_left :
    (xs ys zs : List ℕ) → same_bytes xs ys ≡ true → same_bytes xs zs ≡ same_bytes ys zs
same_bytes_left xs ys zs h = ap (λ l. same_bytes l zs) (same_bytes→eq xs ys h)

-- Entries with the same host are alike for every other.
pub host_are_equal_left :
    (a b c : Addr) → host_are_equal a b ≡ true → host_are_equal a c ≡ host_are_equal b c
unfolding host_are_equal
host_are_equal_left a b c h =
    ground
      (arith, h, one_family a.family, one_family b.family, same_bytes_left a.addr6 b.addr6 c.addr6)

true_not_false : true ≡ false → ⊥
true_not_false e = ground arith

none_not_some : {e : Entry} → none ≡ some e → ⊥
none_not_some h = cc h

pub host_are_equal-sym : (a b : Addr) → host_are_equal a b ≡ true → host_are_equal b a ≡ true
host_are_equal-sym a b h = host_are_equal_comm b a ∙ h

-- What is found has the host, and agrees with what agrees with all.
found :
    (peer : Addr) (es : List Entry) (e : Entry)
    → hostpresent peer es ≡ some e
    → (host_are_equal e.addr peer ≡ true) × ((x : Entry) → AgreesWithAll x es → Agree x e)
unfolding hostpresent
found peer [] e h = absurd (none_not_some h)
found peer (f ∷ fs) e h =
    if_intro
      (λ o.
        o ≡ some e
        → (host_are_equal e.addr peer ≡ true)
          × ((x : Entry) → AgreesWithAll x (f ∷ fs) → Agree x e))
      (host_are_equal f.addr peer)
      (λ q k.
        let same : f ≡ e = some_inj.0 k in
        (
          subst (λ (g : Entry). host_are_equal g.addr peer ≡ true) same q,
          λ x a. subst (Agree x) same a.0,
        ))
      (λ q k. let (here, there) = found peer fs e k in (here, λ x a. there x a.1)) h

-- A client with the host of one that is found is to agree with every other.
Agree-host :
    (peer : Addr) (e f : Entry)
    → host_are_equal e.addr peer ≡ true
    → Agree e f
    → Agree (record { addr = peer; holder = e.holder }) f
Agree-host peer e f h a =
    let same = host_are_equal_left e.addr peer f.addr h in
    (λ q. a.0 (same ∙ q), λ q. sym same ∙ a.1 q)

Agree-sym : (e f : Entry) → Agree e f → Agree f e
Agree-sym e f a = (
  λ q. sym (a.0 (host_are_equal-sym f.addr e.addr q)),
  λ q. host_are_equal-sym e.addr f.addr (a.1 (sym q)),
)

all_host :
    (peer : Addr) (e : Entry) (fs : List Entry)
    → host_are_equal e.addr peer ≡ true
    → AgreesWithAll e fs
    → AgreesWithAll (record { addr = peer; holder = e.holder }) fs
all_host peer e [] h a = tt
all_host peer e (f ∷ fs) h a = (Agree-host peer e f h a.0, all_host peer e fs h a.1)

found-agrees :
    (peer : Addr) (es : List Entry) (e : Entry)
    → hostpresent peer es ≡ some e
    → AllAgree es
    → AgreesWithAll (record { addr = peer; holder = e.holder }) es
unfolding hostpresent
found-agrees peer [] e h a = tt
found-agrees peer (f ∷ fs) e h a =
    if_intro (λ o. o ≡ some e → AgreesWithAll (record { addr = peer; holder = e.holder }) (f ∷ fs))
      (host_are_equal f.addr peer)
      (λ q k.
        let same : f ≡ e = some_inj.0 k in
        subst (λ (g : Entry). AgreesWithAll (record { addr = peer; holder = g.holder }) (f ∷ fs))
          same ((λ _. refl, λ _. host_are_equal-sym f.addr peer q), all_host peer f fs q a.0))
      (λ q k.
        let (here, there) = found peer fs e k in
        (Agree-host peer e f here (Agree-sym f e (there f a.0)), found-agrees peer fs e k a.1))
      h

-- If no entry has the host then a new group is apart from all.
fresh-agrees :
    (peer : Addr) (es : List Entry) (n : ℕ)
    → hostpresent peer es ≡ none
    → AllNumbered n es
    → AgreesWithAll (record { addr = peer; holder = n + 1 }) es
unfolding hostpresent
fresh-agrees peer [] n h a = tt
fresh-agrees peer (f ∷ fs) n h a =
    if_intro (λ o. o ≡ none → AgreesWithAll (record { addr = peer; holder = n + 1 }) (f ∷ fs))
      (host_are_equal f.addr peer) (λ q k. absurd (none_not_some (sym k)))
      (λ q k. (
        (
          λ e. absurd (true_not_false (sym (host_are_equal-sym peer f.addr e) ∙ q)),
          λ e. absurd (omega (arith, a.0, e)),
        ),
        fresh-agrees peer fs n k a.1,
      ))
      h

numbered-more : (n : ℕ) (es : List Entry) → AllNumbered n es → AllNumbered (n + 1) es
numbered-more n [] a = tt
numbered-more n (e ∷ es) a = (omega (arith, a.0), numbered-more n es a.1)

found-numbered :
    (peer : Addr) (es : List Entry) (e : Entry) (n : ℕ)
    → hostpresent peer es ≡ some e
    → AllNumbered n es
    → e.holder ≤ n
unfolding hostpresent
found-numbered peer [] e n h a = absurd (none_not_some h)
found-numbered peer (f ∷ fs) e n h a =
    if_intro (λ o. o ≡ some e → e.holder ≤ n) (host_are_equal f.addr peer)
      (λ q k. subst (λ (g : Entry). g.holder ≤ n) (some_inj.0 k) a.0)
      (λ q k. found-numbered peer fs e n k a.1) h

register-IsGrouped : (peer : Addr) (s : Registry) → IsGrouped s → IsGrouped (register peer s)
unfolding register register_in pushback
register-IsGrouped peer s (a, n) = elim (Option-cases (hostpresent peer s.clients)) [
  | inl none_there ↦
      subst (λ o. IsGrouped (register_in o peer s)) (sym none_there)
        (
          (fresh-agrees peer s.clients s.groups none_there n, a),
          (omega arith, numbered-more s.groups s.clients n),
        )
  | inr (e, there) ↦
      subst (λ o. IsGrouped (register_in o peer s)) (sym there)
        (
          (found-agrees peer s.clients e there a, a),
          (found-numbered peer s.clients e s.groups there n, n),
        )
]

delete-agrees :
    (del : Addr) (e : Entry) (es : List Entry)
    → AgreesWithAll e es
    → AgreesWithAll e (delete del es)
unfolding delete
delete-agrees del e [] a = tt
delete-agrees del e (f ∷ fs) a =
    if_intro (AgreesWithAll e) (are_equal f.addr del) (λ q. a.1)
      (λ q. (a.0, delete-agrees del e fs a.1))

delete-AllAgree : (del : Addr) (es : List Entry) → AllAgree es → AllAgree (delete del es)
unfolding delete
delete-AllAgree del [] a = tt
delete-AllAgree del (f ∷ fs) a =
    if_intro AllAgree (are_equal f.addr del) (λ q. a.1)
      (λ q. (delete-agrees del f fs a.0, delete-AllAgree del fs a.1))

delete-AllNumbered :
    (del : Addr) (n : ℕ) (es : List Entry) → AllNumbered n es → AllNumbered n (delete del es)
unfolding delete
delete-AllNumbered del n [] a = tt
delete-AllNumbered del n (f ∷ fs) a =
    if_intro (AllNumbered n) (are_equal f.addr del) (λ q. a.1)
      (λ q. (a.0, delete-AllNumbered del n fs a.1))

act-IsGrouped : (e : Event) (s : Registry) → IsGrouped s → IsGrouped (act e s)
unfolding act unregister
act-IsGrouped (comes peer) s g = register-IsGrouped peer s g
act-IsGrouped (goes peer) s (a, n) =
    (delete-AllAgree peer s.clients a, delete-AllNumbered peer s.groups s.clients n)

-- From a list in which it is so, whatever clients come and go, two clients in the list are summed in one group exactly if
-- they have the same host.
pub act_all-IsGrouped : (es : List Event) (s : Registry) → IsGrouped s → IsGrouped (act_all es s)
unfolding act_all
act_all-IsGrouped [] s g = g
act_all-IsGrouped (e ∷ es) s g = act_all-IsGrouped es (act e s) (act-IsGrouped e s g)
