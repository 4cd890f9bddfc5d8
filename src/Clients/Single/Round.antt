-- ===== src/Clients/Single/Round.antt =====
-- One datagram in `Listener::UDPSingleServer` of iperf2-code/src/Listener.cpp.
use flexfcapf.Prelude.{
  ℕ, ◌+◌, ◌≡◌, refl, ap, sym, ◌∙◌, Bool, true, false, not, ◌&&◌, ◌||◌, List, [], ◌∷◌, if◌then◌else◌,
  if_intro, arith,
}
use flexfcapf.Settings.{Timeval, ReportStruct}
use flexfcapf.Traffic.{Datagram, close_report, after_close}
use flexfcapf.Address.{Addr, are_equal, host_are_equal}
use flexfcapf.Clients.{Entry, Registry, present, unregister}
use flexfcapf.Clients.Listener.{is_absent, serve}
use flexfcapf.Clients.Single.{
  Action, enters, reports, closes, replies, Single, is_negative, fill_report, reply_to, serve_known,
  admit, serve_unknown, serve_datagram,
}
use flexfcapf.Clients.Single.Apart.{
  AllApart, is_known, are_equal_comm, known_same, known-delete, delete-AllApart, known-register,
  register-AllApart,
}

-- A datagram of a client that is known or not.
abbrev pub response : Bool → ReportStruct → Addr → ℕ → Datagram → Timeval → Timeval → List Action
response known r a len b time stop =
    let told = fill_report len b time r in
    if known
    then (if is_negative b
        then reports a told
          ∷ closes a (close_report (record told { packet_time = stop }))
          ∷ replies a (reply_to true len)
          ∷ []
        else reports a told ∷ [])
    else if is_negative b
    then replies a (reply_to false len) ∷ []
    else enters a ∷ []

abbrev pub clients_of : Single → List Entry
clients_of s = s.listening.registry.clients

abbrev numbered : Single → Registry
numbered s = record s.listening.registry { groups = s.listening.registry.groups + 1 }

-- What every record is filled in the same way as.
abbrev pub FilledAs : ReportStruct → ReportStruct → Type 0
FilledAs r r0 =
    (len : ℕ) (b : Datagram) (time : Timeval) → fill_report len b time r ≡ fill_report len b time r0

pub record IsServed (s : Single) (r0 : ReportStruct) : Type 0 where
  pub apart : AllApart (clients_of s)
  pub unlimited : s.listening.is_limited ≡ false
  pub filled : FilledAs s.report r0

unchanged : (x k n : Bool) → (x ≡ true → k ≡ n) → k ≡ (if x then n else k)
unchanged true k n f = f refl
unchanged false k n f = refl

added : (x k n : Bool) → n ≡ true → (x || k) ≡ (if x then n else k)
added true k n f = sym f
added false k n f = refl

removed : (x k n : Bool) → n ≡ false → (not x && k) ≡ (if x then n else k)
removed true k n f = sym f
removed false k n f = refl

disallowed : (limited same : Bool) → limited ≡ false → (not limited || same) ≡ false → ⊥
disallowed limited same h q = ground arith

filled_again :
    (r r0 : ReportStruct) (len : ℕ) (b : Datagram) (time : Timeval)
    → FilledAs r r0
    → FilledAs (fill_report len b time r) r0
unfolding fill_report
filled_again r r0 len b time f = f

filled_closed :
    (r r0 : ReportStruct) (len : ℕ) (b : Datagram) (time stop : Timeval)
    → FilledAs r r0
    → FilledAs (after_close (record (fill_report len b time r) { packet_time = stop })) r0
unfolding fill_report after_close
filled_closed r r0 len b time stop f = f

module _ (r0 : ReportStruct) (peer a : Addr) (len : ℕ) (b : Datagram) (time stop : Timeval) where
  pub record IsStep (s : Single) (x : List Action × Single) : Type 0 where
    pub acts : x.0 ≡ response (is_known a (clients_of s)) r0 a len b time stop
    pub known :
        is_known peer (clients_of x.1)
        ≡ (if are_equal a peer then not (is_negative b) else is_known peer (clients_of s))
    pub served : IsServed x.1 r0

  admit-IsStep :
      (s : Single)
      → IsServed s r0
      → is_known a (clients_of s) ≡ false
      → is_negative b ≡ false
      → IsStep s (admit false a s)
  unfolding admit serve
  admit-IsStep s v k n =
      if_intro (IsStep s) (not s.listening.is_limited || host_are_equal s.listening.peer a)
        (λ q. record {
          acts = rw (k, n);
          known =
              known-register peer a (numbered s)
              ∙ added (are_equal a peer) (is_known peer (clients_of s)) (not (is_negative b))
                  (ap not n);
          served = record {
            apart = register-AllApart a (numbered s) k v.apart;
            unlimited = v.unlimited;
            filled = v.filled;
          };
        })
        (λ q.
          absurd
            (disallowed s.listening.is_limited (host_are_equal s.listening.peer a) v.unlimited q))

  serve_known-IsStep :
      (s : Single)
      → IsServed s r0
      → is_known a (clients_of s) ≡ true
      → IsStep s (serve_known a len b time stop s)
  unfolding serve_known unregister
  serve_known-IsStep s v k =
      if_intro (IsStep s) (is_negative b)
        (λ n. record {
          acts = rw (k, n, v.filled len b time);
          known =
              known-delete peer a (clients_of s) v.apart
              ∙ (ap (λ x. not x && is_known peer (clients_of s)) (are_equal_comm peer a)
                  ∙ removed (are_equal a peer) (is_known peer (clients_of s)) (not (is_negative b))
                      (ap not n));
          served = record {
            apart = delete-AllApart a (clients_of s) v.apart;
            unlimited = v.unlimited;
            filled = filled_closed s.report r0 len b time stop v.filled;
          };
        })
        (λ n. record {
          acts = rw (k, n, v.filled len b time);
          known =
              unchanged (are_equal a peer) (is_known peer (clients_of s)) (not (is_negative b))
                (λ e. sym (known_same a peer (clients_of s) e) ∙ (k ∙ sym (ap not n)));
          served = record {
            apart = v.apart;
            unlimited = v.unlimited;
            filled = filled_again s.report r0 len b time v.filled;
          };
        })

  serve_unknown-IsStep :
      (s : Single)
      → IsServed s r0
      → is_known a (clients_of s) ≡ false
      → IsStep s (serve_unknown false a len b s)
  unfolding serve_unknown
  serve_unknown-IsStep s v k =
      if_intro (IsStep s) (is_negative b)
        (λ n. record {
          acts = rw (k, n);
          known =
              unchanged (are_equal a peer) (is_known peer (clients_of s)) (not (is_negative b))
                (λ e. sym (known_same a peer (clients_of s) e) ∙ (k ∙ sym (ap not n)));
          served = v;
        })
        (λ n. admit-IsStep s v k n)

  pub serve_datagram-IsStep :
      (s : Single) → IsServed s r0 → IsStep s (serve_datagram false a len b time stop s)
  unfolding serve_datagram
  serve_datagram-IsStep s v =
      if_intro (IsStep s) (is_absent (present a (clients_of s)))
        (λ q. serve_unknown-IsStep s v (ap not q)) (λ q. serve_known-IsStep s v (ap not q))
