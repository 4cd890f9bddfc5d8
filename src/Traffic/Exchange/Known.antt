-- ===== src/Traffic/Exchange/Known.antt =====
-- The exchange of headers in iperf2-code/src/Client.cpp and iperf2-code/src/Listener.cpp, from both ends.
use flexfcapf.Prelude.{
  ℕ, ◌≤◌, ◌≡◌, refl, sym, ap, Bool, true, false, not, ◌&&◌, ◌||◌, Option, none, some, if◌then◌else◌,
  arith, if_intro, subst, ◌∙◌,
}
use flexfcapf.Prelude.Int.{ℤ, pos, ltb_ℤ, eqb_ℤ}
use flexfcapf.Prelude.Bits.{has_bit}
use flexfcapf.Options.{ThreadSettings, is_flag, compat_flag, udp_flag, is_extended, peerver_flag}
use flexfcapf.Options.Generate.{
  ClientHdr, is_normal, is_dual_test, fill_extend, generate_client_hdr,
}
use flexfcapf.Options.Trip.{header_flags-version, header_flags-extend}
use flexfcapf.Traffic.Exchange.{
  ClientHdrAck, PeerVersion, sizeof_v1, sizeof_hdr, read_ack, hdr_xchange, initiate_server,
  client_header_ack, peek_flags, answer_flags, read_client_header,
}

-- The bytes that were sent can be peeked at.
abbrev pub Arrives : ℕ → (ℕ → ℤ) → Type 0
Arrives sent peek = (n : ℕ) → n ≤ sent → peek n ≡ pos n

-- The acknowledgement of a server for a client that asks for one.
abbrev pub ack_for : Bool → ℕ → ℕ → Option ClientHdrAck
ack_for e major minor = if e then some (client_header_ack major minor) else none

eqb_refl : (n : ℕ) (z : ℤ) → z ≡ pos n → eqb_ℤ z (pos n) ≡ true
eqb_refl n z h = ground arith

-- By the two bits of the flags.
peek_back :
    (word sent : ℕ) (v e : Bool) (peek : ℕ → ℤ)
    → has_bit word 31 ≡ v
    → has_bit word 30 ≡ e
    → (v || e ≡ true) × (sent ≡ (if e then sizeof_hdr else sizeof_v1))
    → Arrives sent peek
    → peek_flags false word peek ≡ some word
unfolding peek_flags
peek_back word sent v true peek hv he s a =
    let f4 = eqb_refl 4 (peek 4) (a 4 (omega (arith, s.1))) in
    let f = eqb_refl 64 (peek 64) (a 64 (omega (arith, s.1))) in rw (he, f4, f)
peek_back word sent true false peek hv he s a =
    let f4 = eqb_refl 4 (peek 4) (a 4 (omega (arith, s.1))) in
    let f = eqb_refl 28 (peek 28) (a 28 (omega (arith, s.1))) in rw (he, hv, f4, f)
peek_back word sent false false peek hv he s a = absurd (ground (arith, s.0))

answers :
    (major minor word : ℕ) (e : Bool)
    → has_bit word 30 ≡ e
    → answer_flags major minor (some word) ≡ some (ack_for e major minor)
answers major minor word e h = ap (λ b. some (ack_for b major minor)) h

sent_bits :
    (v e : Bool) (before after : PeerVersion) (sent : ℕ)
    → (let x : Option ℕ × PeerVersion =
          if e
          then (some sizeof_hdr, after)
          else if v && not false
          then (some sizeof_v1, before)
          else (none, before) in
        x.0 ≡ some sent)
    → (v || e ≡ true) × (sent ≡ (if e then sizeof_hdr else sizeof_v1))
sent_bits v true before after sent h = ground arith
sent_bits true false before after sent h = ground arith
sent_bits false false before after sent h = absurd (ground arith)

-- What the client knows after an exchange.
learns :
    (e : Bool) (flags len : ℕ) (result : ℤ) (major minor : ℕ) (before : PeerVersion)
    → has_bit flags 30 ≡ e
    → ltb_ℤ result (pos 0) ≡ false
    → (hdr_xchange false flags len result (ack_for e major minor) before).1
      ≡ (if e then PeerVersion.known major minor else before)
unfolding hdr_xchange read_ack client_header_ack
learns true flags len result major minor before h r = rw (h, r)
learns false flags len result major minor before h r = rw h (
    if_intro (λ (x : Option ℕ × PeerVersion). x.1 ≡ before) (has_bit flags 31 && not false)
      (λ q. refl) (λ q. refl))

-- The flags in the header are those that the client goes by.
flags_in :
    {W : Type 0} (major minor : ℕ) (client : ThreadSettings W) (hdr : ClientHdr)
    → (generate_client_hdr major minor client hdr).0.flags
      ≡ (generate_client_hdr major minor client hdr).1
unfolding generate_client_hdr fill_extend
flags_in major minor client hdr =
    if_intro (λ (h : ClientHdr). h.flags ≡ (generate_client_hdr major minor client hdr).1)
      (is_extended peerver_flag client) (λ q. refl) (λ q. refl)

-- The exchange by whether there is one, and for TCP.
through :
    (b udp v e : Bool) (flags len sent major minor : ℕ) (result : ℤ) (before : PeerVersion)
    (peek : ℕ → ℤ)
    → udp ≡ false
    → has_bit flags 31 ≡ v
    → has_bit flags 30 ≡ e
    → ltb_ℤ result (pos 0) ≡ false
    → (let y : Option ℕ × PeerVersion =
          if b
          then hdr_xchange udp flags len result (ack_for e major minor) before
          else (none, before) in
        y.0 ≡ some sent)
    → Arrives sent peek
    → (let y : Option ℕ × PeerVersion =
          if b
          then hdr_xchange udp flags len result (ack_for e major minor) before
          else (none, before) in
        (read_client_header major minor false flags peek ≡ some (ack_for e major minor))
        × (y.1 ≡ (if e then PeerVersion.known major minor else before)))
unfolding read_client_header hdr_xchange
through false udp v e flags len sent major minor result before peek u hv he r h a =
    absurd (ground arith)
through true true v e flags len sent major minor result before peek u hv he r h a =
    absurd (ground arith)
through true false v e flags len sent major minor result before peek u hv he r h a =
    let after = if ltb_ℤ result (pos 0) then before else read_ack (ack_for e major minor) in
    let s = sent_bits v e before after sent (
      subst
        (λ c.
          (let x : Option ℕ × PeerVersion =
              if e
              then (some sizeof_hdr, after)
              else if c && not false
              then (some sizeof_v1, before)
              else (none, before) in
            x.0 ≡ some sent))
        hv
        (subst
          (λ c.
            (let x : Option ℕ × PeerVersion =
                if c
                then (some sizeof_hdr, after)
                else if has_bit flags 31 && not false
                then (some sizeof_v1, before)
                else (none, before) in
              x.0 ≡ some sent))
          he h)) in
    (
      ap (answer_flags major minor) (peek_back flags sent v e peek hv he s a)
          ∙ answers major minor flags e he,
      learns e flags len result major minor before he r,
    )

-- When a TCP client sends its header, its send does not fail and all that it has sent can be peeked at, the listener accepts
-- the client and acknowledges the header exactly if the client has asked for that, and the client then knows the version of
-- the listener; else what it knew stays.
pub exchange-known :
    {W : Type 0} (major minor server_major server_minor : ℕ) (client : ThreadSettings W)
    (hdr : ClientHdr) (buf_len sent : ℕ) (result : ℤ) (before : PeerVersion) (peek : ℕ → ℤ)
    → is_flag udp_flag client ≡ false
    → ltb_ℤ result (pos 0) ≡ false
    → (let answer = ack_for (is_extended peerver_flag client) server_major server_minor in
        (initiate_server major minor client hdr buf_len result answer before).0 ≡ some sent)
    → Arrives sent peek
    → (let answer = ack_for (is_extended peerver_flag client) server_major server_minor in
        (read_client_header server_major server_minor false
            (generate_client_hdr major minor client hdr).0.flags
            peek
          ≡ some answer)
        × ((initiate_server major minor client hdr buf_len result answer before).1 ≡ (
            if is_extended peerver_flag client
            then PeerVersion.known server_major server_minor
            else before)))
unfolding initiate_server generate_client_hdr
exchange-known major minor server_major server_minor client hdr buf_len sent result before peek u r
      h a =
    let e = is_extended peerver_flag client in
    let v = not (is_normal client.mode) in
    let run_now = is_dual_test client.mode in
    let flags = (generate_client_hdr major minor client hdr).1 in
    let x =
      through (not (is_flag compat_flag client) && (has_bit flags 30 || has_bit flags 31))
        (is_flag udp_flag client) v e flags buf_len sent server_major server_minor result before
        peek u (header_flags-version v e run_now) (header_flags-extend v e run_now) r h a in
    (
      subst
          (λ w.
            read_client_header server_major server_minor false w peek
            ≡ some (ack_for e server_major server_minor))
          (sym (flags_in major minor client hdr)) x.0,
      x.1,
    )
