-- ===== src/Options/Trip.antt =====
-- The header of a test of both ways in iperf2-code/src/Settings.cpp: what the server's client is told.
use flexfcapf.Prelude.{
  ℕ, ◌-◌, ◌%◌, ◌^◌, ◌≤◌, ◌<◌, ◌≡◌, ◌≢◌, refl, ap, ap₂, subst, sym, ◌∙◌, Bool, true, false, not,
  ◌&&◌, ◌||◌, ◌==◌, if◌then◌else◌, arith, Returns, if_intro,
}
use flexfcapf.Prelude.Int.{ℤ, pos, to_unsigned, as_signed}
use flexfcapf.Prelude.Bits.{has_bit, set_bit}
use flexfcapf.Settings.{ThreadMode, TestMode, RateUnits, is_pps}
use flexfcapf.Numbers.{Text}
use flexfcapf.Address.{Addr}
use flexfcapf.Options.{
  ThreadSettings, is_flag, buflenset_flag, compat_flag, modetime_flag, is_extended, peerver_flag,
  bwset_flag,
}
use flexfcapf.Options.Generate.{
  ClientHdr, is_dual_test, is_normal, header_flags, back_port, header_amount, fill_base,
  fill_extend, generate_client_hdr, client_amount, generate_client_settings,
}

pub header_flags-version : (v e r : Bool) → has_bit (header_flags v e r) 31 ≡ v
header_flags-version v e r = ground arith

pub header_flags-extend : (v e r : Bool) → has_bit (header_flags v e r) 30 ≡ e
header_flags-extend v e r = ground arith

header_flags-run_now : (v e r : Bool) → has_bit (header_flags v e r) 0 ≡ r
header_flags-run_now v e r = ground arith

-- An amount of time and an amount of bytes.
time_trip : (a : ℕ) → 0 < a → a ≤ 2 ^ 31 → client_amount ((2 ^ 32 - a % 2 ^ 32) % 2 ^ 32) ≡ a
unfolding client_amount
time_trip a p h = ground arith

time_sign : (a : ℕ) → 0 < a → a ≤ 2 ^ 31 → has_bit ((2 ^ 32 - a % 2 ^ 32) % 2 ^ 32) 31 ≡ true
time_sign a p h = ground arith

bytes_trip : (a : ℕ) → a < 2 ^ 31 → client_amount (a % 2 ^ 31) ≡ a
unfolding client_amount
bytes_trip a h = ground arith

bytes_sign : (a : ℕ) → has_bit (a % 2 ^ 31) 31 ≡ false
bytes_sign a = ground arith

len_trip :
    (n : ℕ) (other : ℤ)
    → 0 < n
    → n < 2 ^ 31
    → (if to_unsigned 32 (pos n) == 0 then other else as_signed 32 (to_unsigned 32 (pos n))) ≡ pos n
len_trip n other p h = ground arith

back_port_small : (l p : ℕ) → l < 2 ^ 16 → p < 2 ^ 16 → back_port l p % 2 ^ 16 ≡ back_port l p
back_port_small l p hl hp = ground arith

mode_trip :
    (m : TestMode)
    → is_normal m ≡ false
    → m ≢ TestMode.unknown_test
    → (if is_dual_test m then TestMode.dual_test else TestMode.trade_off) ≡ m
mode_trip TestMode.normal h n = absurd (ground arith)
mode_trip TestMode.dual_test h n = refl
mode_trip TestMode.trade_off h n = refl
mode_trip TestMode.unknown_test h n = absurd (n refl)

timed :
    (b : Bool) (m : ℕ)
    → has_bit
        (if b then set_bit (set_bit m compat_flag) modetime_flag else set_bit m compat_flag)
        modetime_flag
      ≡ has_bit m modetime_flag || b
timed b m = ground arith

units_trip : (u : RateUnits) → (if is_pps u then RateUnits.pps else RateUnits.bw) ≡ u
units_trip RateUnits.bw = refl
units_trip RateUnits.pps = refl

units_word : (b : Bool) → has_bit (if b then 1 else 0) 0 ≡ b
units_word b = ground arith

-- What is read from a word, if the word is there and the server has none of its own.
read_trip :
    {A : Type 0} {x y : Bool} {new told : A} (free : Bool) (own : A)
    → x ≡ y
    → (y ≡ true → new ≡ told)
    → (if x && free then new else own) ≡ (if y && free then told else own)
read_trip free own e k = ground arith

module _ {W : Type 0} where
  -- What fits into the header: a test of both ways, and numbers that its words hold.
  pub record Fits (c : ThreadSettings W) : Type 0 where
    pub is_both : is_normal c.mode ≡ false
    pub is_known : c.mode ≢ TestMode.unknown_test
    pub amount_pos : 0 < c.amount
    pub amount_max : c.amount < 2 ^ 31
    pub port_max : c.port < 2 ^ 16
    pub listen_port_max : c.listen_port < 2 ^ 16

  -- The rate and its units, where the client asks for the version.
  record Rated (c : ThreadSettings W) (word : ℕ) (h : ClientHdr) : Type 0 where
    extend : has_bit h.flags 30 ≡ is_extended peerver_flag c
    rate :
        is_extended peerver_flag c ≡ true
        → h.rate ≡ (if is_flag bwset_flag c then word else to_unsigned 32 c.udp_rate)
    units : is_extended peerver_flag c ≡ true → has_bit h.extend_flags 0 ≡ is_pps c.udp_rate_units

  fill_extend-Rated :
      (major minor : ℕ) (c : ThreadSettings W) (h : ClientHdr)
      → has_bit h.flags 30 ≡ is_extended peerver_flag c
      → Rated c h.rate (fill_extend major minor c h)
  unfolding fill_extend
  fill_extend-Rated major minor c h k =
      if_intro (Rated c h.rate) (is_extended peerver_flag c)
        (λ e. record { extend = k; rate = λ x. refl; units = λ x. units_word _ })
        (λ e. record {
          extend = k;
          rate = λ x. absurd (ground arith);
          units = λ x. absurd (ground arith);
        })

  fill_base-rate : (c : ThreadSettings W) (h : ClientHdr) → (fill_base c h).rate ≡ h.rate
  unfolding fill_base
  fill_base-rate c h =
      if_intro (λ (b : ClientHdr). b.rate ≡ h.rate) (is_normal c.mode) (λ e. refl) (λ e. refl)

  -- The words of a header that say what the client wants.
  record Carries (c : ThreadSettings W) (h : ClientHdr) : Type 0 where
    version : has_bit h.flags 31 ≡ true
    run_now : has_bit h.flags 0 ≡ is_dual_test c.mode
    amount : h.amount ≡ header_amount c
    port : h.port ≡ back_port c.listen_port c.port
    flow_id : h.flow_id ≡ c.flow_id
    bufferlen : h.bufferlen ≡ (if is_flag buflenset_flag c then to_unsigned 32 c.buf_len else 0)

  fill_extend-Carries :
      (major minor : ℕ) (c : ThreadSettings W) (h : ClientHdr)
      → Carries c h
      → Carries c (fill_extend major minor c h)
  unfolding fill_extend
  fill_extend-Carries major minor c h k =
      if_intro (Carries c) (is_extended peerver_flag c)
        (λ e. record {
          version = k.version;
          run_now = k.run_now;
          amount = k.amount;
          port = k.port;
          flow_id = k.flow_id;
          bufferlen = k.bufferlen;
        })
        (λ e. k)

  fill_base-Carries :
      (c : ThreadSettings W) (h : ClientHdr) (flags : ℕ)
      → is_normal c.mode ≡ false
      → has_bit flags 31 ≡ true
      → has_bit flags 0 ≡ is_dual_test c.mode
      → Carries c (record (fill_base c h) { flags = flags })
  unfolding fill_base
  fill_base-Carries c h flags both v r =
      if_intro (λ (b : ClientHdr). Carries c (record b { flags = flags })) (is_normal c.mode)
        (λ e. absurd (ground arith))
        (λ e. record {
          version = v;
          run_now = r;
          amount = refl;
          port = refl;
          flow_id = refl;
          bufferlen = refl;
        })

  -- What the settings that the server makes of a header have of the client's; `word` is what the word of the rate held
  -- before the client wrote the header.
  pub record Mirrors (c server : ThreadSettings W) (word : ℕ) (t : ThreadSettings W) : Type 0 where
    pub mode : t.mode ≡ c.mode
    pub thread_mode : t.thread_mode ≡ ThreadMode.client
    pub amount : t.amount ≡ c.amount
    pub port : t.port ≡ back_port c.listen_port c.port
    pub flow_id : t.flow_id ≡ c.flow_id
    pub time : is_flag modetime_flag t ≡ is_flag modetime_flag server || is_flag modetime_flag c
    pub buf_len :
        (n : ℕ)
        → c.buf_len ≡ pos n
        → 0 < n
        → n < 2 ^ 31
        → is_flag buflenset_flag c ≡ true
        → t.buf_len ≡ pos n
    pub threads : t.threads ≡ pos 1
    pub rate : t.udp_rate ≡ (
        if is_extended peerver_flag c && not (is_flag bwset_flag server)
        then pos (if is_flag bwset_flag c then word else to_unsigned 32 c.udp_rate)
        else server.udp_rate)
    pub units : t.udp_rate_units ≡ (
        if is_extended peerver_flag c && not (is_flag bwset_flag server)
        then c.udp_rate_units
        else server.udp_rate_units)

  amount_trip :
      (c : ThreadSettings W)
      → 0 < c.amount
      → c.amount < 2 ^ 31
      → client_amount (header_amount c) ≡ c.amount
  unfolding header_amount
  amount_trip c p h =
      if_intro (λ w. client_amount w ≡ c.amount) (is_flag modetime_flag c)
        (λ e. time_trip c.amount p (omega arith)) (λ e. bytes_trip c.amount h)

  -- The sign of the amount says that it is a time.
  amount_sign :
      (c : ThreadSettings W)
      → 0 < c.amount
      → c.amount < 2 ^ 31
      → has_bit (header_amount c) 31 ≡ is_flag modetime_flag c
  unfolding header_amount
  amount_sign c p h =
      if_intro (λ w. has_bit w 31 ≡ is_flag modetime_flag c) (is_flag modetime_flag c)
        (λ e. time_sign c.amount p (omega arith) ∙ sym e) (λ e. bytes_sign c.amount ∙ sym e)

  time_told :
      (c : ThreadSettings W) (h : ClientHdr) (server : ThreadSettings W)
      → Fits c
      → Carries c h
      → is_flag modetime_flag (record server {
        flags =
            if has_bit h.amount 31
            then set_bit (set_bit server.flags compat_flag) modetime_flag
            else set_bit server.flags compat_flag;
      })
        ≡ is_flag modetime_flag server || is_flag modetime_flag c
  time_told c h server f k =
      timed (has_bit h.amount 31) server.flags
      ∙ ap (λ b. is_flag modetime_flag server || b)
          (ap (λ n. has_bit n 31) k.amount ∙ amount_sign c f.amount_pos f.amount_max)

  settings-Mirrors :
      (ntop : Addr → Text) (c server : ThreadSettings W) (rate : ℕ) (h : ClientHdr)
      → Fits c
      → Carries c h
      → Rated c rate h
      → Returns (Mirrors c server rate) (generate_client_settings ntop server h)
  unfolding generate_client_settings
  settings-Mirrors ntop c server rate h f k r =
      if_intro (Returns (Mirrors c server rate)) (has_bit h.flags 31)
        (λ e. record {
          mode =
              ap (λ b. if b then TestMode.dual_test else TestMode.trade_off) k.run_now
              ∙ mode_trip c.mode f.is_both f.is_known;
          thread_mode = refl;
          amount = ap client_amount k.amount ∙ amount_trip c f.amount_pos f.amount_max;
          port =
              ap (λ n. n % 2 ^ 16) k.port
              ∙ back_port_small c.listen_port c.port f.listen_port_max f.port_max;
          flow_id = k.flow_id;
          time = time_told c h server f k;
          buf_len = λ n e' p q b.
              ap (λ w. if w == 0 then server.buf_len else as_signed 32 w)
                (k.bufferlen ∙ ap₂ (λ set len. if set then to_unsigned 32 len else 0) b e')
              ∙ len_trip n server.buf_len p q;
          threads = refl;
          rate =
              read_trip (not (is_flag bwset_flag server)) server.udp_rate r.extend
                (λ e'. ap pos (r.rate e'));
          units = read_trip (not (is_flag bwset_flag server)) server.udp_rate_units r.extend (λ e'.
              ap (λ b. if b then RateUnits.pps else RateUnits.bw) (r.units e')
              ∙ units_trip c.udp_rate_units);
        })
        (λ e. absurd (ground arith))

  -- If the client's numbers fit into the words of the header, then the settings of the server's client have the client's
  -- mode, amount, port of the way back and flow id, one thread, and its buffer length if that was set. They are by time
  -- if the client's settings or the server's own are. They have the client's units of the rate if the client asks for
  -- the version and the server was given no -b, and then the rate is the client's (32 bits of it) if the client was given
  -- no -b either, and else what the word of the rate held before; in all other cases units and rate are the server's own.
  pub client_hdr-Mirrors :
      (ntop : Addr → Text) (major minor : ℕ) (c server : ThreadSettings W) (old : ClientHdr)
      → Fits c
      → Returns
          (Mirrors c server old.rate)
          (generate_client_settings ntop server (generate_client_hdr major minor c old).0)
  unfolding generate_client_hdr
  client_hdr-Mirrors ntop major minor c server old f =
      let flags =
        header_flags (not (is_normal c.mode)) (is_extended peerver_flag c) (is_dual_test c.mode) in
      let base = fill_base c old in
      settings-Mirrors ntop c server old.rate _ f
        (fill_extend-Carries major minor c _ (
          fill_base-Carries c old flags f.is_both (header_flags-version _ _ _ ∙ ap not f.is_both)
            (header_flags-run_now _ _ _)))
        (subst (λ r. Rated c r (fill_extend major minor c (record base { flags = flags })))
          (fill_base-rate c old)
          (fill_extend-Rated major minor c (record base { flags = flags })
            (header_flags-extend _ _ _)))
