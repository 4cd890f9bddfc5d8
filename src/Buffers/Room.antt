-- ===== src/Buffers/Room.antt =====
-- What stands in the buffers of iperf2-code/src/Client.cpp and iperf2-code/src/Listener.cpp fits into them.
use flexfcapf.Prelude.{
  ℕ, ◌+◌, ◌^◌, ◌≤◌, ◌<◌, ◌≡◌, refl, sym, ◌∙◌, Bool, true, false, not, ◌&&◌, ◌||◌, Option,
  if◌then◌else◌, max, leb, subst, if_intro, Bool-cases, Ensures, leb→le, inl, inr, arith,
}
use flexfcapf.Prelude.Int.{pos, pos_part, ◌-ℤ◌, ltb_ℤ, to_unsigned}
use flexfcapf.Options.{ThreadSettings, is_flag, is_extended, compat_flag, udp_flag, peerver_flag}
use flexfcapf.Extractor.{File, reduce_read_size}
use flexfcapf.Buffers.{
  sends_header, fit_header, client_buffer, listener_buffer, capacity, Stretch, client_block,
  header_place, ack_place, settle_compat, at_least,
}

abbrev pub stop : Stretch → ℕ
stop p = p.from + p.count

-- A block of the file from the beginning of a datagram's payload.
abbrev pub fits_block : (is_udp is_compat : Bool) → ℕ → Bool
fits_block is_udp is_compat len = not is_udp || is_compat || leb 80 len

capacity_is : (m : ℕ) → capacity (pos m) ≡ max m 104
unfolding capacity
capacity_is m = ground arith

behind : (m k : ℕ) → ℕ
behind m k = k + to_unsigned 64 (pos m -ℤ pos k)

behind_room : (m k : ℕ) → k ≤ m → m < 2 ^ 31 → behind m k ≡ m
unfolding ◌-ℤ◌ behind
behind_room m k h small = ground arith

behind_short : (m k : ℕ) → m < k → k < 2 ^ 31 → 2 ^ 32 < behind m k
unfolding ◌-ℤ◌ behind
behind_short m k h small = ground arith

leb_of_le : (a b : ℕ) → a ≤ b → leb a b ≡ true
leb_of_le a b h = ground arith

leb_of_lt : (a b : ℕ) → b < a → leb a b ≡ false
leb_of_lt a b h = ground arith

stretch : (is_udp is_compat : Bool) → ℕ → Stretch
stretch is_udp is_compat m =
    if is_udp
    then (if is_compat
        then record { from = 16; count = to_unsigned 64 (pos m -ℤ pos 16) }
        else record { from = 80; count = to_unsigned 64 (pos m -ℤ pos 80) })
    else record { from = 0; count = to_unsigned 64 (pos m) }

stretch_fits :
    (u k : Bool) (m : ℕ)
    → m < 2 ^ 31
    → (u ≡ true → 16 ≤ m)
    → leb (stop (stretch u k m)) (capacity (pos m)) ≡ fits_block u k m
unfolding stretch behind
stretch_fits false k m small h = leb_of_le _ _ (ground (arith, capacity_is m))
stretch_fits true true m small h =
    leb_of_le _ _ (omega (arith, capacity_is m, behind_room m 16 (h refl) small))
stretch_fits true false m small h = elim (Bool-cases (leb 80 m)) [
  | inl q ↦
      leb_of_le _ _ (omega (arith, capacity_is m, behind_room m 80 (leb→le 80 m q) small)) ∙ sym q
  | inr q ↦
      leb_of_lt _ _
        (omega (arith, small, capacity_is m, behind_short m 80 (ground arith) (omega arith)))
      ∙ sym q
]

long_enough : (b : Bool) (n : ℕ) → b ≡ true → b && ltb_ℤ (pos n) (pos 104) ≡ false → 104 ≤ n
long_enough b n h q = ground arith

not_less : (n k : ℕ) → ltb_ℤ (pos n) (pos k) ≡ false → k ≤ n
not_less n k q = ground arith

not_both : (n : ℕ) → 104 ≤ n → ltb_ℤ (pos n) (pos 16) ≡ true → ⊥
not_both n h q = ground arith

clash : (b : Bool) → b ≡ true → b ≡ false → ⊥
clash b h k = ground arith

module _ {W : Type 0} where
  pub record IsRoomy (f : Option File) (c : ThreadSettings W) : Type 0 where
    message : pos_part c.buf_len ≤ capacity c.buf_len
    header : stop (header_place c) ≤ capacity c.buf_len
    sent : sends_header c ≡ true → stop (header_place c) ≤ pos_part c.buf_len
    block :
        leb (stop (client_block c (record { file = f; size = c.buf_len }))) (capacity c.buf_len)
        ≡ fits_block (is_flag udp_flag c) (is_flag compat_flag c) (pos_part c.buf_len)

  room :
      (f : Option File) (s : ThreadSettings W) (m : ℕ)
      → m < 2 ^ 31
      → (is_flag udp_flag s ≡ true → 16 ≤ m)
      → (sends_header s ≡ true → stop (header_place s) ≤ m)
      → IsRoomy f (record s { buf_len = pos m })
  unfolding header_place client_block reduce_read_size stretch
  room f s m small udp_len hdr = record {
    message = omega (arith, capacity_is m);
    header = ground (arith, capacity_is m);
    sent = hdr;
    block = stretch_fits (is_flag udp_flag s) (is_flag compat_flag s) m small udp_len;
  }

  header_small : (s : ThreadSettings W) → stop (header_place s) ≤ 80
  unfolding header_place
  header_small s = ground arith

  -- What `client_buffer` leaves.
  IsKept : ThreadSettings W → Type 0
  IsKept s =
      (m : ℕ) × (s.buf_len ≡ pos m)
      × (m < 2 ^ 31)
      × (is_flag udp_flag s ≡ true → 16 ≤ m)
      × (sends_header s ≡ true → stop (header_place s) ≤ m)

  IsKept-udp :
      (s : ThreadSettings W) (n : ℕ)
      → n < 2 ^ 31
      → is_flag udp_flag s ≡ true
      → IsKept (
          if sends_header s && ltb_ℤ (pos n) (pos 104)
          then record s { buf_len = pos 104 }
          else record s { buf_len = at_least 16 (pos n) })
  unfolding IsKept header_place
  IsKept-udp s n h u =
      if_intro IsKept (sends_header s && ltb_ℤ (pos n) (pos 104))
        (λ q. (104, refl, omega arith, λ e. omega arith, λ e. omega (arith, header_small s)))
        (λ q.
          if_intro (λ z. IsKept (record s { buf_len = z })) (ltb_ℤ (pos n) (pos 16))
            (λ r. (
              16,
              refl,
              omega arith,
              λ e. omega arith,
              λ e. absurd (not_both n (long_enough (sends_header s) n e q) r),
            ))
            (λ r. (
              n,
              refl,
              h,
              λ e. not_less n 16 r,
              λ e. omega (arith, header_small s, long_enough (sends_header s) n e q),
            )))

  IsKept-tcp :
      (s : ThreadSettings W) (n : ℕ)
      → n < 2 ^ 31
      → is_flag udp_flag s ≡ false
      → IsKept (record s { buf_len = at_least 104 (pos n) })
  unfolding IsKept header_place
  IsKept-tcp s n h u =
      if_intro (λ z. IsKept (record s { buf_len = z })) (ltb_ℤ (pos n) (pos 104))
        (λ r. (104, refl, omega arith, λ e. omega arith, λ e. omega (arith, header_small s)))
        (λ r. (
          n,
          refl,
          h,
          λ e. omega (arith, not_less n 104 r),
          λ e. omega (arith, header_small s, not_less n 104 r),
        ))

  kept : (s : ThreadSettings W) (n : ℕ) → n < 2 ^ 31 → s.buf_len ≡ pos n → IsKept (fit_header s)
  unfolding IsKept
  kept s n h l =
      if_intro IsKept (is_flag udp_flag s)
        (λ u.
          subst
            (λ z. IsKept (
              if sends_header s && ltb_ℤ z (pos 104)
              then record s { buf_len = pos 104 }
              else record s { buf_len = at_least 16 z }))
            (sym l) (IsKept-udp s n h u))
        (λ u.
          if_intro IsKept (sends_header s)
            (λ q.
              subst (λ z. IsKept (record s { buf_len = at_least 104 z })) (sym l)
                (IsKept-tcp s n h u))
            (λ q. (n, l, h, λ e. absurd (clash _ e u), λ e. absurd (clash _ e q))))

  settle_len : (s : ThreadSettings W) → (settle_compat s).buf_len ≡ s.buf_len
  unfolding settle_compat
  settle_len s =
      if_intro (λ (z : ThreadSettings W). z.buf_len ≡ s.buf_len)
        (is_flag compat_flag s && is_extended peerver_flag s) (λ q. refl) (λ q. refl)

  roomy : (f : Option File) (s : ThreadSettings W) → IsKept s → IsRoomy f s
  unfolding IsKept
  roomy f s (m, l, h, u, k) =
      subst (λ z. IsRoomy f (record s { buf_len = z })) (sym l) (room f s m h u k)

  -- After the constructor of a client whose block length is from 0 to 2 ^ 31 - 1: a message of that length, and the header
  -- for the server, lie within the buffer; where the headers are exchanged, the header lies within the first message; and
  -- the next block of the file, put behind the headers of a datagram, lies within the buffer if and only if the client is
  -- not a UDP client, is a compatible one, or its block length is at least 80.
  pub client_buffer-IsRoomy :
      (f : Option File) (s : ThreadSettings W) (n : ℕ)
      → n < 2 ^ 31
      → s.buf_len ≡ pos n
      → IsRoomy f (client_buffer s)
  unfolding client_buffer
  client_buffer-IsRoomy f s n h l = roomy f _ (kept (settle_compat s) n h (settle_len s ∙ l))

  listener_len :
      (s : ThreadSettings W) (n : ℕ)
      → s.buf_len ≡ pos n
      → pos_part (listener_buffer s).buf_len ≤ max n 16
  unfolding listener_buffer
  listener_len s n l =
      if_intro (λ (t : ThreadSettings W). pos_part t.buf_len ≤ max n 16) (is_flag udp_flag s)
        (λ u. subst (λ z. pos_part (at_least 16 z) ≤ max n 16) (sym l) (ground arith))
        (λ u. subst (λ z. pos_part z ≤ max n 16) (sym l) (omega arith))

  -- An acknowledgement that a listener or its server writes, if the block length has room for one, lies within the buffer
  -- that was allocated for the block length as it was given, and within the message that is sent.
  pub ack_place-fits :
      (s : ThreadSettings W) (n : ℕ)
      → s.buf_len ≡ pos n
      → Ensures
          (λ p. (stop p ≤ capacity s.buf_len) × (stop p ≤ pos_part (listener_buffer s).buf_len))
          (ack_place (listener_buffer s))
  unfolding ack_place
  ack_place-fits s n l =
      let m = (listener_buffer s).buf_len in
      let long = listener_len s n l in
      if_intro (Ensures (λ p. (stop p ≤ capacity s.buf_len) × (stop p ≤ pos_part m)))
        (ltb_ℤ (pos 120) m)
        (λ q.
          let long_n : 120 < n = ground arith in
          (subst (λ z. 120 ≤ capacity z) (sym l) (omega (arith, capacity_is n)), ground arith))
        (λ q. tt)
