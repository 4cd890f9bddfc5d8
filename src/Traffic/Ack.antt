-- ===== src/Traffic/Ack.antt =====
-- The acknowledgement of `Server::write_UDP_AckFIN` in iperf2-code/src/Server.cpp, and what `ReportServerUDP` of
-- iperf2-code/src/Reporter.c makes of it.
use flexfcapf.Prelude.{
  ℕ, suc, zero, ◌/◌, ◌%◌, ◌^◌, ◌<◌, min, ◌≡◌, refl, ap, ap₂, sym, ◌∙◌, Bool, true, false, some,
  List, [], ◌∷◌, ◌>>=◌, arith,
}
use flexfcapf.Prelude.Int.{pos, to_unsigned}
use flexfcapf.Prelude.Bits.{has_bit}
use flexfcapf.Prelude.Double.{Double}
use flexfcapf.Settings.{TransferInfo}
use flexfcapf.Reporter.Relay.{ServerHdr, join, join_signed, relay_info}
use flexfcapf.Traffic.Server.{Reaction, silence, datagram, gone, write_udp_ack_fin, fill_server_hdr}

join_words :
    (n : ℕ) → n < 2 ^ 64 → join (record { first = n / 2 ^ 32 % 2 ^ 32; second = n % 2 ^ 32 }) ≡ n
unfolding join
join_words n h = ground arith

join_signed_words :
    (n : ℕ)
    → n < 2 ^ 63
    → join_signed (record { first = n % 2 ^ 64 / 2 ^ 32; second = n % 2 ^ 64 % 2 ^ 32 }) ≡ pos n
unfolding join_signed join
join_signed_words n h = ground arith

word_of : (n : ℕ) → n < 2 ^ 32 → n % 2 ^ 32 ≡ n
word_of n h = ground arith

module _ {W : Type 0} ⦃d : Double W⦄ where
  -- Counts that the words of the header hold.
  pub record FitsWords (stats : TransferInfo W) (lost late seen : ℕ) : Type 0 where
    pub total_max : stats.total_len < 2 ^ 64
    pub cnt_error : (stats.cnt_error ≡ pos lost) × (lost < 2 ^ 32)
    pub cnt_outof_order : (stats.cnt_outof_order ≡ pos late) × (late < 2 ^ 32)
    pub cnt_datagrams : (stats.cnt_datagrams ≡ pos seen) × (seen < 2 ^ 63)

  -- The counts that a header says.
  record Says (stats : TransferInfo W) (h : ServerHdr) : Type 0 where
    total_len :
        h.total_len
        ≡ record { first = stats.total_len / 2 ^ 32 % 2 ^ 32; second = stats.total_len % 2 ^ 32 }
    error_cnt : h.error_cnt ≡ to_unsigned 32 stats.cnt_error
    outorder_cnt : h.outorder_cnt ≡ to_unsigned 32 stats.cnt_outof_order
    datagrams2 : h.datagrams2 ≡ to_unsigned 64 stats.cnt_datagrams / 2 ^ 32
    datagrams : h.datagrams ≡ to_unsigned 64 stats.cnt_datagrams % 2 ^ 32
    version : has_bit h.flags 31 ≡ true

  fill-Says :
      (enhanced : Bool) (stats : TransferInfo W) (old : ServerHdr)
      → Says stats (fill_server_hdr enhanced stats old)
  unfolding fill_server_hdr
  fill-Says true stats old = record {
    total_len = refl;
    error_cnt = refl;
    outorder_cnt = refl;
    datagrams2 = refl;
    datagrams = refl;
    version = refl;
  }
  fill-Says false stats old = record {
    total_len = refl;
    error_cnt = refl;
    outorder_cnt = refl;
    datagrams2 = refl;
    datagrams = refl;
    version = refl;
  }

  -- If the counts of the server's report fit into the words of the header, then the header is marked as valid and the
  -- client reads from it the length, the losses, the datagrams out of order and the datagrams that the server wrote.
  pub fill_server_hdr-relay_info :
      (enhanced : Bool) (stats i : TransferInfo W) (old : ServerHdr) (lost late seen : ℕ)
      → FitsWords stats lost late seen
      → (has_bit (fill_server_hdr enhanced stats old).flags 31 ≡ true)
        × ((relay_info (fill_server_hdr enhanced stats old) i).total_len ≡ stats.total_len)
        × ((relay_info (fill_server_hdr enhanced stats old) i).cnt_error ≡ stats.cnt_error)
        × ((relay_info (fill_server_hdr enhanced stats old) i).cnt_outof_order
            ≡ stats.cnt_outof_order)
        × ((relay_info (fill_server_hdr enhanced stats old) i).cnt_datagrams ≡ stats.cnt_datagrams)
  unfolding relay_info
  fill_server_hdr-relay_info enhanced stats i old lost late seen f =
      let h = fill-Says enhanced stats old in
      (
        h.version,
        ap join h.total_len ∙ join_words stats.total_len f.total_max,
        ap pos (h.error_cnt ∙ ap (to_unsigned 32) f.cnt_error.0 ∙ word_of lost f.cnt_error.1)
            ∙ sym f.cnt_error.0,
        ap pos (
              h.outorder_cnt
              ∙ ap (to_unsigned 32) f.cnt_outof_order.0
              ∙ word_of late f.cnt_outof_order.1)
            ∙ sym f.cnt_outof_order.0,
        ap₂ (λ a b. join_signed (record { first = a; second = b }))
              (h.datagrams2 ∙ ap (λ z. to_unsigned 64 z / 2 ^ 32) f.cnt_datagrams.0)
              (h.datagrams ∙ ap (λ z. to_unsigned 64 z % 2 ^ 32) f.cnt_datagrams.0)
            ∙ join_signed_words seen f.cnt_datagrams.1
            ∙ sym f.cnt_datagrams.0,
      )

-- The datagrams that come before the silence or the end, and whether that is there.
abbrev pub leading : List Reaction → ℕ
leading (datagram ∷ rest) = suc (leading rest)
leading _ = 0

abbrev pub any_quiet : List Reaction → Bool
any_quiet [] = false
any_quiet (datagram ∷ rest) = any_quiet rest
any_quiet (silence ∷ rest) = true
any_quiet (gone ∷ rest) = true

-- If the client falls silent at some time, then the server acknowledges the end once and again for every datagram that
-- comes before, but no more often than it may.
pub write_udp_ack_fin-count :
    (fuel : ℕ) (reactions : List Reaction)
    → any_quiet reactions ≡ true
    → write_udp_ack_fin fuel reactions ≡ some (min fuel (suc (leading reactions)))
unfolding write_udp_ack_fin
write_udp_ack_fin-count zero reactions h = ap some (omega arith)
write_udp_ack_fin-count (suc fuel) [] h = absurd (ground arith)
write_udp_ack_fin-count (suc fuel) (silence ∷ rest) h = ap some (omega arith)
write_udp_ack_fin-count (suc fuel) (gone ∷ rest) h = ap some (omega arith)
write_udp_ack_fin-count (suc fuel) (datagram ∷ rest) h =
    ap (λ o. o >>= λ n. some (suc n)) (write_udp_ack_fin-count fuel rest h) ∙ ap some (omega arith)
