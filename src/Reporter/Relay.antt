-- ===== src/Reporter/Relay.antt =====
-- `ReportServerUDP` of iperf2-code/src/Reporter.c: the report that a UDP server sends back in the header of its last
-- datagram.
use flexfcapf.Prelude.{ℕ, ◌+◌, ◌*◌, ◌%◌, ◌^◌, true, false, ◌&&◌, Option, none, some, if◌then◌else◌}
use flexfcapf.Prelude.Int.{ℤ, pos, sub_ℕ}
use flexfcapf.Prelude.Double.{Double, of_int, add_w, div_w}
use flexfcapf.Prelude.Bits.{has_bit}
use flexfcapf.Settings.{ThreadMode, is_server_report, TransferInfo}
use flexfcapf.Reporter.Time.{million}
use flexfcapf.Reporter.Multi.{MultiHeader}
use flexfcapf.Reporter.Header.{Connection, Agent, Header}
use flexfcapf.Reporter.Setup.{group_of}

-- Two words of 32 bits each: a whole part and a fraction, or the halves of a number.
pub record Words : Type 0 where
  pub first : ℕ
  pub second : ℕ

-- `struct server_hdr`, each word after `ntohl`.
pub record ServerHdr : Type 0 where
  pub flags : ℕ
  pub total_len : Words
  pub stop : Words
  pub error_cnt : ℕ
  pub outorder_cnt : ℕ
  pub datagrams : ℕ
  pub datagrams2 : ℕ
  pub jitter : Words
  pub min_transit : Words
  pub max_transit : Words
  pub sum_transit : Words
  pub mean_transit : Words
  pub m2_transit : Words
  pub vd_transit : Words
  pub cnt_transit : ℕ
  pub ipg_cnt : ℕ
  pub ipg_sum : ℕ

-- A number of 64 bits from its halves, as `umax_size_t` and as `max_size_t`.
unfoldable pub join : Words → ℕ
join w = (w.first * 2 ^ 32 + w.second) % 2 ^ 64

unfoldable pub join_signed : Words → ℤ
unfolding join
join_signed w = if has_bit (join w) 63 then sub_ℕ (join w) (2 ^ 64) else pos (join w)

-- The peers of the client are those of the server the other way round.
abbrev pub turned : Connection → Connection → Connection
turned c old = record old {
  peer = c.local_addr;
  size_peer = c.size_local;
  local_addr = c.peer;
  size_local = c.size_peer;
}

module _ {W : Type 0} ⦃d : Double W⦄ where
  -- The whole part and the millionths.
  unfoldable pub fixed_point : Words → W
  fixed_point w =
      add_w (of_int (pos w.first)) (div_w (of_int (pos w.second)) (of_int (pos million)))

  -- `if ((flags & HEADER_EXTEND) != 0)`; the count is below 2 ^ 31.
  unfoldable pub relay_extend : ServerHdr → TransferInfo W → TransferInfo W
  unfolding fixed_point
  relay_extend h i = record i {
    enhanced = true;
    transit = record i.transit {
      min_transit = fixed_point h.min_transit;
      max_transit = fixed_point h.max_transit;
      sum_transit = fixed_point h.sum_transit;
      mean_transit = fixed_point h.mean_transit;
      m2_transit = fixed_point h.m2_transit;
      vd_transit = fixed_point h.vd_transit;
      cnt_transit = h.cnt_transit;
    };
    ipg_cnt = pos h.ipg_cnt;
    ipg_sum = of_int (pos h.ipg_sum);
  }

  unfoldable pub relay_info : ServerHdr → TransferInfo W → TransferInfo W
  unfolding fixed_point join join_signed
  relay_info h i = record i {
    jitter = fixed_point h.jitter;
    total_len = join h.total_len;
    start_time = of_int (pos 0);
    end_time = fixed_point h.stop;
    cnt_error = pos h.error_cnt;
    cnt_outof_order = pos h.outorder_cnt;
    cnt_datagrams = join_signed (record { first = h.datagrams2; second = h.datagrams });
  }

  -- `ReportServerUDP`; `memory` and `old` are what `malloc` leaves in the header.
  unfoldable pub report_server_udp :
      Header W → Connection → Agent W → Option (MultiHeader W) → ServerHdr → Option (Header W)
  unfolding relay_extend relay_info
  report_server_udp memory old a m h =
      let base = relay_info h (record memory.report.info {
        transfer_id = a.sock;
        group_id = group_of m;
        format = a.format;
      }) in
      let info = if has_bit h.flags 30 then relay_extend h base else base in
      if is_server_report a.flags && has_bit h.flags 31
      then some (record memory {
        report = record memory.report {
          kind = 2;
          mode = a.report_mode;
          info = record info { udp = ThreadMode.server };
        };
        connection = some (turned a.connection old);
        has_ring = false;
      })
      else none
