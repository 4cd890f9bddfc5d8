-- ===== src/Options/Generate.antt =====
-- iperf2-code/src/Settings.cpp: the settings of the listener for the way back of a test, the header that a client
-- sends for it and the settings that the server makes of that header.
use Prim.Native.Nat.{ℕ, ◌+◌, ◌-◌, ◌*◌, ◌%◌, ◌^◌}
use flexfcapf.Prelude.{Bool, true, false, not, ◌&&◌, ◌||◌, Option, none, some, ◌==◌, if◌then◌else◌}
use flexfcapf.Prelude.Int.{ℤ, pos, to_unsigned, as_signed}
use flexfcapf.Prelude.Bits.{has_bit, set_bit}
use flexfcapf.Settings.{ThreadMode, TestMode, RateUnits, is_pps}
use flexfcapf.Numbers.{Text}
use flexfcapf.Address.{Addr}
use flexfcapf.Options.{
  ThreadSettings, is_flag, set_flag, unset_flag, is_extended, buflenset_flag, compat_flag,
  daemon_flag, modetime_flag, bwset_flag, peerver_flag,
}

-- `client_hdr`: `client_hdr_v1` and `client_hdrext`. Each word is what `ntohl` makes of it, but for `flow_id`, which
-- neither side converts.
pub record ClientHdr : Type 0 where
  pub flags : ℕ
  pub num_threads : ℕ
  pub port : ℕ
  pub bufferlen : ℕ
  pub win_band : ℕ
  pub amount : ℕ
  pub flow_id : ℤ
  pub kind : ℕ  -- typelen.type
  pub length : ℕ  -- typelen.length
  pub extend_flags : ℕ
  pub version_u : ℕ
  pub version_l : ℕ
  pub reserved : ℕ
  pub rate : ℕ
  pub rate_units : ℕ
  pub realtime : ℕ

abbrev pub is_dual_test : TestMode → Bool
is_dual_test TestMode.dual_test = true
is_dual_test _ = false

abbrev pub is_trade_off : TestMode → Bool
is_trade_off TestMode.trade_off = true
is_trade_off _ = false

abbrev pub is_normal : TestMode → Bool
is_normal TestMode.normal = true
is_normal _ = false

-- The header's flags: HEADER_VERSION1, HEADER_EXTEND and RUN_NOW.
abbrev pub header_flags : Bool → Bool → Bool → ℕ
header_flags version1 extend run_now =
    (if version1 then 2 ^ 31 else 0) + (if extend then 2 ^ 30 else 0) + (if run_now then 1 else 0)

-- The port of the listener for the way back.
abbrev pub back_port : ℕ → ℕ → ℕ
back_port listen_port port = if listen_port == 0 then port else listen_port

-- `mAmount` from the header: the word, and for a negative one its absolute value.
unfoldable pub client_amount : ℕ → ℕ
client_amount word = if has_bit word 31 then 2 ^ 32 - word else word

module _ {W : Type 0} where
  -- `Settings_GenerateListenerSettings`
  unfoldable pub generate_listener_settings : ThreadSettings W → Option (ThreadSettings W)
  generate_listener_settings client =
      let s = unset_flag daemon_flag (set_flag compat_flag client) in
      if not (is_flag compat_flag client) && (is_dual_test client.mode || is_trade_off client.mode)
      then some (record s {
        port = back_port client.listen_port client.port;
        amount = if is_trade_off client.mode then 2 * client.amount % 2 ^ 64 else client.amount;
        file_name = none;
        output_file_name = none;
        mode = TestMode.normal;
        thread_mode = ThreadMode.listener;
      })
      else none

  -- `mAmount` of the header: hundredths of a second are sent as a negative number.
  unfoldable pub header_amount : ThreadSettings W → ℕ
  header_amount client =
      if is_flag modetime_flag client
      then (2 ^ 32 - client.amount % 2 ^ 32) % 2 ^ 32
      else client.amount % 2 ^ 31

  -- What `Settings_GenerateClientHdr` writes for a test of both ways.
  unfoldable pub fill_base : ThreadSettings W → ClientHdr → ClientHdr
  unfolding header_amount
  fill_base client hdr = if is_normal client.mode then hdr else record hdr {
    bufferlen = if is_flag buflenset_flag client then to_unsigned 32 client.buf_len else 0;
    port = back_port client.listen_port client.port;
    num_threads = to_unsigned 32 client.threads;
    amount = header_amount client;
    flow_id = client.flow_id;
  }

  -- What it writes for `HEADER_EXTEND`: CLIENTHDR, the length without type and length, and the version.
  unfoldable pub fill_extend : ℕ → ℕ → ThreadSettings W → ClientHdr → ClientHdr
  fill_extend major minor client hdr =
      if is_extended peerver_flag client
      then record hdr {
        rate = if is_flag bwset_flag client then hdr.rate else to_unsigned 32 client.udp_rate;
        kind = 1;
        length = 36 - 8;
        reserved = 0;
        version_u = major;
        version_l = minor;
        extend_flags = if is_pps client.udp_rate_units then 1 else 0;
      }
      else hdr

  -- `Settings_GenerateClientHdr`: the header, in which what is not written keeps its value, and the flags. The
  -- numbers are those of the version.
  unfoldable pub generate_client_hdr : ℕ → ℕ → ThreadSettings W → ClientHdr → ClientHdr × ℕ
  unfolding fill_base fill_extend
  generate_client_hdr major minor client hdr =
      let flags =
        header_flags (not (is_normal client.mode)) (is_extended peerver_flag client)
          (is_dual_test client.mode) in
      (fill_extend major minor client (record (fill_base client hdr) { flags = flags }), flags)

  -- `Settings_GenerateClientSettings`; `ntop` is the name of the peer's address.
  unfoldable pub generate_client_settings :
      (Addr → Text) → ThreadSettings W → ClientHdr → Option (ThreadSettings W)
  generate_client_settings ntop server hdr =
      let has_rate = has_bit hdr.flags 30 && not (is_flag bwset_flag server) in
      let s = set_flag compat_flag server in
      if has_bit hdr.flags 31
      then some (record s {
        flags = if has_bit hdr.amount 31 then set_bit s.flags modetime_flag else s.flags;
        tid = 0;
        port = hdr.port % 2 ^ 16;
        threads = pos 1;
        flow_id = hdr.flow_id;
        buf_len = if hdr.bufferlen == 0 then server.buf_len else as_signed 32 hdr.bufferlen;
        amount = client_amount hdr.amount;
        file_name = none;
        host = some (ntop server.peer);
        output_file_name = none;
        mode = if has_bit hdr.flags 0 then TestMode.dual_test else TestMode.trade_off;
        thread_mode = ThreadMode.client;
        udp_rate = if has_rate then pos hdr.rate else server.udp_rate;
        udp_rate_units =
            if has_rate
            then (if has_bit hdr.extend_flags 0 then RateUnits.pps else RateUnits.bw)
            else server.udp_rate_units;
      })
      else none
