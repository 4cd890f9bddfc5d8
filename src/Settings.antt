-- ===== src/Settings.antt =====
-- iperf2-code/include/Settings.hpp and iperf2-code/include/Reporter.h: the enumerations, the flags and
-- the structures that the other modules share. A structure keeps the fields that the modelled code
-- reads or writes.
use Prim.Native.String.{String}
use flexfcapf.Prelude.{ℕ, Bool, not, Option, List}
use flexfcapf.Prelude.Int.{ℤ}
use flexfcapf.Prelude.Bits.{has_bit}

pub data ThreadMode : Type 0 where
  unknown server client reporter listener : ThreadMode

pub data ReportMode : Type 0 where
  default csv : ReportMode

pub data TestMode : Type 0 where
  normal dual_test trade_off unknown_test : TestMode

pub data RateUnits : Type 0 where
  bw pps : RateUnits

abbrev pub is_pps : RateUnits → Bool
is_pps RateUnits.pps = Bool.true
is_pps RateUnits.bw = Bool.false

abbrev pub is_server : ThreadMode → Bool
is_server server = Bool.true
is_server _ = Bool.false

abbrev pub is_client : ThreadMode → Bool
is_client client = Bool.true
is_client _ = Bool.false

abbrev pub is_listener : ThreadMode → Bool
is_listener listener = Bool.true
is_listener _ = Bool.false

-- A `char` that holds a `ThreadMode`, tested for being nonzero.
abbrev pub is_set : ThreadMode → Bool
is_set unknown = Bool.false
is_set _ = Bool.true

-- The tests of the bit mask `flags`, by the bit's place.
abbrev pub is_ipv6 : ℕ → Bool
is_ipv6 flags = has_bit flags 3

abbrev pub is_print_mss : ℕ → Bool
is_print_mss flags = has_bit flags 6

abbrev pub is_udp : ℕ → Bool
is_udp flags = has_bit flags 11

abbrev pub is_settings_report : ℕ → Bool
is_settings_report flags = not (has_bit flags 15)

abbrev pub is_connection_report : ℕ → Bool
is_connection_report flags = not (has_bit flags 16)

abbrev pub is_data_report : ℕ → Bool
is_data_report flags = not (has_bit flags 17)

abbrev pub is_server_report : ℕ → Bool
is_server_report flags = not (has_bit flags 18)

abbrev pub is_multiple_report : ℕ → Bool
is_multiple_report flags = not (has_bit flags 19)

abbrev pub is_enhanced : ℕ → Bool
is_enhanced flags = has_bit flags 25

-- `struct timeval`: times of day and intervals, which are not negative.
pub record Timeval : Type 0 where
  pub sec : ℕ
  pub usec : ℕ

pub record TransitStats (W : Type 0) : Type 0 where
  pub max_transit : W
  pub min_transit : W
  pub sum_transit : W
  pub last_transit : W
  pub mean_transit : W
  pub m2_transit : W
  pub vd_transit : W
  pub cnt_transit : ℕ
  pub totmax_transit : W
  pub totmin_transit : W
  pub totsum_transit : W
  pub totcnt_transit : ℕ
  pub totmean_transit : W
  pub totm2_transit : W
  pub totvd_transit : W

-- `bins` and `totbins` have eight elements.
pub record ReadStats : Type 0 where
  pub cnt_read : ℕ
  pub totcnt_read : ℕ
  pub bins : List ℕ
  pub totbins : List ℕ
  pub binsize : ℕ

pub record WriteStats : Type 0 where
  pub write_cnt : ℕ
  pub write_err : ℕ
  pub tcp_retry : ℤ
  pub tot_write_cnt : ℕ
  pub tot_write_err : ℕ
  pub tot_tcp_retry : ℤ
  pub last_tcp_retry : ℤ
  pub cwnd : ℕ
  pub rtt : ℕ

-- The union `TCPStats`. A server uses the one member and a client the other, so both are kept.
pub record TcpStats : Type 0 where
  pub read : ReadStats
  pub write : WriteStats

-- What a sending or receiving thread says of a packet; `packet_id` is negative at the end.
pub record ReportStruct : Type 0 where
  pub packet_id : ℤ
  pub packet_len : ℕ
  pub packet_time : Timeval
  pub sent_time : Timeval
  pub errwrite : Bool
  pub emptyreport : Bool
  pub socket : ℤ

pub record TransferInfo (W : Type 0) : Type 0 where
  pub reserved_delay : Option String
  pub transfer_id : ℤ
  pub group_id : ℤ
  pub cnt_error : ℤ
  pub cnt_outof_order : ℤ
  pub cnt_datagrams : ℤ
  pub ipg_cnt : ℤ
  pub socket : ℤ
  pub transit : TransitStats W
  pub tcp : TcpStats
  pub total_len : ℕ
  pub jitter : W
  pub start_time : W
  pub end_time : W
  pub ipg_sum : W
  pub format : ℕ
  pub enhanced : Bool
  pub ttl : ℕ
  pub udp : ThreadMode
  pub tcp_mode : ThreadMode
  pub free : ℕ

-- `struct ReporterData`: the totals of a transfer, what they were at the last interval report, and the
-- figures of the report that is printed next.
pub record ReporterData (W : Type 0) : Type 0 where
  pub kind : ℕ  -- the bit mask `type`
  pub cnt_error : ℤ
  pub last_error : ℤ
  pub cnt_outof_order : ℤ
  pub last_outof_order : ℤ
  pub cnt_datagrams : ℤ
  pub last_datagrams : ℤ
  pub packet_id : ℤ
  pub flags : ℕ
  pub thread_mode : ThreadMode
  pub mode : ReportMode
  pub total_len : ℕ
  pub last_total : ℕ
  pub info : TransferInfo W
  pub start_time : Timeval
  pub packet_time : Timeval
  pub next_time : Timeval
  pub interval_time : Timeval
  pub ipg_start : Timeval
