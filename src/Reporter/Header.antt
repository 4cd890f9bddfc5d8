-- ===== src/Reporter/Header.antt =====
-- The headers of the reports in iperf2-code/include/Reporter.h, and what they take from the settings in `InitMulti`
-- and `InitReport` of iperf2-code/src/Reporter.c alike.
use Prim.Native.String.{String}
use flexfcapf.Prelude.{ℕ, ◌/◌, Bool, false, Option, none, if◌then◌else◌, replicate}
use flexfcapf.Prelude.Int.{ℤ, pos, pos_part}
use flexfcapf.Prelude.Double.{Double, of_int, to_int, sub_w, mul_w, eqb_w}
use flexfcapf.Settings.{
  ThreadMode, ReportMode, TestMode, is_server, is_udp, is_enhanced, Timeval, TransitStats, TcpStats,
  TransferInfo, ReporterData,
}
use flexfcapf.Reporter.Time.{million}
use flexfcapf.Address.{Addr}

-- `struct Connection_Info`
pub record Connection : Type 0 where
  pub peer : Addr
  pub size_peer : ℕ
  pub local_addr : Addr
  pub size_local : ℕ
  pub peerversion : String

-- The fields of `struct ReporterData` that are only printed.
pub record Printed : Type 0 where
  pub host : Option String
  pub localhost : Option String
  pub buf_len : ℕ
  pub max_seg : ℤ  -- mMSS
  pub tcp_win : ℤ
  pub port : ℕ
  pub udp_rate : ℤ

-- The settings of an agent that its reports take over.
pub record Agent (W : Type 0) : Type 0 where
  pub sock : ℤ
  pub threads : ℕ
  pub thread_mode : ThreadMode
  pub test_mode : TestMode
  pub report_mode : ReportMode
  pub flags : ℕ
  pub interval : W
  pub format : ℕ
  pub ttl : ℕ
  pub printed : Printed
  pub connection : Connection

-- A report with what belongs to it: `connection` is there if it has been filled in, and `has_ring` says that packet
-- records come with it, as opposed to both indices being -1 or unused.
pub record Header (W : Type 0) : Type 0 where
  pub report : ReporterData W
  pub printed : Option Printed
  pub connection : Option Connection
  pub has_ring : Bool

-- `memset( , 0, )`
abbrev pub zero_time : Timeval
zero_time = record { sec = 0; usec = 0 }

abbrev pub zero_tcp : TcpStats
zero_tcp = record {
  read = record {
    cnt_read = 0;
    totcnt_read = 0;
    bins = replicate 8 0;
    totbins = replicate 8 0;
    binsize = 0;
  };
  write = record {
    write_cnt = 0;
    write_err = 0;
    tcp_retry = pos 0;
    tot_write_cnt = 0;
    tot_write_err = 0;
    tot_tcp_retry = pos 0;
    last_tcp_retry = pos 0;
    cwnd = 0;
    rtt = 0;
  };
}

module _ {W : Type 0} ⦃d : Double W⦄ where
  abbrev pub zero_transit : W → TransitStats W
  zero_transit z = record {
    max_transit = z;
    min_transit = z;
    sum_transit = z;
    last_transit = z;
    mean_transit = z;
    m2_transit = z;
    vd_transit = z;
    cnt_transit = 0;
    totmax_transit = z;
    totmin_transit = z;
    totsum_transit = z;
    totcnt_transit = 0;
    totmean_transit = z;
    totm2_transit = z;
    totvd_transit = z;
  }

module _ {W : Type 0} ⦃d : Double W⦄ where
  unfoldable pub zero_info : TransferInfo W
  zero_info = record {
    reserved_delay = none;
    transfer_id = pos 0;
    group_id = pos 0;
    cnt_error = pos 0;
    cnt_outof_order = pos 0;
    cnt_datagrams = pos 0;
    ipg_cnt = pos 0;
    socket = pos 0;
    transit = zero_transit (of_int (pos 0));
    tcp = zero_tcp;
    total_len = 0;
    jitter = of_int (pos 0);
    start_time = of_int (pos 0);
    end_time = of_int (pos 0);
    ipg_sum = of_int (pos 0);
    format = 0;
    enhanced = false;
    ttl = 0;
    udp = ThreadMode.unknown;
    tcp_mode = ThreadMode.unknown;
    free = 0;
  }

  unfoldable pub zero_data : ReporterData W
  unfolding zero_info
  zero_data = record {
    kind = 0;
    cnt_error = pos 0;
    last_error = pos 0;
    cnt_outof_order = pos 0;
    last_outof_order = pos 0;
    cnt_datagrams = pos 0;
    last_datagrams = pos 0;
    packet_id = pos 0;
    flags = 0;
    thread_mode = ThreadMode.unknown;
    mode = ReportMode.default;
    total_len = 0;
    last_total = 0;
    info = zero_info;
    start_time = zero_time;
    packet_time = zero_time;
    next_time = zero_time;
    interval_time = zero_time;
    ipg_start = zero_time;
  }

  -- `mInterval` in seconds, as a time; it is not negative.
  unfoldable pub interval_of : W → Timeval
  interval_of interval =
      let sec = to_int interval in
      if eqb_w interval (of_int (pos 0)) then zero_time else record {
        sec = pos_part sec;
        usec = pos_part (to_int (mul_w (sub_w interval (of_int sec)) (of_int (pos million))));
      }

  -- What the reports of a transfer take from the settings, alone or as a sum.
  unfoldable pub set_transfer : Agent W → ReporterData W → ReporterData W
  unfolding interval_of
  set_transfer a r = record r {
    kind = 1;
    interval_time = interval_of a.interval;
    flags = a.flags;
    thread_mode = a.thread_mode;
    mode = a.report_mode;
    info = record r.info {
      format = a.format;
      ttl = a.ttl;
      enhanced = is_enhanced a.flags;
      tcp =
          if is_server a.thread_mode
          then record r.info.tcp {
            read = record r.info.tcp.read { binsize = a.printed.buf_len / 8 };
          }
          else r.info.tcp;
    };
  }

  -- A `char` that keeps the mode of a TCP thread.
  abbrev pub tcp_mode_of : Agent W → ThreadMode
  tcp_mode_of a = if is_udp a.flags then ThreadMode.unknown else a.thread_mode
