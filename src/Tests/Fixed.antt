-- ===== src/Tests/Fixed.antt =====
-- Numbers in millionths, as an example of the interface to `double`, with records to start from.
use flexfcapf.Prelude.{
  ℕ, ◌+◌, ◌*◌, ◌/◌, ◌<◌, ◌≡◌, refl, true, false, none, some, List, [], ◌∷◌, replicate, arith, subst,
}
use flexfcapf.Prelude.Int.{
  ℤ, pos, pos_part, neg_part, sub_ℕ, ◌+ℤ◌, ◌-ℤ◌, ◌*ℤ◌, ltb_ℤ, eqb_ℤ, negsuc, ltb_ℤ→lt, +ℤ_parts,
}
use flexfcapf.Prelude.Double.{Double, of_int, to_int, sub_w}
use flexfcapf.Settings.{
  ThreadMode, ReportMode, TestMode, Timeval, TransitStats, TcpStats, ReportStruct, TransferInfo,
  ReporterData,
}
use flexfcapf.Reporter.Time.{micros}
use flexfcapf.Address.{Family, Addr, ByteOrder}
use flexfcapf.Reporter.Header.{Agent}
use flexfcapf.Reporter.Multi.{MultiHeader}
use flexfcapf.Reporter.Interval.{Reporting, Probe}
use flexfcapf.Reporter.Interval.End.{IsExact}

-- The quotient by a positive number, towards zero.
abbrev pub quot : ℤ → ℤ → ℤ
quot a b = sub_ℕ (pos_part a / pos_part b) (neg_part a / pos_part b)

abbrev pub scale : ℤ → ℤ
scale a = sub_ℕ (pos_part a * 1000000) (neg_part a * 1000000)

instance pub fixed : Double ℤ
fixed = record {
  of_int = scale;
  to_int = λ a. quot a (pos 1000000);
  add = λ a b. a +ℤ b;
  sub = λ a b. a -ℤ b;
  mul = λ a b. quot (a *ℤ b) (pos 1000000);
  div = λ a b. quot (scale a) b;
  lt = ltb_ℤ;
  eq = eqb_ℤ;
  flt_max = pos 1000000000;
  flt_min = pos 0;
}

sub_ℕ_parts : (a b : ℕ) → pos_part (sub_ℕ a b) + b ≡ neg_part (sub_ℕ a b) + a
sub_ℕ_parts a b = ground arith

quot-scale : (a : ℤ) → quot (scale (scale a)) (scale (pos 1000000)) ≡ a
quot-scale (pos n) = ground arith
quot-scale (negsuc n) = ground arith

earlier_fixed :
    (l r : Timeval)
    → ltb_ℤ (scale (sub_ℕ l.sec r.sec) +ℤ sub_ℕ l.usec r.usec) (pos 0) ≡ true
    → micros l < micros r
earlier_fixed l r h =
    let x = sub_ℕ l.sec r.sec in
    omega (
      arith,
      ltb_ℤ→lt (scale x +ℤ sub_ℕ l.usec r.usec) (pos 0) h,
      +ℤ_parts (scale x) (sub_ℕ l.usec r.usec),
      sub_ℕ_parts l.sec r.sec,
      sub_ℕ_parts l.usec r.usec,
      sub_ℕ_parts (pos_part x * 1000000) (neg_part x * 1000000),
    )

pub fixed-IsExact : IsExact ℤ
unfolding ◌+ℤ◌ fixed
fixed-IsExact = record {
  earlier = λ l r lu ru h. earlier_fixed l r (
      subst (λ y. ltb_ℤ (scale (sub_ℕ l.sec r.sec) +ℤ y) (pos 0) ≡ true)
        (quot-scale (sub_ℕ l.usec r.usec)) h);
}

pub fixed-whole :
    to_int ⦃d = fixed⦄ (sub_w ⦃d = fixed⦄ (of_int ⦃d = fixed⦄ (pos 4000)) (pos 0)) ≡ pos 4000
unfolding ◌-ℤ◌ fixed
fixed-whole = refl

-- A transfer of a server that begins: its interval is one second, and it has not yet seen a packet.
abbrev pub no_transit : TransitStats ℤ
no_transit = record {
  max_transit = pos 0;
  min_transit = pos 0;
  sum_transit = pos 0;
  last_transit = pos 0;
  mean_transit = pos 0;
  m2_transit = pos 0;
  vd_transit = pos 0;
  cnt_transit = 0;
  totmax_transit = pos 0;
  totmin_transit = pos 0;
  totsum_transit = pos 0;
  totcnt_transit = 0;
  totmean_transit = pos 0;
  totm2_transit = pos 0;
  totvd_transit = pos 0;
}

abbrev pub no_tcp : TcpStats
no_tcp = record {
  read = record {
    cnt_read = 0;
    totcnt_read = 0;
    bins = replicate 8 0;
    totbins = replicate 8 0;
    binsize = 16;
  };
  write = record {
    write_cnt = 0;
    write_err = 0;
    tcp_retry = pos 0;
    tot_write_cnt = 0;
    tot_write_err = 0;
    tot_tcp_retry = pos 0;
    last_tcp_retry = pos 0;
    cwnd = 0;
    rtt = 0;
  };
}

abbrev pub no_info : ℤ → TransferInfo ℤ
no_info start = record {
  reserved_delay = none;
  transfer_id = pos 3;
  group_id = negsuc 0;
  cnt_error = pos 0;
  cnt_outof_order = pos 0;
  cnt_datagrams = pos 0;
  ipg_cnt = pos 0;
  socket = pos 3;
  transit = no_transit;
  tcp = no_tcp;
  total_len = 0;
  jitter = pos 0;
  start_time = start;
  end_time = pos 0;
  ipg_sum = pos 0;
  format = 97;
  enhanced = true;
  ttl = 0;
  udp = ThreadMode.server;
  tcp_mode = ThreadMode.unknown;
  free = 0;
}

abbrev pub time : ℕ → ℕ → Timeval
time sec usec = record { sec = sec; usec = usec }

abbrev pub no_data : ReporterData ℤ
no_data = record {
  kind = 1;
  cnt_error = pos 0;
  last_error = pos 0;
  cnt_outof_order = pos 0;
  last_outof_order = pos 0;
  cnt_datagrams = pos 0;
  last_datagrams = pos 0;
  packet_id = pos 0;
  flags = 2048;
  thread_mode = ThreadMode.server;
  mode = ReportMode.default;
  total_len = 0;
  last_total = 0;
  info = no_info (pos 0);
  start_time = time 10 0;
  packet_time = time 10 0;
  next_time = time 11 0;
  interval_time = time 1 0;
  ipg_start = time 10 0;
}

-- A sum of two streams, with two free slots.
abbrev pub two_slots : MultiHeader ℤ
two_slots = record {
  group = pos 1;
  threads = 2;
  start_time = time 0 0;
  report = no_data;
  slots = no_info (negsuc 999999) ∷ no_info (negsuc 999999) ∷ [];
}

abbrev pub start : Reporting ℤ
start = record { num_slots = 2; stats = no_data; multi = some two_slots; out = [] }

abbrev pub datagram : ℤ → Timeval → ReportStruct
datagram id at = record {
  packet_id = id;
  packet_len = 1470;
  packet_time = at;
  sent_time = at;
  errwrite = false;
  emptyreport = false;
  socket = pos 3;
}

-- The second is missing, the third comes after the fourth, and the last ends the transfer.
abbrev pub datagrams : List ReportStruct
datagrams =
    datagram (pos 1) (time 10 5)
    ∷ datagram (pos 4) (time 11 5)
    ∷ datagram (pos 3) (time 12 5)
    ∷ datagram (negsuc 4) (time 12 9)
    ∷ []

abbrev pub no_probe : ℕ → Probe
no_probe n = (false, record { total_retrans = 0; snd_cwnd = 0; snd_mss = 0; rtt = 0 })

-- A machine whose order is that of the network.
abbrev pub big_endian : ByteOrder
big_endian = record { htons = λ n. n; ntohs = λ n. n; ntohl = λ n. n }

abbrev pub no_addr : Addr
no_addr = record { family = Family.inet; port = 0; addr4 = 0; addr6 = replicate 16 0 }

-- Two parallel TCP clients, with all of the reports.
abbrev pub two_clients : Agent ℤ
two_clients = record {
  sock = pos 3;
  threads = 2;
  thread_mode = ThreadMode.client;
  test_mode = TestMode.normal;
  report_mode = ReportMode.default;
  flags = 0;
  interval = pos 1000000;
  format = 97;
  ttl = 1;
  printed = record {
    host = none;
    localhost = none;
    buf_len = 131072;
    max_seg = pos 0;
    tcp_win = pos 0;
    port = 5001;
    udp_rate = pos 0;
  };
  connection = record {
    peer = no_addr;
    size_peer = 16;
    local_addr = no_addr;
    size_local = 16;
    peerversion = "";
  };
}
