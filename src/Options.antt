-- ===== src/Options.antt =====
-- iperf2-code/src/Settings.cpp and the structures of iperf2-code/include/Settings.hpp: the settings of a thread, their
-- defaults and their copies.
pub mod Texts
pub mod Interpret
pub mod Generate
pub mod Modes
pub mod Flags
pub mod Trip
pub mod Length
pub mod Refusal
use Prim.Native.Nat.{ℕ, ◌+◌, ◌*◌, ◌^◌}
use flexfcapf.Prelude.{Bool, Option, none, replicate}
use flexfcapf.Prelude.Int.{ℤ, pos, negsuc}
use flexfcapf.Prelude.Bits.{has_bit, set_bit, clear_bit}
use flexfcapf.Prelude.Double.{Double, of_int}
use flexfcapf.Settings.{ThreadMode, ReportMode, TestMode, RateUnits}
use flexfcapf.Numbers.{Text}
use flexfcapf.Address.{Addr, zero_address}

-- `thread_Settings`, without the open file, the report headers and the padding. A pointer to other settings is the
-- number of the object.
pub record ThreadSettings (W : Type 0) : Type 0 where
  pub file_name : Option Text  -- -F
  pub host : Option Text  -- -c
  pub localhost : Option Text  -- -B
  pub output_file_name : Option Text  -- -o
  pub run_now : Option ℕ
  pub run_next : Option ℕ
  pub threads : ℤ  -- -P
  pub tos : ℤ  -- -S
  pub sock : ℤ
  pub buf_len : ℤ  -- -l
  pub mss : ℤ  -- -M
  pub tcp_win : ℤ  -- -w
  pub flags : ℕ
  pub flags_extend : ℕ
  pub thread_mode : ThreadMode  -- -s or -c
  pub report_mode : ReportMode
  pub mode : TestMode  -- -r or -d
  pub udp_rate : ℤ  -- -b or -u
  pub udp_rate_units : RateUnits  -- -b
  pub amount : ℕ  -- -n or -t
  pub interval : W  -- -i
  pub listen_port : ℕ  -- -L
  pub port : ℕ  -- -p
  pub bind_port : ℕ  -- -B
  pub format : ℕ  -- -f
  pub ttl : ℤ  -- -T
  pub peer : Addr
  pub size_peer : ℕ
  pub local_addr : Addr
  pub size_local : ℕ
  pub tid : ℕ
  pub congestion : Option Text
  pub flow_id : ℤ  -- -k

-- The flags by their places in the masks.
abbrev pub buflenset_flag : ℕ
buflenset_flag = 0

abbrev pub compat_flag : ℕ
compat_flag = 1

abbrev pub daemon_flag : ℕ
daemon_flag = 2

abbrev pub domain_flag : ℕ
domain_flag = 3

abbrev pub fileinput_flag : ℕ
fileinput_flag = 4

abbrev pub nodelay_flag : ℕ
nodelay_flag = 5

abbrev pub printmss_flag : ℕ
printmss_flag = 6

abbrev pub stdin_flag : ℕ
stdin_flag = 8

abbrev pub stdout_flag : ℕ
stdout_flag = 9

abbrev pub suggestwin_flag : ℕ
suggestwin_flag = 10

abbrev pub udp_flag : ℕ
udp_flag = 11

abbrev pub modetime_flag : ℕ
modetime_flag = 12

abbrev pub reportsettings_flag : ℕ
reportsettings_flag = 13

abbrev pub multicast_flag : ℕ
multicast_flag = 14

abbrev pub nosettreport_flag : ℕ
nosettreport_flag = 15

abbrev pub noconnreport_flag : ℕ
noconnreport_flag = 16

abbrev pub nodatareport_flag : ℕ
nodatareport_flag = 17

abbrev pub noservreport_flag : ℕ
noservreport_flag = 18

abbrev pub nomultreport_flag : ℕ
nomultreport_flag = 19

abbrev pub singleclient_flag : ℕ
singleclient_flag = 20

abbrev pub singleudp_flag : ℕ
singleudp_flag = 21

abbrev pub congestion_flag : ℕ
congestion_flag = 22

abbrev pub realtime_flag : ℕ
realtime_flag = 23

abbrev pub bwset_flag : ℕ
bwset_flag = 24

abbrev pub enhancedreport_flag : ℕ
enhancedreport_flag = 25

abbrev pub servermodetime_flag : ℕ
servermodetime_flag = 26

-- In `flags_extend`.
abbrev pub peerver_flag : ℕ
peerver_flag = 0

abbrev pub seqno64_flag : ℕ
seqno64_flag = 1

module _ {W : Type 0} where
  -- The macros `isX`, `setX` and `unsetX` for the flag at a place.
  abbrev pub is_flag : ℕ → ThreadSettings W → Bool
  is_flag k s = has_bit s.flags k

  abbrev pub set_flag : ℕ → ThreadSettings W → ThreadSettings W
  set_flag k s = record s { flags = set_bit s.flags k }

  abbrev pub unset_flag : ℕ → ThreadSettings W → ThreadSettings W
  unset_flag k s = record s { flags = clear_bit s.flags k }

  abbrev pub is_extended : ℕ → ThreadSettings W → Bool
  is_extended k s = has_bit s.flags_extend k

  abbrev pub set_extended : ℕ → ThreadSettings W → ThreadSettings W
  set_extended k s = record s { flags_extend = set_bit s.flags_extend k }

  abbrev pub unset_extended : ℕ → ThreadSettings W → ThreadSettings W
  unset_extended k s = record s { flags_extend = clear_bit s.flags_extend k }

  -- `Settings_Copy`: the strings are copied, and the copy is no started thread and starts none.
  unfoldable pub copy : ThreadSettings W → ThreadSettings W
  copy s = record s { tid = 0; run_next = none; run_now = none }

module _ {W : Type 0} ⦃d : Double W⦄ where
  -- `Settings_Initialize`
  unfoldable pub initialize : ThreadSettings W
  initialize = record {
    file_name = none;
    host = none;
    localhost = none;
    output_file_name = none;
    run_now = none;
    run_next = none;
    threads = pos 0;
    tos = pos 0;
    sock = negsuc 0;
    buf_len = pos (128 * 1024);
    mss = pos 0;
    tcp_win = pos 0;
    flags = 2 ^ modetime_flag + 2 ^ stdout_flag;
    flags_extend = 0;
    thread_mode = ThreadMode.unknown;
    report_mode = ReportMode.default;
    mode = TestMode.normal;
    udp_rate = pos 0;
    udp_rate_units = RateUnits.bw;
    amount = 1000;
    interval = of_int (pos 0);
    listen_port = 0;
    port = 5001;
    bind_port = 0;
    format = b'a';
    ttl = pos 1;
    peer = zero_address;
    size_peer = 0;
    local_addr = zero_address;
    size_local = 0;
    tid = 0;
    congestion = none;
    flow_id = pos 0;
  }
