-- ===== src/Reporter/Setup.antt =====
-- `InitMulti`, `BarrierClient`, `InitReport` and `ReportSettings` of iperf2-code/src/Reporter.c: how an agent makes the
-- headers of its reports.
pub mod Barrier
pub mod Slots
use flexfcapf.Prelude.{
  ℕ, ◌+◌, ◌-◌, ◌*◌, Bool, true, false, not, ◌&&◌, ◌||◌, Option, none, some, List, [], ◌∷◌, ◌==◌,
  if◌then◌else◌, ltb, max, map,
}
use flexfcapf.Prelude.Int.{ℤ, pos, negsuc}
use flexfcapf.Prelude.Double.{Double, of_int}
use flexfcapf.Prelude.Bits.{set_bit}
use flexfcapf.Settings.{
  ThreadMode, TestMode, is_client, is_server, is_udp, is_multiple_report, is_connection_report,
  is_data_report, is_settings_report, Timeval, TransferInfo, ReporterData,
}
use flexfcapf.Reporter.Time.{time_add}
use flexfcapf.Reporter.Multi.{MultiHeader}
use flexfcapf.Reporter.Header.{
  Connection, Agent, Header, zero_time, zero_data, set_transfer, tcp_mode_of,
}
use flexfcapf.Address.{ByteOrder, set_port_any}

abbrev pub is_dual : TestMode → Bool
is_dual TestMode.dual_test = true
is_dual _ = false

-- `SockAddr_setPortAny` on both addresses of the sum.
abbrev pub any_ports : ByteOrder → Connection → Connection
any_ports o c = record c { peer = set_port_any o c.peer; local_addr = set_port_any o c.local_addr }

module _ {W : Type 0} where
  -- What `InitMulti` gives `num_multi_slots`; NUM_MULTI_SLOTS is 5.
  unfoldable pub num_slots : Agent W → ℕ
  num_slots a =
      if is_client a.thread_mode
      then (if is_dual a.test_mode then a.threads * 2 + 1 else a.threads + 1)
      else max (a.threads * 2 + 1) 5

  -- The static `num_multi_slots` after `InitMulti`.
  unfoldable pub num_slots_after : Agent W → ℕ → ℕ
  unfolding num_slots
  num_slots_after a num =
      if (ltb 1 a.threads || is_server a.thread_mode) && is_multiple_report a.flags
      then num_slots a
      else num

  -- A connection report is asked for as well.
  abbrev pub kind_of : Agent W → ℕ → ℕ
  kind_of a kind = if is_connection_report a.flags then set_bit kind 3 else kind

  -- `BarrierClient` up to its wait, at the time `now`: whether the client is the last one.
  unfoldable pub barrier_arrive : Timeval → MultiHeader W → MultiHeader W × Bool
  barrier_arrive now m =
      if m.threads == 1
      then (record m { threads = m.threads - 1; start_time = now }, true)
      else (record m { threads = m.threads - 1 }, false)

  -- `BarrierClient` after its wait.
  unfoldable pub barrier_leave : MultiHeader W → ReporterData W → MultiHeader W × ReporterData W
  barrier_leave m r = (
    record m { threads = m.threads + 1 },
    record r { start_time = m.start_time; next_time = time_add m.start_time r.interval_time },
  )

-- A slot of the sum before its first use; the rest of `x` is what the memory holds.
abbrev pub free_slot : {W : Type 0} ⦃d : Double W⦄ → ℤ → TransferInfo W → TransferInfo W
free_slot ⦃d⦄ id x = record x {
  start_time = of_int (negsuc 0);
  transfer_id = id;
  group_id = negsuc 1;
}

module _ {W : Type 0} ⦃d : Double W⦄ where
  -- `InitMulti`: the header of a group and the connection of its sum. `memory` is what `malloc` leaves in the slots,
  -- one for each.
  unfoldable pub init_multi :
      ByteOrder
      → Agent W
      → ℤ
      → (ℕ → List (TransferInfo W))
      → Option (MultiHeader W × Option Connection)
  unfolding num_slots zero_data set_transfer
  init_multi o a id memory =
      let sum = set_transfer a zero_data in
      if ltb 1 a.threads || is_server a.thread_mode
      then some (
          if is_multiple_report a.flags
          then (
            record {
              group = id;
              threads = a.threads;
              start_time = zero_time;
              report = record sum {
                kind = kind_of a sum.kind;
                info = record sum.info { udp = ThreadMode.unknown; tcp_mode = tcp_mode_of a };
              };
              slots = map (free_slot id) (memory (num_slots a));
            },
            (if is_connection_report a.flags then some (any_ports o a.connection) else none),
          )
          else (
            record {
              group = id;
              threads = a.threads;
              start_time = zero_time;
              report = zero_data;
              slots = [];
            },
            none,
          ))
      else none

  abbrev pub group_of : Option (MultiHeader W) → ℤ
  group_of none = negsuc 0
  group_of (some m) = m.group

  -- The first part of `InitReport`: the header of a data report.
  unfoldable pub data_header : Timeval → Agent W → Option (MultiHeader W) → Header W
  unfolding zero_data set_transfer
  data_header now a m =
      let r = set_transfer a zero_data in
      record {
        report = record r {
          ipg_start = if is_udp a.flags then now else zero_time;
          info = record r.info {
            transfer_id = a.sock;
            group_id = group_of m;
            udp = if is_udp a.flags then a.thread_mode else ThreadMode.unknown;
            tcp_mode = tcp_mode_of a;
          };
        };
        printed = some a.printed;
        connection = none;
        has_ring = true;
      }

  -- The header of a connection report alone.
  unfoldable pub connection_header : Agent W → Header W
  unfolding zero_data
  connection_header a = record {
    report = record zero_data {
      info = record zero_data.info { transfer_id = a.sock; group_id = negsuc 0 };
    };
    printed = none;
    connection = none;
    has_ring = false;
  }

  -- The connection of the report.
  unfoldable pub add_connection : Agent W → Header W → Header W
  add_connection a h = record h {
    report = record h.report { kind = set_bit h.report.kind 3 };
    connection = some a.connection;
  }

  -- The start of a report that does not wait at the barrier.
  unfoldable pub start_report :
      Timeval
      → Agent W
      → Option (MultiHeader W)
      → ReporterData W
      → Option (MultiHeader W) × ReporterData W
  start_report now a none r =
      (none, record r { start_time = now; next_time = time_add now r.interval_time })
  start_report now a (some m) r =
      let start = if m.report.start_time.sec == 0 then now else m.report.start_time in
      if is_multiple_report a.flags
      then (
        some
            (record m { threads = m.threads + 1; report = record m.report { start_time = start } }),
        record r { start_time = start; next_time = time_add start r.interval_time },
      )
      else (some m, record r { start_time = now; next_time = time_add now r.interval_time })

  -- Whether the report waits at the barrier of its group.
  abbrev pub waits_at_barrier : ReporterData W → Option (MultiHeader W) → Bool
  waits_at_barrier r none = false
  waits_at_barrier r (some m) = is_client r.thread_mode

  -- `InitReport` up to the start of the report; `none` is no report at all. A header without a ring has no group.
  unfoldable pub init_header : Timeval → Agent W → Option (MultiHeader W) → Option (Header W)
  unfolding data_header connection_header add_connection
  init_header now a m =
      if is_data_report a.flags
      then some (
          if is_connection_report a.flags
          then add_connection a (data_header now a m)
          else data_header now a m)
      else (if is_connection_report a.flags
          then some (add_connection a (connection_header a))
          else none)

  -- The group of a header: only a data report has one.
  abbrev pub header_group : Header W → Option (MultiHeader W) → Option (MultiHeader W)
  header_group h m = if h.has_ring then m else none

  -- `InitReport`: the header, the group, and whether the agent now waits at the barrier, which starts the report.
  unfoldable pub init_report :
      Timeval
      → Agent W
      → Option (MultiHeader W)
      → Option (Header W × (Option (MultiHeader W) × Bool))
  unfolding init_header start_report
  init_report now a m = elim (init_header now a m) [
    | none ↦ none
    | some h ↦
        let (m', r) = start_report now a (header_group h m) h.report in
        some (
          if waits_at_barrier h.report (header_group h m)
          then (h, (m, true))
          else (record h { report = r }, ((if h.has_ring then m' else m), false)))
  ]

  -- `ReportSettings`; `memory` is what `malloc` leaves in the header.
  unfoldable pub report_settings : Header W → Agent W → Option (Header W)
  report_settings memory a =
      if is_settings_report a.flags
      then some (record {
        report = record memory.report {
          kind = 4;
          flags = a.flags;
          thread_mode = a.thread_mode;
          mode = a.report_mode;
          info = record memory.report.info {
            transfer_id = a.sock;
            group_id = negsuc 0;
            format = a.format;
            ttl = a.ttl;
          };
        };
        printed = some a.printed;
        connection = some a.connection;
        has_ring = false;
      })
      else none
