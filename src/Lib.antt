-- ===== src/Lib.antt =====
-- The traffic measurement program iperf 2, as it is kept in iperf2-code: what its threads report and how
-- the reports are counted, summed and printed, with the options, threads, sockets and addresses around it.
--
-- A client or server thread (an agent) describes each packet in a record and stores it in a ring that
-- it shares with the reporter thread. The reporter takes the records, adds them to the totals of the
-- transfer, prints a report for each interval that is over and one at the end, and adds the reports of
-- parallel streams up.
--
-- Files:
--   Settings: the enumerations, flags and structures of iperf2-code/include/Settings.hpp and
--     iperf2-code/include/Reporter.h.
--   Reporter/Ring: ReportPacket, CloseReport, EndReport and the loop of reporter_process_report
--     (iperf2-code/src/Reporter.c). Each step reads or writes one thing that is shared, and a schedule
--     is a list of the threads whose turn it is. NUM_REPORT_STRUCTS is a parameter.
--   Reporter/Packet: reporter_handle_packet up to its call of reporter_condprintstats.
--   Reporter/Interval: reporter_condprintstats, gettcpistats and the transfer report of reporter_print.
--     The loop over the intervals has fuel; the number of microseconds from the next report to the
--     packet and one more is enough. What is printed is a list of values and not text.
--   Reporter/Header, Reporter/Setup, Reporter/Relay, Reporter/Mss: InitMulti, BarrierClient, InitReport,
--     ReportSettings, ReportServerUDP and PrintMSS. What malloc leaves in memory that is read later is a
--     parameter; a client's wait at the barrier divides BarrierClient in two steps.
--   Reporter/Multi: reporter_handle_multiple_reports. The static variable num_multi_slots, which all headers share, is an
--     argument (a field of the state in Reporter/Interval, and what num_slots_after of Reporter/Setup gives).
--   Reporter/Queue: the recursion of reporter_process_report over the list of reports, and the rounds of
--     reporter_spawn.
--   Reporter/Time: TimeDifference and TimeAdd.
--   Thread: iperf2-code/compat/Thread.c. Each operation holds one lock, so it is one step.
--   Sockets: iperf2-code/src/sockets.c and iperf2-code/src/tcp_window_size.c. The answers of the system
--     calls are the input of the loops.
--   Address: iperf2-code/src/SocketAddr.c. Byte order and name resolution are parameters.
--   Numbers: byte_atof, byte_atoi and byte_snprintf of iperf2-code/src/stdio.c. The conversions of the C
--     library are a parameter; what is printed is a number, a count of digits and a label.
--   Options: thread_Settings of iperf2-code/include/Settings.hpp and iperf2-code/src/Settings.cpp. Options/Texts
--     has the options and the functions on arguments, Options/Interpret Settings_Interpret, where exit is
--     no result, Options/Generate the settings and the header of a test of both ways. Which options are
--     there, and in what order, is the input: getopt is a copy of the GNU library. The other children have
--     proofs only.
--   Traffic: iperf2-code/src/Server.cpp and iperf2-code/src/Client.cpp. Traffic/Server has the loops of RunUDP, RunTCP
--     and write_UDP_AckFIN, Traffic/Client those of RunTCP, Run and write_UDP_FIN,
--     Traffic/Rated that of RunRateLimitedTCP, and Traffic/Exchange the exchange of headers between
--     Client.cpp and iperf2-code/src/Listener.cpp. A loop is a function of
--     what the system calls answer, and its result is what it reports and writes; it has no result as
--     long as it waits. The loops that try ten times have that number as their fuel. The other children
--     have proofs only; Traffic/Reports joins the server's loop to Reporter/Ring, and Traffic/Delivery the client's loop,
--     a network, the server's loop and the reporter.
--   Clients: iperf2-code/src/List.cpp, and how iperf2-code/src/Listener.cpp enters a client. Each holds a lock,
--     so it is one step. Clients/Listener has the loop of Run and the acceptance of UDP clients,
--     Clients/Single UDPSingleServer, as what it does with each client.
--   Launch: client_init of iperf2-code/src/Launch.cpp and main of iperf2-code/src/main.cpp, as the settings of the threads
--     that are started.
--   Extractor: iperf2-code/src/Extractor.c. A file is the list of bytes that are left to read.
--   Delay: iperf2-code/compat/delay.c with the Kalman filter. The readings of the clock are the input of the loops.
--   Buffers: the lengths that the constructors of Client.cpp, Listener.cpp and Server.cpp settle on, and what stands in the
--     buffers.
--   Styles: iperf2-code/src/ReportDefault.c, iperf2-code/src/ReportCSV.c and the formats of iperf2-code/src/Locale.c. A call
--     of printf is a format with its arguments.
--   Prelude: shared names and lemmas. Prelude/Double is the interface to the machine's double, whose
--     operations are a parameter; Prelude/Int reads machine integers as whole numbers.
--   Tests: each theorem at a concrete input.
--
-- Byte counts are taken modulo 2 ^ 64; the counters of packets and threads are whole numbers and do not
-- wrap. The build is the POSIX one of iperf2-code/config.h, with threads and IPv6. Not modelled: the text that printf
-- makes of a line and the lines for settings and connections, the time limits of the exchange of headers, the
-- acceptance of TCP clients, the options of sockets that the threads set, signals, the platform's fallbacks
-- in iperf2-code/compat, checkdelay, and the Windows code.
pub mod Prelude
pub mod Settings
pub mod Numbers
pub mod Options
pub mod Address
pub mod Sockets
pub mod Thread
pub mod Reporter
pub mod Traffic
pub mod Clients
pub mod Buffers
pub mod Extractor
pub mod Delay
pub mod Styles
pub mod Launch
pub mod Tests
