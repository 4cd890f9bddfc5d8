-- ===== src/Reporter.antt =====
-- iperf2-code/src/Reporter.c and its header: the reports, from the agents (clients and servers) that
-- record packets to the reporter thread that counts and prints them.
pub mod Time
pub mod Packet
pub mod Multi
pub mod Interval
pub mod Header
pub mod Setup
pub mod Relay
pub mod Mss
pub mod Ring
pub mod Queue
