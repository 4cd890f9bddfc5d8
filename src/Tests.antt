-- ===== src/Tests.antt =====
-- Each theorem applied to a concrete input.
mod Fixed
mod Loops
mod Reports
mod Rings
mod Parsing
mod Streams
mod Lines
mod Servers
mod Files
mod Whole
mod Waits
