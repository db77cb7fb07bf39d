-- ===== src/Cmd.antt =====
-- dns/cmd/homedns-dns/main.go: the command line of the program.
pub mod Flags
pub mod Values
pub mod Options
pub mod Output
pub mod Server
pub mod Benchmark
pub mod Texts
pub mod Progress
pub mod Main
mod Samples
