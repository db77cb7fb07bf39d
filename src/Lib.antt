-- ===== src/Lib.antt =====
-- HomeDNS: the DNS service of dns/, a forwarder with metrics and a health endpoint, and its benchmark.
--
-- The parts and how they meet. dns/internal/app composes the service: it starts the DNS server
-- (dns/internal/dnsserver), then the health server (dns/internal/health), and stops them in the
-- opposite order. The DNS server hands each request to its handler, which asks the upstream client
-- (dns/internal/upstream) and counts in the registry of dns/internal/metrics; the health handler reads
-- that registry and the readiness of the DNS server. dns/internal/config holds and validates the
-- settings. dns/internal/benchmark sends queries over two paths, directly to the upstream resolver and
-- through HomeDNS, counts what happens, classifies each scenario and sums the scenarios up.
-- dns/cmd/homedns-dns reads the command line and starts the service, or a benchmark: RunBenchmark of
-- dns/internal/app looks for the process of the service and hands a configuration to the benchmark
-- service.
--
-- The files.
--   Common            what the modules share: tests and lists over the native numbers, 64-bit words,
--                     Go errors, and what is used of the package strings
--   Strings           what is used of the packages strings and strconv, over native texts
--   Float             `float64` with the operations and the order that the benchmark uses
--   Net, Messages     what is used of the package net and of github.com/miekg/dns
--   Metrics           dns/internal/metrics/metrics.go: Registry, its methods, Snapshot
--   Upstream          dns/internal/upstream: Client.Exchange with its retry over TCP, IsTimeout
--   DnsServer.Handler dns/internal/dnsserver/handler.go: ServeDNS with panics and their recovery
--   DnsServer.Lifecycle  dns/internal/dnsserver/server.go: Start, Shutdown, observeListener
--   Health.Server     dns/internal/health/server.go: Start, Shutdown, serve, the loopback check
--   Health.Handler    dns/internal/health/handler.go: ServeHTTP, buildResponse
--   Config            dns/internal/config: Default, Validate, and Load (Config.Load)
--   App               dns/internal/app/app.go: Run, shutdown, healthState, and New (App.Create)
--   App.Process       dns/internal/app/benchmark_process_linux.go: which process is the server
--   App.Options, App.Benchmark  dns/internal/app/benchmark.go: the options and their validation, and
--                     RunBenchmark
--   Cmd               dns/cmd/homedns-dns: the parser of package flag (Cmd.Flags), the options of the
--                     benchmark command (Cmd.Values, Cmd.Options), runServer, runBenchmark and run (Cmd.Server,
--                     Cmd.Benchmark, Cmd.Main), the progress reporter (Cmd.Texts, Cmd.Progress)
--   TestServer        dns/internal/testutil/dnstest/server.go: the server that tests query
--   Benchmark.Report  dns/internal/benchmark/report.go: the types of the results
--   Benchmark.Query   dns/internal/benchmark/runner.go: executeQuery
--   Benchmark.Runner  runner.go: the goroutines and the loop of RunPath
--   Benchmark.Rates   runner.go and statistics.go: rates and throughput
--   Benchmark.Progress  progress.go: overall counts, percentages, the time left
--   Benchmark.Path    config.go: which paths may run
--   Benchmark.Scenario  scenario.go: RunScenario, the comparison of two paths
--   Benchmark.Suite   suite.go, profile.go: the four scenarios, SuiteRunner.Run, the profiles
--   Benchmark.Classify, Benchmark.Summary  report_runner.go: classification and summary
--   Benchmark.Service  service.go: Service.Run, the validations of report_runner.go and
--                     resource_collector.go, and ReportRunner.Run (Benchmark.Service.Report)
-- In each directory, Samples has the definitions at concrete inputs; the other modules are named for
-- what they prove.
--
-- How the code is read. An `int`, an `int64`, a `uint64` and a `time.Duration` are their bit patterns,
-- numbers below 2 ^ 64, and arithmetic wraps around as it does in Go. A pointer that may be nil is an
-- Option where the code tests it. An error is what the program can see of it; messages are kept where
-- a result carries them. The type of floats is a parameter, with the comparisons of IEEE 754 away from
-- NaN as hypotheses where an order is needed; messages of miekg/dns, the writer, the sockets, the
-- package net and the clock are parameters too, and answer as they like.
--
-- Concurrency. A section that holds the mutex is one function. The goroutines that take turns are
-- step relations: the two servers under their callers (DnsServer.Lifecycle.Interleaving, where one
-- caller at a time shuts down, and Health.Server.Interleaving, with any number of callers), and the
-- goroutines of a benchmark path: the scheduler, the workers with their wait group, the goroutine that
-- closes the channel of the observations after them, and the collecting loop (Benchmark.Runner.Pool).
-- What a call does after its section is a step of its own: `go s.serve` of the health server, and the
-- `ready.Store(false)` of an observer of a DNS listener. The
-- registry's counters are atomic, so that concurrent calls of its methods take effect one after the
-- other; a snapshot is taken with no call between its loads, which the code does not promise. App runs
-- its own sections and, in one go each, what the two servers' goroutines do when they end while it
-- waits.
--
-- Loops are recursion on lists. The goroutines of a path need no fuel: the number of their
-- steps is bounded.
--
-- Output is told by data: a printed line, a complaint or a log entry is a constructor with the values
-- that are formatted into it, and an exit code is a number.
--
-- Not modelled: logging (but for the entries of the DNS handler), JSON, the wording of messages, the
-- decoding of YAML, the reading of files and of /proc, /sys and vcgencmd (they are parameters), signals,
-- the resource collector and its summary, the sockets of the test server, the version strings, which are
-- set when the program is built, and the frontend directory. The latency statistics are not modelled
-- either, nor the metadata that is only copied into the report.
pub mod Common
pub mod Net
pub mod Strings
pub mod Float
pub mod Messages
pub mod Metrics
pub mod Upstream
pub mod DnsServer
pub mod Health
pub mod Benchmark
pub mod Cmd
pub mod Config
pub mod TestServer
pub mod App
