-- ===== src/Lib.antt =====
-- Route Fork (module `rofk`) scans ports through pools of SOCKS proxies. This library models the
-- parts of it that decide something, and proves what they promise.
--
-- The parts. Package `proxy` reads lists of proxies and classifies the errors of dials through
-- them. Package `pool` keeps the proxies and hands them out in turn. Package `scanner` reads port
-- specifications and probes each host and port through several proxies at once until a quorum of
-- them agrees. Package `relay` serves SOCKS4 on the local host for nmap, through a proxy of the
-- pool. Package `cli` is the command line over all of these.
--
-- Base: names of the libraries, Boolean tests, lists, Go's `int`, `sort.Ints`, results with errors.
-- Text: what the program uses of `strings`, `strconv` and of maps with string keys.
-- Proxy: proxy/proxy.go. `Proxy.Parse` has `ParseLine` and `ParseAll` as `parse_line` and
--   `parse_all`, with the groups of `uriRE` matched by `match_uri`; `Proxy.Errors` has
--   `IsProxyError` and `IsProxyDead` of proxy/validate.go.
--   `Proxy.Handshake` has `socks5Handshake`, `Proxy.Egress` `extractPublicIP`, and `Proxy.Dial`
--   `DialThroughProxy`, `Validate` and `FetchEgressIP` of the same file.
-- Pool: pool/pool.go, a record with one function for each method.
-- Net: connections, and the messages of a SOCKS client, which packages `proxy` and `relay` share.
-- Relay: relay/relay.go. `handle` reads the request with `read_request`, goes through the proxy with
--   `dial_upstream`, and ends where the copying of bytes begins.
-- Geo: the search of the table of geo/geo.go, which names the country of a proxy's address;
--   `Geo.Database` has the rest of that file.
-- Scanner.Ports: `ParsePorts` and `CompressPorts` of scanner/scanner.go.
-- Scanner.Direct: `Scan`, its dialers and `MergePortSpecs` of scanner/scanner.go.
-- Scanner.Expand: `ExpandTarget` of scanner/scanner.go, for IPv4. Scanner.Run: scanner/run.go.
-- Scanner.Quorum: scanner/quorum.go. Scanner.Throttle: scanner/throttle.go.
-- Scanner.Rotate: `RotateScan` of scanner/rotate.go, the grid of its jobs and what they share.
-- Scanner.Banner: `CleanBanner` of scanner/services.go. Scanner.Services: the rest of that file, and
--   scanner/probe.go with `IdentifyService` as `identify_service`.
-- Scanner.Region: scanner/region.go, with the votes of `ProbeRegion` as a function of the dials.
-- Scanner.Batch and Scanner.ScanPort: `scanPort` of scanner/rotate.go with what `RotateScan`
--   shares between its jobs. A round of the outer loop is `scan_round`, its inner loops are `fill`
--   and `top_up`, the dials of a batch are `vote_of` and `mark_dial`, the count is `count_votes`.
-- Cli: package `cli`. `Cli.Config` is cli/config.go. `Cli.Output` has the writers of cli/output.go, `Cli.Flags` `parseFlatArgs` of
--   cli/flat.go, `Cli.Flat` `RunFlatMode` as `run_flat_mode` with its runners.
-- Gui: package `gui` apart from its widgets. `Gui.Hosts` has `pushFindings` of gui/app.go as
--   `push_findings`, and `Gui.Session` gui/scansession.go.
-- Nmap: what packages `cli` and `gui` read from nmap's lines, and its command lines.
--
-- Conventions. A string is the list of its bytes; white space and letter case are those of ASCII. An
-- `int` has 64 bits. Times are nanoseconds and arguments of the calls. What other goroutines do
-- between two accesses of a job to the shared state is an arbitrary function, the field `others` of
-- `Env`, and so are the results of dials, the clock and the state of the context; the theorems hold
-- for all of them. The outer loop of `scanPort` is given as many rounds as the pool has proxies:
-- each round that goes on takes at least one of them, and without one left the loop's condition
-- fails, so the rounds are never short. The loop of `CleanBanner` has the length of its text as
-- bound, since each round but the last shortens it, and the binary search has the size of its table,
-- since each round drops a place; the theorems on both use that these are enough.
--
-- The loop over the addresses of a network makes as many rounds as `expand_target` is told, and has
-- no result if they do not do; more than 2^31 are enough for every network whose loop ends.
--
-- A connection is what its peer sends, in segments, with the error that follows the last one and the
-- results of the writes; a passed deadline is such an error. A read gets at most one segment, and a
-- write that fails may have sent a front of its bytes.
--
-- Not modelled: the network itself, the widgets of the graphical interface with the goroutines that
-- they start, the sub-commands of cli/cli.go that only read flags and print, the manual page, the
-- encoders of the Go library for json and xml, TLS, the SOCKS5 dialer of a library, IPv6 networks,
-- and the lines that a scan logs: they are calls of libraries, without a state of the program's own.
pub mod Base
pub mod Text
pub mod Proxy
pub mod Pool
pub mod Scanner
pub mod Net
pub mod Relay
pub mod Geo
pub mod Cli
pub mod Nmap
pub mod Gui
