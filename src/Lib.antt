-- ===== src/Lib.antt =====
-- ndt-server: the server of the Network Diagnostic Tool, which measures a client's download and upload
-- speed by the protocols ndt5 (ndt5/) and ndt7 (ndt7/).
--
-- The parts, and how they interact.  The main program (ndt-server.go) starts the servers and waits for
-- its context. A listener accepts TCP connections through netx/net.go, which keeps their file
-- descriptors reachable and counts the open ones. For ndt7, the handler (ndt7/handler/handler.go) checks
-- the request, upgrades it to a websocket, and runs a download (ndt7/download/) or an upload
-- (ndt7/upload/): in each a sender, fed by the measurer (ndt7/measurer/), and a receiver
-- (ndt7/receiver/) work on the same archival data, which is then saved (ndt7/results/). For ndt5, the
-- plain server (ndt5/plain/) tells HTTP clients, which it forwards to the websocket server
-- (ndt5/handler/), from plain ones; both logins lead to the control channel (ndt5/ndt5.go), whose tests
-- exchange messages over the control connection of ndt5/protocol/ and get their test connection from
-- a single-serving server (ndt5/singleserving/), while ndt5/web100/ polls the TCP state.
--
-- The files, and what they model.
--   Common: helpers, Go strings as lists of bytes, errors by their text, int64 values as integers with
--     their wrap-around, float64 as the interface `Float`.
--   Protocol.Kind, Conn, Tlv, Messager, Metrics, Transfer: ndt5/protocol/protocol.go and messager.go. `Conn` is the
--     control connection: `inbox` what arrives, by whole websocket messages or by the reads of a TCP
--     stream, `outbox` what was written, `write_faults` how the next writes end. `read_tlv_message` is
--     ReadTLVMessage, `write_tlv_message` WriteTLVMessage, `send_metrics` SendMetrics. Json is the
--     interface of encoding/json with the behaviour the code relies on.
--   Web100: ndt5/web100/web100_linux.go and the measurer of ndt5/protocol/protocol.go, with the polling
--     loop as a script of rounds.
--   Protocol.Identity: UUID, addresses, strings and StartMeasuring of the two connections of
--     ndt5/protocol/protocol.go, over the connections of netx.
--   Netx: netx/net.go, with the accepted connections in a list and the gauge CurrentOpenConns;
--     Kernel is ReadInfo over netx/iface/fdinfo.go, bbr/ and tcpinfox/.
--   Ndt7.Spec, Model: ndt7/spec/spec.go, ndt7/model/archivaldata.go and metadata/namevalue.go.
--   Ndt7.Loop: a loop over a script of turns, in which each turn goes on or returns.
--   Ndt7.Download, Upload, Receiver: ndt7/download/sender/sender.go, ndt7/upload/sender/sender.go and
--     ndt7/receiver/receiver.go; `step` is one round of the loop, `start` the function Start.
--   Ndt7.Subtest: `Do` of ndt7/download/download.go and ndt7/upload/upload.go, and Goroutines the step relation of
--     the sender and the receiver, for the senders of both; a context and its children are done at once.
--   Ndt7.Query, Requests, Handler: ndt7/handler/handler.go with data/result.go and ndt7/metrics/metrics.go; the
--     handler's effects on the rest of the server are a trace.
--   Ndt7.Labels: the metrics of ndt7/metrics/metrics.go with their labels, and the values with which the handler and
--     the subtests update them.
--   Ndt7.Results: ndt7/results/file.go, with file operations as a trace.
--   Ndt5.Events, Control: ndt5/ndt5.go, where `handle_control_channel` is HandleControlChannel as a trace of what
--     the rest of the server sees.
--   Ndt5.Labels: the metrics of ndt5/metrics/metrics.go and metrics/metrics.go with their labels, and the
--     values with which the control channel updates them.
--   Ndt5.C2s: ndt5/c2s/c2s.go, where `manage_test` is ManageTest over the control connection, and Draining the
--     step relation of the goroutines of drainForeverButMeasureFor.
--   Ndt5.S2c: ndt5/s2c/s2c.go, likewise.
--   Ndt5.Meta: ndt5/meta/meta.go, with its loop over the client's messages.
--   Ndt5.Suites, Panics, Saving: the tests that a client's bits ask for, panicMsgToErrType and SaveData, of
--     ndt5/ndt5.go.
--   Ndt5.Login: the logins of ndt5/plain/plain.go and ndt5/handler/wshandler.go, which are passed to the
--     control channel as its server's `login_ceremony`.
--   Ndt5.Plain: ndt5/plain/plain.go; `sniff_then_handle` is sniffThenHandle over what arrives, as a trace,
--     and Forwarding the step relation of the goroutines that forward a client.
--   Ndt5.Servers: the three servers and the single-serving servers that they make, of
--     ndt5/handler/wshandler.go, ndt5/plain/plain.go and ndt5/ndt/server.go.
--   Ndt5.Handler: ServeHTTP of ndt5/handler/wshandler.go.
--   Ndt5.SingleServing: ndt5/singleserving/server.go, with the websocket server as a step relation of its
--     goroutines, and the connection types of ndt5/ndt/server.go.
--   Ndt7.Measurer: ndt7/measurer/measurer.go, with the sampling goroutine, its consumer and Stop as a step
--     relation.
--   Ndt7.Ping, Listener: ndt7/ping/ping.go and ndt7/listener/listener.go.
--   Metrics: GetResultLabel of metrics/metrics.go.
--   Bbr, Tcp, Tcpinfox: bbr/bbr_linux.go and tcpinfox/tcpinfox_linux.go, from what the system calls give.
--   Program: ndt-server.go; `main` is the start and the end of main as a trace, LameDuck the goroutine that
--     catches SIGTERM as a step relation, Routes the HTTP servers with their routes and access control.
--
-- Bounds and fuel.  No function takes fuel except the printing of numbers (`itoa` of Common.Decimal, whose
-- fuel is the number and one). The loops run over scripts of what they meet, of any length; a script
-- that is used up leaves the loop running. The step relations have no bound: a state is reached by any
-- number of steps. A TLV length has two bytes, a byte is less than 256, the web100 counters are uint32
-- values and the times of pings int64 values. The meta test's loop counts down from 20, as the code
-- counts up.
--
-- Not modelled.  The websocket, HTTP, JSON, gzip and Prometheus libraries, the kernel's sockets and the
-- clock, which are inputs; the interleaving of goroutines elsewhere than in the single-serving servers,
-- the forwarding, the draining of an upload, the subtests of ndt7, the measurer and the lame-duck
-- goroutine, whose steps are accesses to what they share;
-- the counters of the single-serving servers in the trace of a control connection, where they are effects of these
-- servers; the end of the process while a request is handled, except before an ndt7 subtest and in it;
-- how an `http.ServeMux` chooses a handler, which is an interface with the documented law, and what an
-- access controller does with a request; the help texts and the buckets of the metrics; the ndt7 test
-- server, the schema generator and the stubs for other platforms.
pub mod Bbr
pub mod Common
pub mod Metrics
pub mod Ndt5
pub mod Ndt7
pub mod Netx
pub mod Program
pub mod Protocol
pub mod Tcp
pub mod Tcpinfox
pub mod Web100
