-- ===== src/Lib.antt =====
-- Fruitfly: a rule engine that takes events in over HTTP, evaluates Starlark rules against each and
-- writes the verdicts out. The stages are connected by channels; `main.go` starts them.
--
-- Types: types/types.go. Event, Verdict, RuleResult and Result as records. A Go string is the list
-- of its bytes, `any` is Json, a float64 is its IEEE 754 bit pattern, a time is unix seconds.
-- Starlark: the values of go.starlark.net that the Go code tells apart.
-- Ingest: ingest/server.go. `parse_event`, `handle_event` and `handle_batch` are parseEvent,
-- handleEvent and handleBatch (with batchLine as `batch_line`), over a `Pipe` that records what went
-- into the event channel and what was sent to peers. The record `World` stands for encoding/json,
-- time.Parse, the UUIDs, bytes.TrimSpace, the outcomes of the non-blocking sends and the order in
-- which Go visits a map. Ingest/Peers puts the cluster router behind the server's interface.
-- Cluster: cluster/router.go. NewRouter, Owner (with fnvSum and mix64 on 64-bit words) and Forward,
-- over the answer of the HTTP client.
-- Executor: executor/. Verdict is verdict.go; Counters is counters.go, with Cas for the
-- interleaving of compare-and-swap loops and Progress for their length; Env is env.go; Event is the
-- view of an event that rules read, event.go, with the caches it fills; Pool is processEvent and
-- evalRule of pool.go, over a `Runtime` that stands for the interpreter, the event's context, the
-- clock and the statistics.
-- Rules: rules/. Match is the evaluation and Match/Clause the lowering of match.go; Snapshot is the
-- index of compiler.go and Compile its CompileSource, compile cache and CompileDir, over `Tools`
-- for Starlark, SHA-256 and sort.Slice; Caching sets it beside a compilation without the cache.
-- Udfs is udfs.go, the builtins of rules over the interface EvalEnv. Reloader is reloader.go:
-- hashDir over a `Disk`, doReload, and Run as a step on the signals that its select receives. Stats
-- is stats.go, with a relation for the steps of the workers that share a rule's statistics.
-- Output: output/writer.go. Store is insertBatch, flush and runRetention over a `Database` that
-- says which calls of DuckDB succeed; Writer is observe and the loop of Run as a step on the
-- signals that its selects receive, so that every order of them is a list of signals;
-- Writer/Webhook is sendWebhook over the answers of the HTTP client, with its three attempts. Trace
-- is output/trace.go. Pipeline: main.go with Run of executor/pool.go, the channels, workers and the
-- writer as moves that interleave, from a handler's enqueue to the end of the shutdown; it runs
-- process_event of Executor and step of Output. Config: config/config.go. Replay:
-- cmd/replay/main.go.
-- Base: shared helpers; Tests: runs at concrete inputs.
--
-- Bounds: machine words keep their wrap-around (`% 2 ^ 32`, `% 2 ^ 64`); what is stated about counters
-- says for which times and counts these do not wrap. All recursion is structural except the digits of
-- an int64, whose fuel of 64 is the greatest number of digits an int64 can have, and the decimal
-- digits of a length, which recurse on accessibility.
--
-- Not modelled: the flags, logging, admin endpoints and the timeouts that cut a shutdown short in
-- main.go; createSchema's SQL; the deadline callback of processEvent, which runs beside it; the flags
-- and the printed text of cmd/replay; and the load-test tools of jetstream_test/, which are not part of
-- the system.
mod Base
pub mod Types
pub mod Starlark
pub mod Rules
pub mod Executor
pub mod Cluster
pub mod Ingest
pub mod Output
pub mod Pipeline
pub mod Config
pub mod Replay
pub mod Tests
