-- ===== src/Lib.antt =====
-- Vigil Collector: an agent that samples a host's metrics, serves them over HTTP and WebSocket, and
-- pushes them to a hub. These modules model the parts of it that decide something.
--
-- The parts and how they interact. The sampler (src/sampler.rs) refreshes sysinfo once in an interval,
-- calls the collectors (src/metrics/), stores the snapshot (src/snapshot.rs) in a shared cell, and stores
-- the JSON of its three projections in three others. The server (src/server/) hands these bytes out; a
-- WebSocket needs a one-time token of the worker registry. The hub client (src/hub/) reads the snapshot
-- cell, flattens it, and sends frames to a hub, with a supervisor that connects again.
--
-- The files, with what they model:
--   Snapshot          src/snapshot.rs: the records, `http_view`, `ws_view`, `network_view`, `serialize_temp`.
--   Metrics           src/metrics/mod.rs: `round1`, `round2`, `bytes_to_gib`; Metrics/Rate the rates.
--   Metrics/Process   src/metrics/process.rs: Groups (the aggregation by name), Pss (`read_pss_kb`,
--                     `detect_pss`, `group_pss_mb`), Collect (`collect_top`, `collect_top_cpu`).
--   Metrics/Disk      src/metrics/disk.rs: Usage (`statvfs_usage`, `usage_for_mount`), Partitions
--                     (`collect_root`, `collect_all`), Counters (`read_diskstats`, `collect_io`).
--   Metrics/Net       src/metrics/net.rs: `collect_throughput`, `statistics`, `read_proc_net_drops`.
--   Metrics/Memory    src/metrics/mem.rs; Metrics/Processor src/metrics/cpu.rs; Metrics/Platform
--                     src/metrics/platform.rs.
--   Config            src/config.rs: `read_settings`, `migrate_legacy`, over a home directory.
--   Main              src/main.rs and src/cli.rs: the options, `resolve_addr`, the start up to `serve` of
--                     src/server/mod.rs; Main/Lifecycle `main` with the tasks that it starts and stops;
--                     Main/Signals `wait_for_signal`.
--   Log               src/log.rs: the file, the directive and the filter of `init`.
--   Server/Router     src/server/mod.rs: the table of `router` and the handlers behind it; Serving is the
--                     server at work, request by request, over the events of Server/Ws.
--   Server/Probes     src/server/probes.rs; Server/Http src/server/http.rs.
--   Server/Worker     src/server/worker.rs: `issue`, `claim`, and the task that `issue` spawns (`expire`),
--                     as events of a run.
--   Server/Ws         src/server/ws.rs: `connect`, the two ends of `run_session`, `push_loop`; a run of the
--                     server is a list of events in any order.
--   Sampler           src/sampler.rs: State (`refresh`), Cache (`CachedJson`), Loop (`start`, `stop`), Stores
--                     (the single stores of `publish`, with readers between them).
--   Hub/Flatten       src/hub/flatten.rs; Hub/Protocol src/hub/protocol.rs.
--   Hub/Client        src/hub/client.rs: Clip, Session (the first frame and `push_loop`), Connection
--                     (`HubClient`, `connect_and_push`), Supervise, Os (`detect_os`).
--   Target            the system compiled for, where `cfg` makes a difference that is modelled.
--   Prelude, Text, Float, Sort, BTree   what the source uses of Rust's library: strings as lists of code
--                     points, an interface of f64, a stable sort, the map of flatten.
--
-- How the state corresponds. A function on `&mut self` takes the state and gives the new one with its
-- result. Numbers of 64 bits keep their wrap-around, and saturating operations their ceiling. f64 is a
-- parameter, the record Float; its laws are named hypotheses (IsOrdered, IsCast, IsTimed), which hold for
-- the thousandths of Float/Millis. sysinfo, /proc, the clock, serde, the hub and the sockets are
-- parameters: a loop that waits for them takes the list of their answers, one for each turn, so each loop
-- is recursion on that list and no fuel is needed. A panic is a value of its own.
--
-- Not modelled: the web client (static assets), the choice of a route by axum, of which the documented
-- rule is a hypothesis, and the crates themselves: serde's texts, tracing, sysinfo, tungstenite. Of the
-- disk, process and platform collectors the branches for Linux are modelled, of the temperature, the load
-- and `detect_os` those of every system.
pub mod Prelude
pub mod Text
pub mod Target
pub mod Float
pub mod Sort
pub mod Snapshot
pub mod Metrics
pub mod Server
pub mod BTree
pub mod Hub
pub mod Sampler
pub mod Config
pub mod Main
pub mod Log
