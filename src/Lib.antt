-- ===== src/Lib.antt =====
-- redis_exporter: a Prometheus exporter for Redis. A scrape connects to a Redis server, runs INFO,
-- CONFIG GET, CLIENT LIST, SCAN and other commands, and sends what it reads as metrics. This library
-- models the code between the replies of the server and the metrics, and states when it is right.
--
-- How the parts interact. Every collector gets a connection and a channel. It parses replies into
-- names, values and labels, and sends metrics through the functions of exporter/metrics.go, which
-- look up the description of a metric in a table that NewRedisExporter fills and collectors extend.
-- A metric with labels whose description is missing is a panic, and so is an index out of range in
-- a parser: a method here is a function from a state to an optional result and state, and `none` is
-- such a panic (Run; Run.Safe has the rules for methods that do not panic).
--
-- The files, and the code that they model:
-- Base, Text: lists, integers, byte strings and maps; strings.Split, SplitN, Join and TrimSpace,
--   strconv.ParseInt, ParseUint and Itoa, url.QueryUnescape, the widths of characters in UTF-8.
-- Deps: float64 and ParseFloat, and the check of NewConstMetric, as a record of operations with
--   their documented laws; an instance shows that they can hold.
-- Metrics: exporter/metrics.go. The channel holds the table of descriptions and the metrics sent.
--   Metrics.Safe: the invariant of the channel (IsSound) and that the functions keep it. Names:
--   sanitised names, character by character.
-- Options, Tables: exporter/exporter.go: the configuration, and the tables of gauges, counters and
--   descriptions of NewRedisExporter.
-- Info: exporter/info.go. Fields are the regular expressions, Parse the parsers, Handlers the
--   handlers of the sections, Extract the scan of the lines (extractInfoMetrics) and of CLUSTER INFO.
-- Sentinels: exporter/sentinels.go, the Sentinel section and the counts of sentinels and replicas.
-- SentinelClient: extractSentinelMetrics and extractSentinelConfig of the same file.
-- Redis: the connection (github.com/gomodule/redigo) as a record of operations on an abstract state.
-- Keys: exporter/keys.go. Parse is parseKeyArg, Scan the loop over SCAN, Single and Pipelined the two
--   ways to collect the metrics of keys, Check extractCheckKeyMetrics and extractCountKeysMetrics.
-- KeyGroups: exporter/key_groups.go. Gather is the loop over the pages of the Lua script, Overflow the
--   groups beyond the limit, Collect the loop over the databases and the registration.
-- Config: extractConfigMetrics of exporter/exporter.go.
-- Clients: exporter/clients.go. Parse is parseClientListString, Register the metrics of a client.
-- Construct: NewRedisExporter of exporter/exporter.go, its defaults and checks.
-- Latency: exporter/latency.go. Usec is extractTotalUsecForCommand with its regular expression written
--   out, Collect the two replies of LATENCY.
-- Streams: exporter/streams.go. Info reads the replies of XINFO, Collect sends the metrics.
-- SearchIndexes: exporter/search_indexes.go.
-- Collectors: the small ones, a file each. Slowlog is exporter/slowlog.go, Tile38 tile38.go, Lua lua.go,
--   Modules modules.go, and Nodes the parser of CLUSTER NODES in nodes.go.
-- Tls: exporter/tls.go, the configurations of the client and of the server.
-- Connect: exporter/redis.go. Options is configureOptions and the lookup of passwords, Dial
--   connectToRedis and connectToRedisCluster. What redis.DialURL takes from the URL itself, its user
--   and password among it, is behind the parameter of the dialer.
-- Scrape: the composition, of exporter/exporter.go. Outside is the record of all that a scrape takes
--   from elsewhere, Host scrapeRedisHost, Registry Collect and Describe; Answers says what replies of
--   the documented form are.
-- Http: exporter/http.go and pwd_file.go. Auth is the basic authentication, Handlers the handlers, Mux
--   the paths that NewRedisExporter registers.
-- Startup: main.go: the environment, the log level and the checks; Flags the flags, their defaults and
--   the options made of them; Main the way from the flags to the server.
-- Examples: concrete servers and inputs, and the theorems applied to them.
--
-- Bounds and fuel. A string is a list of bytes. An int64 that may wrap around is its bit pattern below
-- 2 ^ 64 (KeyGroups.Word); counters that cannot reach the bound are natural numbers or integers. The
-- loops over SCAN and over the pages of the script follow cursors that the server chooses, and need
-- not end: they run on fuel, and as many rounds as the server has pages are enough. The other loops
-- are structural. A Go map is an association list; where Go iterates over a map, the list has one of
-- the orders that Go allows.
--
-- Not modelled: logging, the network, files and the clock themselves, signals and shutdown, the mutex,
-- and the closing of connections. What the code takes from elsewhere is a parameter: redigo and redisc
-- (the replies, redis.Scan and ScanStruct, and what dialling gives), net/url, the regular expressions
-- that the configuration gives, bcrypt, encoding/csv and encoding/json, crypto/tls, net/http's ServeMux,
-- and the Lua scripts, which run in Redis. A duration or a time is a parameter too. The text of a help
-- string, the namespace, and the collector of the build information are no part of a description.
pub mod Base
pub mod Text
pub mod Run
pub mod Deps
pub mod Metrics
pub mod Options
pub mod Tables
pub mod Sentinels
pub mod Info
pub mod Redis
pub mod Keys
pub mod KeyGroups
pub mod Config
pub mod Clients
pub mod Http
pub mod Startup
pub mod Construct
pub mod SentinelClient
pub mod Collectors
pub mod Streams
pub mod SearchIndexes
pub mod Latency
pub mod Tls
pub mod Connect
pub mod Scrape
pub mod Examples
