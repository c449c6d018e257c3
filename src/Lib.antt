-- ===== src/Lib.antt =====
-- Verification library of upbit-api-poll, a service that watches the announcements of an exchange: a
-- poller asks a page or an API through many proxies, a fetcher turns the responses into a stream of
-- new titles, and a broadcast channel carries values to many followers.
--
-- How the parts interact: the poller (upbit-api-poll/pkg/httptools/proxy_rotating_poller.go) asks the
-- work schedule (upbit-api-poll/internal/entity/work_schedule.go) whether to work and how long to
-- sleep, and puts the responses of its workers on a channel. A fetcher (upbit-api-poll/internal/core)
-- reads them there, keeps the last title that it has seen and the next identifier to ask for, sends
-- new titles to its own channel, and gives the poller the next URL. The program's main passes the
-- titles on to the news monitor, which opens an order for a listing.
--
-- Files:
--   Prelude       Boolean tests, lists and integers over the native numbers, byte strings and searches,
--                 and Go's functions on texts that the code calls: Split, Join, TrimSpace, Fields, Itoa, Atoi
--   Broadcast     upbit-api-poll/pkg/channel/broadcast.go: `new_broadcast`, `follow`, `follow_with` (the
--                 method follow), `follow_with_memory`, `unfollow`, `send`, `close`, `len`. Channel
--                 has Go's channels as a heap, Invariant the calls as one type and their sequences
--   Entity        upbit-api-poll/internal/entity/upbit.go and upbit-api-poll/pkg/httptools/response.go:
--                 the records; Latest is the sort by identifier and the last element; Codec is
--                 upbit-api-poll/internal/entity/upbit_easyjson.go, RetryAfter the method RequestAfter
--   Json          what the code that easyjson generates is written over: `read_object`, `read_items` and the
--                 setters of the cases in Decode, `steps` and `write_slice` in Encode. Fields says what a
--                 decoder makes of a JSON value, Reads and Writes that the decoders and encoders do it
--   Notice        upbit-api-poll/internal/core/notice_by_id_fetcher.go: `parse_notice_page`,
--                 `too_many_requests` (the branch for a 429), `update_and_notify`, `handle` (one response)
--                 and `populate` (populateWithNewNews); Init is initLatestNewsTitleAndNextNewsID
--   Announcement  the fetchers of upbit-api-poll/internal/core for announcements: ById and Start are
--                 announcement_by_id_fetcher.go, Latest is announcements_fetcher.go
--   Fetchers      the constructors of the three fetchers: `new_announcement_by_id_fetcher`,
--                 `new_notice_by_id_fetcher`, `new_announcements_fetcher`, and `init_poller`; FromJson has
--                 the generated decoders as they use them
--   Schedule      upbit-api-poll/internal/entity/work_schedule.go: `set_daily_schedule`, `work_now`,
--                 `next_work_session` and the methods that they use; Clock is the layout 15:04
--   Poller        upbit-api-poll/pkg/httptools/proxy_rotating_poller.go: `turn` is one turn of the loop of
--                 populateWithResponses, `do_polling` the goroutine, `pace` the pause and the debt; Deliver
--                 has `fetch_response`, Workers the goroutines of the workers, whose accesses to the counter
--                 of failures and to the channel interleave in any order; Urls has `SetURL` and the
--                 requests with the lock that they share
--   Queue         upbit-api-poll/pkg/httptools/clients_queue.go: `new_groups` (the constructor), `acquire`
--                 and `release`; Groups and its child have the grouping by location, Rest the queue
--   Builder       upbit-api-poll/pkg/httptools/proxy_rotating_poller_builder.go: `build`, the setters, and
--                 `use_client` (UseFastHTTP and UseHTTP2); Built says what a poller is built from
--   Monitor       upbit-api-poll/main.go: `forward` is the goroutine of streamNews;
--                 upbit-api-poll/internal/core/news_monitor.go: `start_monitoring`,
--                 which lists the orders as they are started, each in a goroutine of its own;
--                 upbit-api-poll/internal/tickers/parser.go: `extract_korean_tickers`, and in Market
--                 `extract_tickers`
--   Client        upbit-api-poll/pkg/httptools/client_fasthttp.go: `request` with its loop `try_from`,
--                 `decode_response_body`, `status_class`, `convert_headers`; Dial is FasthttpHTTPDialer with
--                 `dial`; Http2 is the request of client_http2.go with the switches of its own,
--                 `decode_http2_body` and `http2_status_class`, and Create has the constructors of both
--   Gate          upbit-api-poll/pkg/gate/gate.go: `open_futures_order`; Remote is the call of
--                 upbit-api-poll/pkg/gate/grpc/gate_client.go
--   Sucker        upbit-api-poll/internal/core/websocket_sucker.go: `read` and `connect_till_established`;
--                 Locks has the goroutines of StreamNews, read and ping as moves on a state; Codec is
--                 upbit-api-poll/internal/entity/sucker_payload_easyjson.go
--   Metrics       upbit-api-poll/internal/service/metrics.go: `get_or_create`, `tell` and the updates
--   Message       upbit-api-poll/internal/di/container.go: the chunks of SendMessage
--   Container     upbit-api-poll/pkg/container: the map and the sharded map, with `shard_index`;
--                 keys have an equality of their own, under which a key is equal to itself, and a hash that
--                 is a parameter; Hash is the method getHash, whose hash of a float is not one that equal
--                 keys share
--   Settings      upbit-api-poll/internal/config: `create_env_mappings` over the struct types, which are
--                 in Structs, the level of the logger, and in Parsing `must_parse_config`
--   Proxy         upbit-api-poll/pkg/httptools/proxy.go and the tools of upbit-api-poll/cmd on lists of
--                 proxies: `clear_duplicates` and `reformat`
--   Rate          upbit-api-poll/pkg/rps_runner.go: `make_request`; upbit-api-poll/cmd/test-rps/main.go:
--                 `round`
--
-- State and errors: a mutable object is a record that its operations take and return; a mutex makes a
-- call one step; a send that would wait and a panic are outcomes. Loops that wait for events are folds
-- over the events so far. The search for a work session is bounded by seven rounds, as in the source,
-- and the clients queue fills in at most two rounds for each client. The attempts to connect of the
-- websocket client are the fuel of their loop, and one more than the number of an attempt that
-- succeeds is enough; the decoders of JSON have fuel, and more than the number of its values and
-- members is enough; no other recursion needs fuel. Integers stand for Go's int and for durations in
-- nanoseconds, which are taken not to overflow except in the method RequestAfter; bytes are numbers,
-- and texts are lists of them in UTF-8.
--
-- Of the order of goroutines: where it matters it is in the model (the moves of Sucker.Locks, the
-- order of the values in Broadcast, the moves of Poller.Workers and Poller.Urls).
--
-- Parameters: the lexer and the writer of easyjson, and the JSON of a time; the format of a URL and
-- its parser, the time zone database (`Schedule.Zone`), the location of an address, the order of a
-- range over a map, the hash of a key, the answers of the transport, of the exchange, of the network
-- and of a websocket, the decompressors, the registry of Prometheus, the test for valid UTF-8, the canonical name of a header, the uses of floats (the polling
-- interval, a longer delay, a number of contracts, a rate), and all that is read from outside: the
-- time, the context, the outcomes of requests.
--
-- Not modelled: texts of logs and messages (their number is), what viper and the validator do, the
-- construction of third-party clients, the file and network I/O around the functions above, and what
-- protoc generates, which calls its runtime.
pub mod Prelude
pub mod Announcement
pub mod Broadcast
pub mod Builder
pub mod Client
pub mod Container
pub mod Entity
pub mod Fetchers
pub mod Gate
pub mod Json
pub mod Message
pub mod Metrics
pub mod Monitor
pub mod Notice
pub mod Poller
pub mod Proxy
pub mod Queue
pub mod Rate
pub mod Schedule
pub mod Settings
pub mod Sucker
