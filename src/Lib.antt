-- ===== src/Lib.antt =====
-- abyss-backend, the Agent event store: a model of its core logic, with the theorems that make it
-- correct.
--
-- The store keeps the events that a collector observed, requests and responses of model calls, and
-- derives the structure of a session from them. At ingest, `RequestFacts::read` and
-- `ResponseFacts::read` read a few facts from each event's conversation. `SessionStructure::derive`
-- pairs the events of one session into exchanges, finds the base of each exchange (the exchange
-- whose output its context continues), assigns each its turn and cuts the exchanges into segments.
-- The answers of the stream and turn endpoints are read from that structure. Search is literal
-- substring matching that every storage backend shares: a backend narrows the texts by the trigrams
-- of a query, `Pattern::matches` verifies them, and hits are ranked, cut into fragments, or named
-- with their ranges in the response of a search within one session.
--
-- On PostgreSQL, search is an Elasticsearch index that a worker keeps up to date. Ingest writes an
-- outbox row with each event, `claim_and_prepare` leases rows and makes bulk operations of them,
-- `apply_bulk` sends these, and `record_results` completes, reschedules or dead-letters each row.
-- The outbox is a step relation on the table and the clock, and the worker's loop a function on the
-- table. `hydrate` joins what Elasticsearch finds with the sessions of PostgreSQL.
--
-- Files, and the code that each is about (paths in crates/abyss-backend/src):
-- Streams/Events: the data (usage/conversation.rs, usage/streams.rs, usage/streams/facts.rs).
-- Streams/Conversation: usage/conversation.rs, and `conversation_entries` of usage/streams/facts.rs.
-- Streams/Facts: usage/streams/facts.rs.
-- Streams/Exchanges: `Exchange` and `group_exchanges` of usage/streams/base.rs.
-- Streams/Bases: the rest of usage/streams/base.rs.
-- Streams/Turns: usage/streams/turns.rs.
-- Streams/Segmentation: usage/streams/segmentation.rs.
-- Streams/Structure: `SessionStructure::derive` of usage/streams.rs.
-- Streams/Answers: the answers that usage/streams.rs reads from the structure.
-- Streams/Timeline: usage/streams/timeline.rs.
-- Search/Pattern: search/matching/fold.rs and search/matching/pattern.rs.
-- Search/Fragment: search/matching/fragment.rs.
-- Search/Pieces: search/matching/pieces.rs.
-- Search/InSession: search/matching/in_session.rs, with the data of search/mod.rs.
-- Search/Ranking: search/matching/ranking.rs, but for `into_response` and the set of all fragment
-- texts of a page.
-- Search/Text: what these use of `str`.
-- Search/Query: the validation of search/mod.rs.
-- Projection/Outbox: storage/postgres/search/outbox.rs. Its child Steps is the step relation.
-- Projection/Document: document.rs of that directory, and `SearchProjection` of its projection.rs.
-- Projection/Markers: the marker pair and `parse_fragment` of projection.rs.
-- Projection/Bulk: `apply_bulk` of elasticsearch.rs. Projection/Page: `SearchMatchPage` of it.
-- Projection/Worker: `apply_tasks` of worker.rs, and what prepares and queues tasks in outbox.rs.
-- Projection/Iteration: `process_iteration` and `run` of worker.rs.
-- Projection/Hydration: `SearchExecution` of storage/postgres/search/mod.rs.
-- Usage/Preview, Usage/Comparison, Usage/Attachments: usage/preview.rs, usage/comparison.rs and
-- usage/attachments.rs.
-- Usage/Ingest: `validate_batch` of usage/persistence.rs, and usage/diagnostics.rs.
-- Usage/Filters: the normalization in usage/persistence.rs. Usage/SessionList: usage/session_list.rs.
-- Usage/Locations: storage/event_locations.rs, and `summary_turns` of usage/mod.rs.
-- Usage/Segments: usage/segments.rs, with Usage/Events for the stored event of usage/event.rs.
-- Identity: identity.rs. Config: the readers and `SearchConfig` of config.rs.
-- Errors: error.rs.
-- Streams/Sample: a session for the tests, which are the modules named Tests.
-- Common: lists, maps, keyed lists, options, results, loops and sorting that these share.
-- A method of Rust is the function of the same name on the model's record, and each loop body and
-- closure is a function of its own. `Exchange::starts_turn` is `opens_turn`, its field `at` is
-- `at_time`, the method `SessionStructure::exchange` is `describe_exchange` and `segment` is
-- `describe_segment`.
--
-- How the code is read:
-- * `usize` is ℕ. `saturating_add` on an index or a count is `+`: a vector's length never reaches
--   `usize::MAX`. Conversions to `i32` and `i64` stop at the maximum, and that is written out.
-- * An instant counts the nanoseconds from the earliest `DateTime<Utc>`, a primary key is its 128
--   bits as a number. Only their order and equality are used, and the default instant, `epoch`.
-- * A hash map is an association list, a hash set the list of its members. Only `rank_sessions`
--   iterates over one, and it then sorts by the key. A sort is a stable insertion sort.
-- * In Streams a text is a native string. In Search it is the list of its characters' scalar
--   values, from which byte positions in UTF-8 are computed; a slice between positions that are no
--   boundaries is none, as `str::get` has it. `match_indices` is that of a nonempty pattern, as a
--   validated query is. The lowercase form of a character that is not ASCII is the parameter
--   `to_lowercase`, of which nothing is assumed.
-- * What `serde_json` reads of a conversation in `pieces` is a parameter: the entries, and a member
--   of an entry as a string.
-- * An index out of range, which would panic, gives a default.
-- * The SHA-256 of a text in lowercase hex is the parameter `digest` of Streams/Facts. What serde
--   decodes from a stored conversation is the list of entries that the facts are read from.
-- * `new_from` is stored as `i32` and never negative when ingest writes it, hence a ℕ.
-- * The depth-first loop of `started_first` runs on fuel, `enough_fuel`: one round for each
--   executor, and one for each child that it may push.
-- * A statement of the outbox is a function on the list of its rows that takes `now()`. Rows that
--   another transaction has locked are given by their ids. Ids come from one sequence, in order.
--   `latest` is the last instant of a `DateTime<Utc>`, past which a retry would be an error.
-- * In Projection/Iteration each round of the worker is given what the pool, the index check and the
--   bulk request answer, and the times of its statements. The calls run without a transaction, so what
--   was written before a statement that fails stays. The wait between two rounds and the shutdown are
--   where the list of rounds goes on and ends.
-- * The texts of errors that format numbers or JSON are parameters (`BulkMessages`, `invalid`).
-- * Where a text is searched for a marker, fuel counts the rounds: one more than the text has
--   characters, and each round leaves less of it.
-- * base64, hex and SHA-256 of attachments are the parameter record `Codec`, of which nothing is
--   assumed. In previews an entry is the string that serde_json reads at its `text`.
-- * Loading a session's structure is the parameter `load`, a function of the session, since the
--   caller reads one snapshot. The header of a request is given as axum reads it, and the digest and
--   the comparison of digests are the parameter record `Crypto`.
--
-- Not modelled: the repositories and the queries of the search indexes, which run in a database; the
-- HTTP client of Elasticsearch and its JSON; routing, start-up and `Config::from_env`; and the wire
-- format that serde derives.
pub mod Common
pub mod Config
pub mod Errors
pub mod Identity
pub mod Projection
pub mod Search
pub mod Streams
pub mod Usage
