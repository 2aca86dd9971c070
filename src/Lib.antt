-- ===== src/Lib.antt =====
-- Server status: agents on many machines report their hardware and metrics to a central server, which
-- validates each report, stores it in PostgreSQL and answers questions about the nodes. This library
-- models the parts of that program's Go code that decide something, and proves what makes them correct.
--
-- The files, by the code that they model:
--   Base           what all share: Boolean tests, lists, Go errors as values (Base/Check), strings as
--                  lists of code points (Base/Text), int64 (Base/Int), float64 (Base/Float), maps
--                  (Base/Dict), sorting by a key (Base/Sort), loops that look for repeated keys
--                  (Base/Distinct) and the lines of a checksums.txt (Base/Checksums).
--   Report         internal/report. Types and Inventory are the structs of types.go. Hardware,
--                  Measurements and Validate are validate.go: the function Validate is `validate`, with a
--                  record of conditions that it decides. Normalize is inventory.go. Bounds says what
--                  follows from acceptance. Sample is a report that is accepted.
--   Version        internal/version/version.go: Parse, Order and Normal.
--   Store          internal/store. Tokens is RegisterNode and AuthenticateToken of store.go. Table, Sync
--                  and Inventory are the sync functions of ingest.go, Network those of interfaces and
--                  their addresses, Active its active*IDs functions, on tables whose rows live until they
--                  are removed. Samples and Snapshots are the rows that a report leaves, Tables all the
--                  tables, Transaction the calls that may fail and their errors, Ingest the transaction
--                  of a report, with the states that reports lead to (Ingest/Reachable). Accepted joins them with Report: what Ingest looks up is there.
--                  History is the part of query.go on the history of a node, Preferences that on its
--                  primary interface and its tags, and Nodes what it tells of a node (Nodes/Read).
--   Server         internal/server. Api is the handlers of http.go: reports, nodes and their histories
--                  (Api/History), and what an administrator may do (Api/Admin, Api/Tags). Bearer is
--                  bearerToken. History is history_cache.go: the entries (Cache), the shared load (Get)
--                  and the response (Response). Releases is release_cache.go: the names and checksums
--                  of releases, the files with their downloads (Files), assetPath and serve (Cache),
--                  what is served (Steps, Verified, Paths, Served), and the agent's reading of the same
--                  checksums (Agreed).
--   Agent          internal/agent. Health is health.go: scanning for drives (Scan), a drive's health and
--                  its risk (Risk, Storage, Level), drives joining the inventory (Merge), sensors
--                  (Temperature). Collector is what collector.go computes from readings. Valid shows that
--                  the server accepts what the agent makes. Client is Send of client.go, and Updater is
--                  updater.go, with the server's side of an update (Updater/Applied). Run is the loop of
--                  run.go over what its select receives, and Config is ConfigFromEnv of config.go.
--   Windows        windows-agent. Config is config.go, Release is release_asset.go, and Inventory is the
--                  fingerprint of fingerprint.go over the inventory of model.go, beside the server's.
--
-- How the parts interact: the agent's report is decoded and validated by the handler of Server/Api, which
-- hands it to Ingest; the receipt may ask the agent to update, and Updater checks what it then downloads
-- from the release cache. The agent for Windows sends the same reports and gets smartctl from the cache.
--
-- How values are modelled: an unsigned integer is a natural number and a signed one a ℤ, in the range of
-- its type; where the code adds, the sum wraps around. A float64 is NaN, an infinity or a multiple of
-- 2^-1074, which every double is. A time is its nanoseconds since Go's zero time. Strings are valid UTF-8.
-- A pointer is an Option, a nil error is `none`, a (value, false) pair is `none`. A Go map is an
-- association list whose order is an order of iteration, which the theorems leave open. A struct that is
-- changed through a pointer is passed and returned.
--
-- Every loop is a recursion on its list, on the events that it receives, or on the three attempts of
-- Send, so no fuel is needed and every
-- function is total.
--
-- What the code calls and the repository does not hold is a parameter: net.ParseIP, net.ParseCIDR,
-- json.Marshal and sha256 (Report/Platform), net.ParseMAC and the equality of inet values (Store/Network),
-- gzip and the digest of a body (Server/History/Get), strconv.ParseFloat and the format of a header
-- (Server/History/Response), strings.ToLower on any letters (Server/Api/Tags), encoding/json on the bodies
-- of requests (Server/Api) and answers (Agent/Client), the digest and the random token of a registration
-- (Store/Tokens), the cast of a text to the type uuid (Store/Tokens, Store/Preferences), the identifiers
-- that PostgreSQL gives to rows (Store/Sync), downloads, files and running
-- a program (Agent/Updater), the upstream server and the steps of the file system (Server/Releases,
-- Windows/Release), url.Parse and the JSON of a configuration (Windows/Config), the environment and time.ParseDuration
-- (Agent/Config). Where a theorem needs that digests do not collide, it says so.
-- Singleflight is one load at a time for each key; the request that does not wait for it gets the error
-- of its context. The SQL statements are modelled by their effect on the rows that they select. In Ingest
-- a parameter says which calls fail, and a failure rolls the transaction back: the database may refuse
-- what the report's checks let through, as a number beyond the range of a column. Elsewhere the
-- statements of the model succeed.
--
-- Not modelled: the SELECT statements of query.go, the constraints of the schema and the rounding of its
-- numeric columns, two
-- requests to the release cache at once, and of the agent for Windows the rules of its health.go and
-- client.go, which repeat those of internal/agent; the reading of the system, the Excel export, logging,
-- start-up and the web pages, which are input and output.
pub mod Agent
pub mod Base
pub mod Report
pub mod Server
pub mod Store
pub mod Version
pub mod Windows
