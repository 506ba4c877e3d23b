-- ===== src/Lib.antt =====
-- A model of PBTC, a passive collector of messages of the Bitcoin network, and what is proved of it.
--
-- The program's parts. A supervisor (supervisor/) builds the modules from a configuration and
-- connects them. A repository (repository/) keeps an index of the nodes that are known and finds
-- one to try. A manager (manager/) owns the connections to peers (peer/), which keep up the
-- protocol, tell a tracker (tracker/) what they have seen, ask the tracker before they request an
-- item, hand discovered addresses to the repository and every message, as a record, to the
-- processors (processor/): filters that pass records on, and writers. A convertor (convertor/) makes
-- the records (records/) of the messages, which the writers write as texts. Servers (server/) accept
-- connections for a manager, and loggers (logger/) give the modules their logs. The main function
-- (collector/) starts the supervisor and stops it on a signal. An importer
-- (importer/) is to read the written logs into a database. The manager and the tracker keep their
-- items in a sharded map (parmap/).
--
-- The files and the code that they model:
--   Prelude      nothing of its own: library names, Boolean tests, lists over the native numbers
--   Assoc        Go's map[string]V as an association list
--   Net          the parts of Go's net, bytes and time packages that the code uses
--   Util         util/util.go; Util/LocalIps and Util/Version hold the proofs
--   ParMap       parmap/parmap.go, parmap/shard.go; the finite map `view` in ParMap/Lookup is the
--                specification, ParMap/Valid the invariant, ParMap/Size counts,
--                and ParMap/Order takes the maps up to `view`, as a quotient
--   Repository   repository/repository.go, node.go, iprange.go: the state, New, save, restore,
--                bootstrap. Repository/Addresses is goAddresses, Repository/Retrieval goRetrieval;
--                Repository/Queues is goAddresses with the queues of those who call it, as a step
--                relation; Index, Growth, Attempts, Waiting, Backup and Ranges hold the
--                proofs
--   Tracker      tracker/tracker.go over ParMap; Tracker/Known refines it to what is known
--   Manager      manager/manager.go; Manager/Lifecycle is Start and Stop with the goroutines,
--                Manager/Peers, Stops and Drain hold the proofs
--   Peer         peer/peer.go: the state and the options. Peer/Connection is New, parse, connect,
--                startup and shutdown, Peer/Protocol is processMessage and the push methods,
--                Peer/Calls the actions of a peer as sequences, Peer/Loops is goSend with its queue,
--                Peer/Receiving goReceive and goProcess; Handshake, Lifetime, Rules and Sending hold
--                the proofs
--   Processor    processor/processor_default.go, processor_dummy.go, filter_address.go,
--                filter_command.go, filter_ip.go and HasAddress of records/record_transaction.go;
--                Processor/Types and Processor/Filters hold the proofs,
--                Processor/Routes follows a record through a graph of them.
--                Processor/Pipeline is their goroutines with the queues, as a step relation; its
--                Balance, Flow, Progress, Deadlock, Sums and Bounded hold the proofs
--   Processor/FileWriter  processor/writer_file.go; its Rotation and Sizes hold the proofs
--   Processor/Sinks  processor/writer_redis.go and writer_zeromq.go
--   Text         the parts of Go's bytes, strconv, encoding/hex and encoding/base64 packages that the
--                texts of the records use; Text/Fields, Numbers and Codes read them back
--   Records      records/: Items, Simple, Lists and Full hold the records with their constructors and
--                texts, Kinds the record of a message by its type. Fields gives the text as fields
--                with delimiters; Rendered, Readable, Plain, ReadBack, Kept, Published and Forged hold
--                the proofs
--   Convertor    convertor/convertor.go; Convertor/Filtered follows a message into the address filter
--   Logger       logger/logger_gologging.go, logger_default.go; Logger/Backends holds the proofs
--   Server       server/server.go
--   Importer     importer/importer.go; Importer/Progress holds the proofs on one file, and
--                Importer/Defaults those on main over the files that a file writer names
--   Supervisor   supervisor/config.go and supervisor/supervisor.go: the init functions of the
--                repository and of the filters. Init holds the other init functions, Modules and Build
--                are New, Running is Start and Stop. Settings, Entries, Links, Wiring, Serving, Tickers,
--                Starting, Panics, Writers, Typed and Delivery hold the proofs
--   Collector    collector/pbtc.go, the main function with its signals; Collector/Signals, Facts, Trace and
--                Shutdown hold the proofs
--   Tests        concrete runs of the theorems
--
-- How the state and the operations correspond. A struct is a record with the fields that the code
-- reads, less its channels, tickers and wait groups. A goroutine that selects on channels is a
-- function `step` on what it receives and a function `run` on the sequence of what it receives, so
-- an interleaving of the senders is an order of that sequence; where goroutines wait for each other, as
-- goSend for its own queue, the filters for the queues behind them and the callers of a repository for
-- goAddresses, they are a step relation. Calls of other modules are values in
-- a list, in the order in which they are made. `none` is an error that is returned, or, where the
-- comment says so, a run-time panic. One operation is one step: an access to a shard is under its
-- lock, and a message of a peer is processed without another goroutine of the peer in between.
-- The order in which Go ranges over a map is left open where it matters: the search of goRetrieval
-- takes the nodes in any order.
--
-- Parameters. The text of an address (`addr_string`), the texts of peers and hashes (`Stringer`),
-- the constants and NewNetAddress of the wire package (`Wire`), what the tracker knows when a
-- message is processed (`Knows`), the lookups of names, the success of file operations and the
-- compressor of a file writer are arguments, as are the texts of times and addresses (`Texts`), the
-- script classes and what is extracted of a script (`Script`), the formats of go-logging (`Formats`),
-- what a server gets of the net package (`Net` of Server), and what the modules ask of their
-- surroundings when they are built (`Env`), and what the importer gets of the bufio and path packages
-- (`Lines`). A hash is a list of bytes, and a theorem that needs them
-- to be below 256 says so. Nothing is assumed of the parameters but what a theorem says.
--
-- Numbers. A uint32 counter that is raised wraps at 2 ^ 32, and so do the length that is compared
-- with the node limit and the hash of a key. Times are nanoseconds from the zero time, as natural
-- numbers. The numbers of a configuration that Go holds in an int or an int64 are signed, and so are the
-- durations that are made of them: `seconds` of Net is a product with time.Second, which wraps at
-- 2 ^ 64 as int64 does, so that a ticker may get an interval that is not positive, at which it panics.
-- An int is 64 bits wide. Every loop of the code runs over a list. Only `reached` of
-- Processor/Routes takes a bound, on the hops of a record; the rank of a graph without a cycle is
-- enough for it, and so it is for the steps that Processor/Pipeline/Bounded counts.
--
-- The digits of a number are taken with the number itself as fuel; reading them back shows that it is
-- enough.
--
-- Not modelled: what is logged, the sockets of a peer with their deadlines, the compressors
-- themselves and the database session of the importer, which are I/O or calls of other packages.
pub mod Prelude
pub mod Assoc
pub mod Net
pub mod Text
pub mod Util
pub mod ParMap
pub mod Repository
pub mod Tracker
pub mod Manager
pub mod Peer
pub mod Processor
pub mod Records
pub mod Convertor
pub mod Logger
pub mod Server
pub mod Importer
pub mod Supervisor
pub mod Collector
pub mod Tests
