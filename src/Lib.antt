-- ===== src/Lib.antt =====
-- CoinNews indexer: the codec of the CoinNews protocol, the store of the index and the scanner that
-- fills it from a node's blocks.
--
-- The parts and how they meet. The scanner (scanner/) walks the node's blocks, takes the payload out
-- of each OP_RETURN script, decodes it with the codec (codec/), checks the protocol's rules, and
-- writes rows to a store (store/). When the chain reorganises it deletes what is above a height and
-- walks again. The API (api/) reads the store.
--
-- Which file models which part:
--   Prelude, GoMap     names that all share; Go's maps as association lists
--   Codec.Types        codec/constants.go, the errors, and the messages of codec/message.go
--   Codec.Varint       codec/varint.go: putCompactSize, readCompactSize
--   Codec.Tlv          codec/tlv.go: EncodeTLVs, DecodeTLVs, FindFirst, FindAll
--   Codec.Hex          what the code uses of the standard library's encoding/hex
--   Codec.ItemId       codec/itemid.go: ComputeItemID, ItemIDFromRPC, ParseItemID
--   Codec.Sign         codec/sign.go; Codec.Crypto has SHA-256 and BIP-340 as parameters
--   Codec.Encode       codec/encode.go, one function for each encoder
--   Codec.Message      codec/message.go: DecodeMessage and the decoder of each type
--   Store.Types        the rows, queries and answers of store/store.go
--   Store.Ranking      rankScore, the sorts and page of store/store.go; Store.Sort is a stable sort
--   Store.Interface    the interface Store of store/store.go: what the scanner uses, and the
--                      reads for the API
--   Store.Memory       store/memory.go, the state and the writes; Reads and Thread have the reads,
--                      Backend and Queries make it a Store
--   Store.Sql          what SQL statements do to a table, a list of rows
--   Store.Sqlite       store/sqlite.go: each statement as a function on the tables, the engine and
--                      the transaction; Schema has store/schema.sql and the conversions of columns,
--                      Reads the feeds, Comments ByAuthor, Thread and Topics the reads of these
--                      names, Queries all reads with the engine, Atomic the specification, and
--                      Refines the proof against it
--   Rpc                the blocks of rpc/client.go; Client has its calls
--   Scanner            scanner/scanner.go: Run, resume, rewind, ProcessBlock, persist
--   Scanner.Script     scanner/script.go: OpReturnPayload, parsePush
--   Scanner.CatchUp    Run while the node stands still, also from a cursor that its chain has left
--   Scanner.Convert    the rows that scanner/scanner.go makes of messages
--   Scanner.Simulate   the scanner over two stores that answer alike; Keeps has what its writes keep
--   Scanner.Again      messages that are stored before, and blocks that are processed again
--   Scanner.Backends   the scanner over the SQLite backend, its specification and the in-memory one
--   Api.Request        the parameters of api/api.go; Api.Dto has the rows of api/dto.go
--   Api.Rest           the handlers and routes of api/api.go
--   Api.Connect        api/connect.go: the conversions; Handlers has the requests and the handlers
--   Api.OnDisk         the answers of both kinds of endpoints over the database that a run leaves
--   Main               the commands, and the loops of cmdRun and cmdIndex in main.go
--   Tests              the theorems at concrete inputs, and runs
--
-- State and errors. A call of the store or of the node is a function of the world that returns a
-- result and the world after it (`Io`); an error ends a `do` block as `return err` does, and what
-- was written before stays written. The in-memory backend is the record MemoryStore; its lock is not
-- modelled, so its methods are atomic. `int` and `int64` are integers without bound where the code
-- adds, subtracts or compares heights, times and counts; a `uint32`, a byte and an index are
-- natural numbers. The order in which Go's `range` meets the entries of a
-- map is open, so the reads whose answer depends on it, the feeds and ListTopics, take it as an
-- argument (`Ranges`); any other loop goes through the association list.
--
-- SQLite. A table is a list of rows in the order of insertion, and a SELECT without ORDER BY lists
-- them so. The engine that runs the statements is a parameter: from its own state it says whether the
-- next statement, a BEGIN or a COMMIT fails, and a statement that fails changes nothing. A violated
-- constraint of the schema is an error as well. Foreign keys are enforced in a database in a file and
-- not in one in memory, by the pragmas that OpenSQLite sets; a flag of the tables says which.
--
-- The API. A handler is a function from what net/http parsed of the request, and from the world, to a
-- status with the value that is encoded as JSON, and the world after it. Texts of errors are the
-- constructors of a type. Of the body of a Connect request the model has what the JSON decoder makes
-- of it: nothing, a failure, or the fields.
--
-- Fuel. DecodeTLVs runs on the length of its buffer: each round takes at least two bytes. The loop of
-- Thread runs one pass more than there are comments: every other pass adds one. The recursive query of
-- SQLite's Thread runs one round more than there are comments: each enters its queue at most once. The
-- loop of Run may go on for ever, since the chain may grow or reorganise at every call: it takes its fuel as an
-- argument, and running out is an error of its own. The loops of Main run for a number of
-- rounds that is given. itoa runs on 10 digits, the most of a uint32.
--
-- The client. encoding/json and net/http are a record of functions, which may fail; the errors that
-- `call` formats are a type of their own, made an error value by a parameter. A panic on a nil pointer
-- in ListTopics is an error.
--
-- Not modelled: flags, signals and serving in main.go, the embedded pages and logging; routing, JSON
-- and the Content-Type header, which are net/http's and encoding/json's. float64 with math.Pow, the
-- text of a time, SHA-256 and the Schnorr signatures are parameters.
pub mod Prelude
pub mod Codec
pub mod GoMap
pub mod Store
pub mod Rpc
pub mod Scanner
pub mod Api
pub mod Main
pub mod Tests
