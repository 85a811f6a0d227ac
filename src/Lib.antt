-- ===== src/Lib.antt =====
-- MiniStore, a small Redis-like key-value server: a model of its store engine, with proofs.
--
-- Parts and files
--   JsMap        the built-in `Map` and `Set` of JavaScript, as association lists in insertion order
--   Lru          store-engine/src/store/LRUTracker.ts: the doubly linked list on an explicit heap
--     Chain, Moves       that a chain of nodes lies on the heap, and what unlinking and pushing do
--     Order, Recency     the list as a list of keys, most recently used first, and every method on it
--   Expiry       store-engine/src/store/ExpiryManager.ts: deadlines, dense array, rotating cursor
--     Validity, Sweep    the mirror of map and array, and what a sweep finds
--   Store        store-engine/src/store/InMemoryStore.ts and Store.ts: state, gate and eviction
--     Strings, Lists, Hashes, Glob, Keyspace    one function per public operation
--     Calls              the interface `Store` as a data type of calls, and runs of calls
--     Invariant, Keeps, Preserved               the invariant and that each call keeps it
--     View, Writes, Observers                   what a client sees
--     Deadlines, Effects, Lifetimes             how SET, DEL, EXPIRE and PERSIST change it
--     Room, Growth       eviction, and the number of keys
--     Proper, ProperEntries, DistinctFields     that no field of a hash stands there twice
--     Stored, Pushes, Pops, SetFields, Fields   writing lists and hashes
--     Globs, Matching    KEYS and its patterns
--     Ranges             LRANGE
--     Refusals           operations on a value of another kind
--   Protocol     protocol/src: lines in, replies out
--     Tokens, Words      words of a line, toUpperCase; splitting and joining
--     Numbers, Decimal   parsePositiveInt and parseSignedInt; decimal notation and reading it back
--     Command, Parser    Command.ts and CommandParser.ts
--     Rendering, RoundTrip, Accepted    canonical lines, and what the parser does with them
--     Replies            replies.ts
--     ReplyParser, Chunks               ReplyParser.ts, and that chunks do not matter to it
--   PubSub       store-engine/src/server/PubSubManager.ts: channels and connections
--     Mirror, Leaving, Publishing       the two maps, unsubscribing and disconnecting, who gets a message
--   Handler      store-engine/src/server/CommandHandler.ts: from a line to a reply
--     Lines              what stands before a command: password, disabled commands, transactions
--     Executing, Soundness, Guards      what every line keeps, and when a line has no effect
--   TcpServer    store-engine/src/server/TcpServer.ts: from the bytes of a socket to lines
--     Scanning, Framing, Handled, Limits    which lines are handled, and the limit on the buffer
--   StatsServer  store-engine/src/server/StatsServer.ts: admission, the playground, the snapshot
--     RateLimit          how many commands of a playground connection are handled
--   Config       store-engine/src/config.ts: the settings
--     Ranges, Loading    one setting, and the configuration as a whole
--   JsObject     objects of JavaScript as dictionaries, with the order of Object.entries in Order
--   Persistence  store-engine/src/store/PersistenceManager.ts: snapshots
--     Reading, Dumping, Shapes    what a save reads and writes
--     Placing, Restoring, RoundTrip   what a restore puts back, and both together
--     Saving             saves with other events in between
--   AofWriter    store-engine/src/store/AofWriter.ts: the append-only file
--     Rewriting, Syncing writes during a rewrite, and the fsync policy
--   Startup      store-engine/src/index.ts and store-engine/src/store/ExpirySweeper.ts
--     Boot               the store with which the server starts
--   Client       cli/src/Client.ts and cli/src/index.ts: requests, arguments and what is printed
--     Queue              every request is answered in turn
--   Tests        the theorems at concrete inputs
--
-- How the model reads the source
--   A method is a function of the same name (set, expire, lrange, ...) that takes the state last and
--   returns the answer with the new state. Private helpers keep their names: remove_key is
--   #removeKey, expire_if_needed is #expireIfNeeded, reserve_slot_for is #reserveSlotFor,
--   make_room_for_new_key is #makeRoomForNewKey. Lists and maps that the source changes in place are
--   written back to the map of values under their key; nothing else refers to them. The listeners
--   onExpired and onEvicted append to a list of events. The clock is the field `now`; it stands
--   still within one call, as the code is synchronous, though the source may read it twice there.
--   Strings are lists of UTF-16 code units. Numbers are natural numbers; times stay far below 2^53,
--   where the source's doubles are exact. A capacity that is no natural number is outside the model.
--
-- Fuel
--   `Lru.walk` and `Keyspace.mru_loop` follow the linked list with as much fuel as the map of nodes
--   has entries, one for each node of the list.
--   `ReplyParser.pump` runs on the length of the buffer, and each turn takes two code units or more.
--   `Decimal.show` runs on the number itself, which is divided by ten in each step.
--   `TcpServer.drain` runs on the length of the buffer; each line takes its newline out of it.
--   `StatsServer.describe_loop` follows the linked list as `Keyspace.mru_loop` does.
--
-- Steps and parameters
--   An `async` method that other code may run in the middle of is cut at its `await`s: `begin_save` and
--   `end_save`, `begin_rewrite` and `resume`. The line handler of the servers, the decoding of bytes
--   that a Buffer does by itself, `Number` and `URL` are parameters. A dump is the object that JSON carries, which reads back as it was written.
--
-- Not modelled
--   Listening, accepting and closing of sockets, HTTP and web sockets, directories and temporary
--   files, when timers fire, logging, the terminal, the benchmark and the browser dashboard: calls
--   of the platform and of libraries, or a user interface.
mod Prelude
pub mod JsMap
pub mod JsObject
pub mod Expiry
pub mod Lru
pub mod Store
pub mod Protocol
pub mod PubSub
pub mod Handler
pub mod TcpServer
pub mod Config
pub mod StatsServer
pub mod Persistence
pub mod AofWriter
pub mod Client
pub mod Startup
pub mod Tests
