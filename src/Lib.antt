-- ===== src/Lib.antt =====
-- Sirikata: the stream transport, the content cache, the tasks and the events of libcore.
--
-- The program. libcore is the base library of a distributed virtual world. Its network part
-- (libcore/src/network) carries many streams over a few TCP connections: `TCPStream::send` frames
-- a chunk of bytes as a packet, `ASIOReadBuffer` finds the packets again in what one connection
-- receives and hands them to `MultiplexedSocket`. Its transfer part (libcore/src/transfer)
-- fetches files by content hash and keeps the pieces that it knows: a `Range` is a segment of a
-- file, a `SparseData` a sorted list of segments with their bytes, a `CacheMap` holds one of
-- these for each file and asks a `CachePolicy` what to erase, and a `MemoryCacheLayer` answers
-- questions from it or asks the next cache.
--
-- `MultiplexedSocket` chooses the connection of each packet, queues what is sent before the
-- connection is made, and closes a stream when each connection has brought its control packet. In
-- libcore/src/task a `DependentTask` counts the tasks that it waits for and has its event fired
-- when the last of them has finished. An `EventManager` tells the listeners that have subscribed of
-- the events that were fired, in three rounds.
--
-- An `EventTransferManager` ties the transfer part together: it looks the name of a file up through
-- `NameLookupManager`, subscribes the listener to the file's event, asks the first cache layer for
-- the range unless a download that covers it is under way, and fires the event with what came. The
-- last layer, `NetworkCacheLayer`, tries the services of the file, which the chain of
-- `ServiceLookup` objects gives, with the handlers of a `ProtocolRegistry`.
--
-- The files.
--   Base: lists and tests on them (Quantify), sums over the threads (Family), Boolean
--     tests, association lists and 64-bit signed numbers over the native ℕ.
--   Network/Uint30: `Stream::uint30` (libcore/src/network/Stream.cpp), `serialize` and
--     `unserialize`.
--   Network/Frame: the packets of `TCPStream::send` and of `constructControlPacket`.
--   Network/ReadBuffer: `ASIOReadBuffer`; `translate` is `translateBuffer`, `receive` the two
--     completion handlers. ReadBuffer/Translate, /Reassembly and /Bounds have the proofs.
--   Network/MultiplexedSocket: `MultiplexedSocket`, its state and what it sends; `emit` is
--     `sendBytesNow`. MultiplexedSocket/Close: what it does with a received chunk.
--     MultiplexedSocket/Sending, /Ids, /Closing and /Callbacks have the proofs.
--   Network/Link: both ends of a connection, the sending `MultiplexedSocket` and the reading
--     `ASIOReadBuffer` with the `MultiplexedSocket` behind it; Link/Delivery has the proof.
--   Network/SendQueue: the status word and the queue by which the threads that call
--     `ASIOSocketWrapper::rawSend` agree who sends, as a step relation over any number of actors.
--     SendQueue/Counts and /Delivery have the proofs.
--   Network/StreamStatus: the word by which the threads in `TCPStream::send` and `closeSendStatus` agree
--     (libcore/src/network/TCPStream.cpp), as steps; StreamStatus/Closed has the proofs.
--   Network/TcpStream: `TCPStream` over a `MultiplexedSocket`; `constructed` is the socket that
--     `TCPStream::connect` makes. TcpStream/Life has the proofs.
--   Network/Handshake: the counts of `ASIOConnectAndHandshake`, the connecting side; `finish_all` runs
--     the sockets in the order in which they are done. Handshake/Agreement has the proofs.
--   Network/WireSender: the sends of `ASIOSocketWrapper`: `send_to_wire` and `send_deque` are the two
--     `sendToWire`, `completed` the three completion handlers. WireSender/Progress,
--     /Completion, /Stream and /Drain have the proofs.
--   Network/StreamBuilder: the header of a connection (`copyHeader`) and `buildStream` of
--     libcore/src/network/ASIOStreamBuilder.cpp, which gathers the connections of one client;
--     StreamBuilder/Gather has the proofs.
--   Transfer/Range: `Range` (libcore/src/transfer/Range.hpp); `make` is the constructor, the
--     other names are the source's. Range/Order, /Coverage, /Search and /Insert have the proofs.
--   Transfer/Sparse: `DenseData` and `SparseData` (TransferData.hpp); Sparse/Space,
--     Sparse/Access, Sparse/Flatten and Sparse/Fingerprint have the proofs.
--   Transfer/Policy: `CachePolicy` as an interface, a record of operations and laws.
--     Transfer/LruPolicy: `LRUPolicy`, which fills it.
--   Transfer/CacheMap: `CacheMap` over any policy; CacheMap/Invariant and CacheMap/Alloc have the
--     proofs.
--   Transfer/MemoryCache: `MemoryCacheLayer`; MemoryCache/Contents, /Populate and /Reads have the
--     proofs. MemoryCache/Chain: several of these over a last layer (`CacheLayer`); Chain/Store,
--     /Answers and /Again have the proofs.
--   Transfer/Uri: `URIContext` and `URI` (libcore/src/transfer/URI.hpp); the `scan_` functions are the
--     parts of `parse`, and positions are 64-bit with `npos`. Uri/Search, /Stages, /RoundTrip and /Whole
--     have the proofs.
--     Uri/Order: the comparisons, by which maps are kept.
--   Transfer/FileId: `RemoteFileId` (URI.hpp). Util/Sha256: the hexadecimal form of a hash value
--     (libcore/src/util/Sha256.cpp).
--   Transfer/Services: `ServiceLookup`, `CachedServiceLookup`, `OptionManagerServiceLookup` as one chain,
--     and `ProtocolRegistry`; Services/Chain has the proofs.
--   Transfer/Names: `NameLookupManager` and `CachedNameLookupManager`; Names/Cached has the proofs.
--   Transfer/NetworkCache: `NetworkCacheLayer`, whose requests are numbered; NetworkCache/Once, /Rounds
--     and /Outcome have the proofs.
--   Transfer/Manager: the downloads of `EventTransferManager`; Manager/Steps has them as steps of several
--     threads, Manager/Serving, /Stale and /Pending the proofs. Manager/Uploads: its uploads, and
--     Uploads/Told the proof.
--   Util/ListenerProvider: `Provider` (libcore/src/util/ListenerProvider.hpp); ListenerProvider/Index,
--     /Removal and /Notify have the proofs.
--   Task/Dependency: `DependentTask` (libcore/src/task/DependencyTask.cpp); Dependency/Release
--     and Dependency/Counts have the proofs.
--   Task/Events: `EventManager` (libcore/src/task/EventManager.cpp): its data; Events/Lists:
--     subscription and removal; Events/Run: the run of its queue, `temporary_processEventQueue` and
--     what it calls.
--     Events/Places sees the lists as a function of the place, Events/Nodes has the nodes of one
--     list, Events/Tracked the invariant, Events/Valid, /Told, /Rounds, /Queue, /Unsubscribe
--     and /Requests the proofs.
--   Tests modules run the definitions on concrete values.
--
-- How the model is made. A byte is a natural number, a chunk a list of bytes. 64-bit arithmetic
-- keeps its `% 2 ^ 64`; the free space of a policy is a signed number without a bound, as its
-- values stay within the total. An iterator into a map is the id at which it stands, and an
-- operation on an id that is not there is a fault, `none`. A file id is the number of its SHA-256
-- value.
--
-- Fuel. `translate` takes one more than the bytes in the buffer, since each round uses at least
-- one byte. `evict` takes more fuel than the map has entries, since each round erases one.
-- `flatten` and `compute_fingerprint` take more than the last byte of the file, since each round
-- moves on. `serve` takes as many rounds as the request has services, since each round uses up one.
--
-- Parameters. What handlers answer to downloads, name lookups and uploads, and what the options
-- hold, are functions. What the last cache layer brings for a question is a function. SHA-256 is a
-- function of the bytes. `rand()`, the hash of a stream id and the comparison with `dropChance` are
-- functions; what a callback registers while it is told of a disconnection, and what callback a new
-- substream gets, are functions of the callback and of the id. The other callbacks of a stream,
-- that bytes have come or that the connection is made, are only noted: what they send, register or
-- close while they are called is not modelled. The functions that an event manager calls, listeners
-- and events, answer by all calls before, and fire and request what they want meanwhile; that they
-- request within bounds is the hypothesis `IsBounded`, which `EventManager::subscribe` sees to.
-- What a listener of a `Provider` does while it is told is a function. `tolower` and `isspace` are
-- functions too. The comparison of `cachable`, done in floating point, is a parameter; that a size
-- below the share is not above the total is the hypothesis `IsShare`.
--
-- Not modelled. Locks and threads, but for the send queue, the word of a stream, the downloads and
-- the network layer, whose steps come in any order: each other operation runs alone. Errors of a
-- socket, which the code only reports. Asserts: the code is taken as built without them, but for
-- the count in `DependentTask::finish`, whose failure is a fault. Logging and printing. Boost,
-- libcurl and the graphics engine. Floating-point geometry. The options, whose parsing is a
-- library's, and the disk cache layer, whose work is calls of the file system. Of two uploads of
-- one URI at a time, each is taken to hear of its own event.
pub mod Base
pub mod Network
pub mod Transfer
pub mod Task
pub mod Util
