-- ===== src/Lib.antt =====
-- A model of the UDP to RabbitMQ gateway.
--
-- Devices send datagrams to the gateway (components/udp-gateway). A session parses and validates
-- each one, asks whether it is new and within the device's rate, and hands it to the gateway, which
-- publishes it to a queue of the device. The deduplication service
-- (components/redis_deduplication) finds out whether a message is new by a key in Redis, behind a
-- local cache and a pool of connections. Of the RabbitMQ client
-- (components/rabbitmq_integration), a publisher keeps messages in a queue of its own while it
-- is not connected, and only simulates sending where it is; a local queue is a class by itself.
-- components/protocol_parser reads packets, and has a binary form for messages.
--
--   Base                  names shared by all modules: tests, lists, maps, integers, counters.
--
-- Of components/redis_deduplication:
--   Dedup.MessageId       include/redis_deduplication/types.hpp, MessageId and its keys.
--   Dedup.Cache           src/local_cache.cpp: contains, insert, remove, cleanup, eviction. Nodes is
--                         the list and its iterators, Sweep the removal of expired entries,
--                         Invariant and Safety are about the agreement of list and map, Reads and
--                         Writes about what the cache remembers.
--   Dedup.Redis           src/redis_client.cpp: connect, ping, authenticate, setNX;
--                         Commands is batchSetNX, deletion, raw commands, moves.
--   Dedup.Pool            src/connection_pool.cpp; Leases is all interleavings of its critical
--                         sections, Failover the change between master and standby.
--   Dedup.Deduplicator    src/deduplicator.cpp: isDuplicate, initialize, shutdown;
--                         Batch is areDuplicates, Upkeep the maintenance and all
--                         sequences of calls.
-- Of components/udp-gateway:
--   Gateway.Limiter       src/rate_limiter.cpp: the token buckets; Statistics is
--                         getDeviceStatistics and tryAcquire.
--   Gateway.Types, Run    include/udp_gateway/types.hpp, and the calls that a packet makes.
--   Gateway.Handler       src/gateway.cpp: handleMessage, handleError, createQueueName.
--   Gateway.Session       src/session.cpp: handlePacket down to sendCommands. Triple is a logic of
--                         conditions before and after, Guards and Order the order of the calls.
--   Gateway.Lifecycle     src/gateway.cpp: start, stop, updateMetrics.
-- Of components/rabbitmq_integration:
--   Rabbit.Numbers        the standard library's stoi and stoll.
--   Rabbit.Message        src/message.cpp: a message with its properties and headers. Split is
--                         splitMessage and combineMessages, Parts and Join are about the two;
--                         Headers is the setters and the headers of other types than text.
--   Rabbit.Connection     src/connection.cpp: opening and closing.
--   Rabbit.Publisher      src/publisher.cpp: publish, updateStats, processLocalQueue. Control is
--                         batches, transactions, the state of the connection, the thread's tasks and
--                         the factory. Drain is about sending the local queue, Fate and Batches about
--                         what becomes of a message and of a batch, Valid and Steps about the
--                         queue's invariant, and Reconnect about a connection that is made.
--   Rabbit.Consumer       src/consumer.cpp: startConsuming, stopConsuming and the steps of the threads.
--                         Statistics is the acknowledgments and the counters, Threads all interleavings
--                         of client and threads, Groups MultiQueueConsumer and ConsumerPool.
--   Rabbit.LocalQueue     src/local_queue.cpp.
-- Of components/protocol_parser:
--   Parser.Checksum       src/parser.cpp: verifyChecksum. Xor is about exclusive or, Detect about what
--                         the checksum finds out.
--   Parser.Packet         the rest of src/parser.cpp. Reads is about the bounds of the reads, Digits
--                         about the header's device identifier.
--   Parser.Codec          src/message.cpp: toBinary, and in Decode fromBinary. Total is about the
--                         bounds of its reads, RoundTrip about the two together.
--   Parser.Builder        src/builder.cpp; Received is about what comes of a command.
--
-- Operations are functions from states to states and have the names of the functions in the
-- source. Where the source has undefined behaviour (a dangling iterator) or throws, the result is
-- optional; the overflow of a time point or of a time to live, which are numbers here, is left out.
-- What other components, the network and the clock answer are arguments. Fuel is given to
-- `digits`, one more than the number, which has fewer digits; to `split_from`, the number of bytes, of
-- which every turn takes one at least; and to `drain`, the length of the queue, which every turn makes
-- shorter. Counters of 64 and of 32 bits wrap, except the pool's `totalConnections_` and
-- `activeConnections_`, which are integers without bounds here. Tokens are exact integers in units of
-- 1e-12; the rounding of `double` is left out. An unordered map is the list of its entries.
--
-- Not modelled: the validator of protocol_parser; channels, metrics and the JSON of the RabbitMQ client;
-- the loops of threads, logs, sockets, and the programs and tests.
pub mod Base
pub mod Dedup
pub mod Gateway
pub mod Parser
pub mod Rabbit
