-- ===== src/Lib.antt =====
-- The monitoring tool's sniffer, c-http-sniffer/: a server accepts the description of an analysis,
-- captures the TCP packets of an interface, sorts them into protocols and flows, orders each flow's
-- segments, and reports metrics to the client in intervals.
--
-- How a packet travels, and the file that models each station:
--   Capture.antt    c-http-sniffer/src/main.c, `packet_preprocess`: a captured frame becomes a packet
--                   in the queue of the protocol that claims its ports. `isPacketOf` and
--                   `isHeaderPacket` come from src/protocols/protocol.cpp; the recognisers `isRequest`
--                   and `isResponse` of a protocol are fields of a record, since each protocol brings
--                   its own.
--   Packet.antt     c-http-sniffer/include/packet.h, src/packet.c: the packet record;
--                   Packet/Headers.antt: the parsers of the Ethernet, IP and TCP headers.
--   Queue.antt      c-http-sniffer/src/queue.cpp: the queues between the threads. Every operation
--                   holds the queue's mutex, so a run of any threads is a sequence of operations.
--   Order.antt      c-http-sniffer/include/order.h, src/order.c: the records of a flow's segments.
--   Tcp.antt        c-http-sniffer/src/tcp.c: `tcp_order` links a segment into its flow,
--                   `tcp_order_check` tests whether a flow has gaps.
--   Flow.antt       c-http-sniffer/src/flow.cpp: a flow's counters, chains and order, and what
--                   `Flow::add_packet` does to them. What it does to the hash table and the flow
--                   queue, which hold the flow as a whole, is the ending that it answers.
--   FlowTable.antt  c-http-sniffer/src/flowHashTable.cpp: the table of the open flows, in which a packet
--                   finds or opens its flow, with the flow queue; FlowTable/Scrubber.antt: the scrubber
--                   that closes flows by force.
--   Bucket.antt     the chain of a bucket, which both hash tables link and unlink alike.
--   Text.antt       c-http-sniffer/src/protocols/protocol.cpp: the ends of lines and headers, the fields
--                   of a header, and the tokens of a line.
--   Http.antt       c-http-sniffer/src/protocols/http.cpp: methods, first lines and recognisers;
--                   Http/Request.antt and Http/Response.antt: the messages as their constructors read
--                   them.
--   Memcached.antt  c-http-sniffer/src/protocols/memcached.cpp: commands, replies and recognisers;
--                   Memcached/Request.antt and Memcached/Response.antt: the messages.
--   Pairs.antt      c-http-sniffer/src/protocols/protocol.cpp, `extractData`, and src/flow.cpp,
--                   `add_pair`: the pairs of a flow's requests and responses.
--   Extract.antt    c-http-sniffer/src/protocols/protocol.cpp, `extractPair`, with src/flow.cpp,
--                   `compare_sequence_time`: the walk over a flow's records that makes the pairs.
--   Workers.antt    c-http-sniffer/src/main.c: the loops of the threads that drain the queues and of
--                   the thread that captures; the queues are those of Queue.antt.
--   HashTable.antt  c-http-sniffer/src/hashTable.cpp: the table in which metrics count the values that
--                   they have seen; the value's `hash` and `compare` are parameters.
--   Distribution.antt  c-http-sniffer/src/cf_list.c, src/metrics/metricCumDistr.cpp, client.cpp,
--                   reqPath.cpp and reqMethod.cpp: the metrics that report the commonest values, on
--                   top of HashTable.antt.
--   Averages.antt   c-http-sniffer/src/metrics/value.cpp, metricAvg.cpp, reqRate.cpp and connRate.cpp:
--                   the metrics that report a number.
--   Timer.antt      c-http-sniffer/src/timer.c: `processData` once a second, with the state of
--                   src/analysis.cpp.
--   Server/Varint.antt  c-http-sniffer/src/server.c: `decode_varint` and `encode_varint`, the length
--                   prefix of the messages to and from the client.
--   Server/Connection.antt  c-http-sniffer/src/server.c, `connection_handler`, with `activeMetrics` of
--                   src/protocols/protocol.cpp and the setters of src/analysis.cpp: the description
--                   of an analysis, whose fields are those of analysis.proto, sets the state up.
--   Util.antt       c-http-sniffer/src/util.c: `ip_ntos` and `ip_ston`.
-- The children of a module hold its proofs, and its Tests run it on concrete input.
--
-- Conventions. A machine integer is a natural number with its wrap-around written out where the code
-- may wrap. A buffer is the list of its bytes and a linked chain the list of its records; a pointer
-- into a chain is a position or the split of the list at it. `none` stands for an access outside of a
-- buffer or through a bad pointer, or for an undefined shift; that `Flow::add_packet` reads the flow
-- that it has just deleted is noted as `reads_deleted`. Memory is never exhausted: an allocation that
-- fails ends the program. A counter of objects that are in memory, such as the elements of a bucket or
-- of a queue, is bounded by the memory and does not wrap. Threads interleave where a loop takes the turns
-- of the others as an argument, in Workers.antt: what they have put into a queue before each access.
--
-- Bounds. `decimal` prints an int with the ten digits that an int has at most; `ip_ston` collects
-- three parts before its last because the code refuses a fourth dot; the loops over the lines of a
-- header have one step more of fuel than bytes are left, since every line takes a byte, likewise those
-- over the keys of a Memcached line, since every key takes a byte, and the loop of `hasErrorStatus` as
-- many as its number, which each step makes smaller; every other loop is a recursion on the list that
-- it walks or on a counter of the program.
--
-- Not modelled: sockets, threads, signals and libpcap, which are calls of the system, and with them
-- `sendMsg` of src/server.c; src/protobuf-c.c and src/analysis.pb-c.c, which are a library and
-- generated code; `flowHashProcess` of src/flowHashTable.cpp, which hands the flows of Flow.antt to
-- Extract.antt and Pairs.antt; MySQL, which the program does not build; the metrics of errors, of
-- throughput, of request types and of response statuses in src/metrics/; the
-- lists of observers, src/events/, whose calls are arguments of the definitions.
pub mod Prelude
pub mod Server
pub mod Util
pub mod Packet
pub mod Order
pub mod Tcp
pub mod Capture
pub mod Queue
pub mod Timer
pub mod Averages
pub mod Bucket
pub mod Distribution
pub mod Extract
pub mod Flow
pub mod FlowTable
pub mod HashTable
pub mod Http
pub mod Memcached
pub mod Pairs
pub mod Text
pub mod Workers
