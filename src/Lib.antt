-- ===== src/Lib.antt =====
-- NetHex, a deep packet inspection engine in C++.
--
-- A reader thread takes packets from a capture file, parses their headers, copies each payload into
-- a slot of a memory pool and dispatches an envelope to the queue of the worker that the flow's hash
-- names. A worker tracks the TCP connections of its flows, lets a flow bypass inspection after ten
-- packets, and otherwise scans the payload. The library models these parts:
--
-- - Wire: include/types.h, include/platform.h. The packed header structs as byte arrays, and the
--   conversion to host order for either byte order of the host.
-- - PacketParser: src/packet_parser.cpp. `parse_ethernet`, `parse_ipv4`, `parse_tcp`, `parse_udp`.
--   The bytes behind the packet's pointer are a list; a read outside it is the outcome `fault`,
--   `return false` is `reject`. The loop over VLAN tags has fuel `packet_length + 1`; a round
--   advances by four bytes, so it never runs out, which is part of the safety theorem.
-- - DnsParser: src/dns_parser.cpp. `decode_name` with its local variables as a record and the
--   questions of `extract_queries`. Its loop has fuel 17 * (`payload_length` + 1): a label moves
--   the cursor on, and at most 16 pointers move it back, so it never runs out, which is part of
--   the safety theorem. DnsParser.Names has the names of RFC 1035 as an indexed data type.
-- - SniExtractor: src/sni_extractor.cpp. `extract_sni` in parts: up to the extensions, the loop over
--   them with fuel `payload_length + 1` (a round advances by four bytes, so it never runs out, which
--   is part of the safety theorem), and the extension of the server name. SniExtractor.Hello has a
--   ClientHello as a record and its extensions as an indexed data type.
-- - IpDefragmenter: src/ip_defragmenter.cpp. `process_fragment` in parts: the limits and the look-up,
--   `store` of the bytes, `finish` of a complete buffer. An access outside a vector is `fault`. The
--   time is an argument, in nanoseconds, and does not run back.
-- - PatternMatcher: src/pattern_matcher.cpp. The trie is a list of nodes, a pattern the list of its
--   bytes. `add_pattern`, `build_machine` in its loops, `search`. The loop over the queue has fuel
--   for each node of the trie, since a node enters the queue once; a walk along the fail links has
--   fuel for each node and one more, since a link leads to a node that is less deep. Neither runs
--   out, which is part of the theorem on `search`. PatternMatcher.Words has the plain comparison that
--   `search` is measured by. It is used by DpiEngine, which keeps its state in the connection.
-- - RuleManager: src/rule_manager.cpp. What the stream reads of the file is an argument. It fills
--   the trie of PatternMatcher.
-- - DpiEngine: src/dpi_engine.cpp. The constructor and `inspect_payload` over PatternMatcher,
--   SniExtractor and DnsParser. What it logs of a payload is part of its result. DpiEngine.HexDump has
--   the hex dump, whose call is commented out.
-- - PcapReader: src/pcap_reader.cpp, with the loop of src/main.cpp that reads a file. The stream is
--   the bytes ahead of its position with its state bits. The loop has fuel for one call more than
--   there are bytes ahead, since a call that succeeds reads a header.
-- - FiveTuple: include/five_tuple.h, include/xxhash_functor.h. XXH64 is a parameter.
-- - LockFreeQueue: include/thread_safe_queue.h. `push` and `pop` alone, and a step relation over
--   their loads and stores for one producer and one consumer. Counters wrap at 2^64. The steps are
--   sequentially consistent; that acquire and release give no more behaviours is not modelled.
-- - MemoryPool: include/memory_pool.h. A call is one step, since a mutex guards it.
-- - LoadBalancer: include/load_balancer.h, with the flow hash of src/main.cpp. It uses the queues
--   as they are and the symmetry of the flow's key.
-- - Connection: include/connection.h, include/fast_path.h.
-- - ConnectionTracker: src/connection_tracker.cpp. The hash map is an association list with one
--   entry for each key; an iterator of the LRU list is the number of a node; the steady clock is an
--   argument of each call, in nanoseconds, and does not run back. The first packet of a flow reads
--   the clock twice in the code and once here.
-- - Worker: worker_node of src/main.cpp, a round at a time, over ConnectionTracker, Connection,
--   DpiEngine and MemoryPool. A round's packet and the clock's time are its arguments.
-- - Ingestion: what the main thread of src/main.cpp does with a packet, over PacketParser, MemoryPool
--   and LoadBalancer. Each attempt to borrow a slot or to dispatch is a step of its own, so that
--   the workers may run in between. main.cpp:182 calls a parse_ipv4 of seven arguments, which the
--   source does not declare (PacketParser's takes nine): that function is a parameter.
-- - Startup: the beginning of `main` and of `worker_node` in src/main.cpp, over LoadBalancer,
--   MemoryPool and DpiEngine. The number of cores that the system reports is an argument.
-- - Base: lists and tests over the native numbers, the `Outcome` of code that reads memory, facts
--   about bits, counts and association lists.
--
-- PacketParser.Frames and PacketParser.Datagrams have frames as a sender writes them.
-- IpDefragmenter.Pieces has a datagram cut into pieces, ConnectionTracker.Freshness the history
-- of a tracker, and Worker.Watching what the packets of one flow say among those of others:
-- there the buffers stay as they are over the rounds looked at, so a slot that the reader fills
-- again is a later history. Worker.Service has the other threads, which borrow, fill and give
-- back slots between a worker's rounds.
--
-- A machine integer is a number with its wrap-around written out. Not modelled: the log's fixed
-- texts, the system calls that place threads, wait and join, the signal handler, and the hash map's
-- buckets.
pub mod Base
pub mod Wire
pub mod PacketParser
pub mod SniExtractor
pub mod IpDefragmenter
pub mod PatternMatcher
pub mod RuleManager
pub mod DpiEngine
pub mod PcapReader
pub mod FiveTuple
pub mod MemoryPool
pub mod LockFreeQueue
pub mod LoadBalancer
pub mod DnsParser
pub mod Connection
pub mod ConnectionTracker
pub mod Worker
pub mod Ingestion
pub mod Startup
