-- ===== src/Lib.antt =====
-- Models of the core of zapret2 (nfq2/), the packet modifier that tracks connections, puts
-- client streams together and hands packets to Lua desync functions, with the theorems that hold
-- of them.
--
-- The program takes a packet from the netfilter queue, dissects it (nfq2/darkmagic.c), looks up
-- or makes the record of its connection (nfq2/conntrack.c), puts the first message of the client
-- together when it spans packets (the reassembly of nfq2/conntrack.c), parses it
-- (nfq2/protocol.c), and sends changed packets, whose checksums it computes (nfq2/checksum.c).
--
-- Base, Memory: the shared names. Base has numbers, Boolean tests, bits and lists; Memory has
--   buffers as lists of bytes, in which a pointer is an index and an access outside is the fault
--   `none`.
-- Bytes: the big-endian fields of nfq2/helpers.c, pntoh16 to phton64, and its byte swaps.
-- Reasm: ReasmInit, ReasmResize, ReasmClear, ReasmFeed, ReasmHasSpace, ReasmIsEmpty, ReasmIsFull
--   of nfq2/conntrack.c and nfq2/conntrack.h; the state t_reassemble is the record Reasm.
--   Children: Invariant (soundness), Stream (one segment), Session (all segments).
-- Checksum: from64to16 and do_csum of nfq2/checksum.c. Children: Fold, Little (the sum of RFC
--   1071), Sum, Words, Total.
-- Tcp: the TCP readers of nfq2/darkmagic.c, tcp_find_option to tcp_syn_segment.
-- Packet: struct dissect of nfq2/darkmagic.h, as far as the tracker reads it, and extract_ports.
-- Track: t_ctrack and its parts (nfq2/conntrack.h, nfq2/conntrack_base.h) and
--   ConntrackClearHostname to ConntrackFeedPacket. Children: Feed (the rest of the definitions),
--   Ranges (where the update returns), Keeps, Segments and Steps (stages and counters), Shift and
--   Scale (the window scale over two packets).
-- Conntrack: t_conn and t_conntrack, ConntrackExtractConn, ConntrackPoolInit, ConntrackPoolFeed,
--   ConntrackPoolDoubleSearch, ConntrackPoolDrop, ConntrackPoolPurge, ConntrackPoolDestroy.
--   Children: Laws (what is assumed of the hash table), Feeding, Reply, Search, Dropping,
--   Purging, and Assoc, an association list that keeps the laws.
-- Ipv6: proto_skip_ipv6 of nfq2/darkmagic.c. Children: Bounds, Find (proto_find_ip6_exthdr; its
--   child Exact sets it beside the walk).
-- Dissect: proto_check_ipv4 to proto_check_ipv6_payload, proto_dissect_l3l4 and ttl46 of
--   nfq2/darkmagic.c. Children: Bounds (network layer), Transport (transport layer),
--   Short (a total length below that of the header).
-- Tls: the readers of TLS hello messages in nfq2/protocol.c, TLSHandshakeDataLen to
--   TLSHelloExtractHostFromHandshake. Children: Bounds (handshake messages), Hello (records,
--   host).
-- Position: FindNLD, CheckPos, AnyProtoPos, HostPos and TLSPos of nfq2/protocol.c. Children:
--   Bounds (domains), Markers (resolution).
--
-- Strings: the text functions of nfq2/helpers.c, strncasestr to hex_digit, and UNIQ_SORT.
--   Children: Search, Hex.
-- Http: HttpMethod to HttpExtractHost of nfq2/protocol.c. Children: Bounds (requests), Header
--   (the search for headers), Redirect (HttpReplyLooksLikeDPIRedirect), Pos (HttpPos,
--   ResolvePos, ResolveMultiPos), Resolve (positions) and Multi (several positions).
-- Datagrams: IsXMPPStream to IsUTP_BTHandshake of nfq2/protocol.c, less IsMTProto. Children:
--   Bounds, Every, Exclusive.
-- Queue: nfq2/packet_queue.c. Child: Order.
-- Filter: the filters of nfq2/filter.c, pf_match to ipp_parse. Children: Ports (what they
--   match), Range (packet_range_parse).
-- Quic: tvb_get_varint to QUICDraftVersion, QUICIsLongHeader to QUICExtractDCID, IsQUICInitial
--   of nfq2/protocol.c. Children: Varint, Bounds (a client hello in a frame), Initial (the
--   header), Defrag (QUICDefragCrypto: its result in Full, its buffers in Bounds and Total).
--
-- Track is used by Conntrack through feed_packet, init_track and clear_track; the rest of a
-- record is opaque to the pool. Track holds a Reasm, which it clears with the record. Http uses
-- Strings for its searches and Position for places in hosts; Quic uses Tls for the hello in a
-- frame; Dissect uses Ipv6 for the extension headers.
--
-- A result in Option is `none` where the C code reads or writes outside a buffer, or leaves the
-- behaviour undefined in another way. Numbers are natural, with the wrap-around of their C type
-- written out (u8 to u64); size_t is 64 bits wide. The host is little-endian where do_csum reads
-- words of the buffer. The fuel of the walk over TCP options is the length of the options, and
-- each round goes at least one byte on; that of the walk over TLS extensions is the number of
-- bytes that are left, of which each round takes at least four; that of the walk over IPv6
-- headers is the number of bytes too, of which each round takes at least eight. The loop over
-- QUIC frames has the length of the text as its fuel, and each round goes at least one byte on.
-- The other loops go by structural recursion.
--
-- Parameters: the results of malloc and realloc (arguments), the Lua registry (record Lua), the
-- clock (arguments), qsort, the numbers that sscanf reads (scan_u), and the hash table of uthash
-- (record Table with the laws Laws). Records of connections are written through pointers into
-- the table; `set` of the table is that write.
--
-- Not modelled: ConntrackPoolDump, which prints; the decryption of QUIC packets, IsMTProto and TLSMod of nfq2/protocol.c, the rewriting of packets, address ranges, lists and
-- pools; the desync engine, the Lua interface and the main program, which are input and output;
-- the copies of other projects (uthash, kavl, qsort, the cryptography).
pub mod Base
pub mod Memory
pub mod Bytes
pub mod Reasm
pub mod Checksum
pub mod Tcp
pub mod Packet
pub mod Ipv6
pub mod Dissect
pub mod Tls
pub mod Position
pub mod Track
pub mod Strings
pub mod Http
pub mod Datagrams
pub mod Queue
pub mod Filter
pub mod Quic
pub mod Conntrack
