-- ===== src/Lib.antt =====
-- benliud is a BitTorrent client in C++: `BaseLibs` (sockets, threads, bencoding, torrent files),
-- `benliud_bt` (the BitTorrent engine), `benliud_btkad` (the DHT client), `benliud_upnp` (port mapping)
-- and `benliud` (the window). This library models the parts of the engine and of the DHT that decide
-- what is downloaded and whom it is asked of, and proves what they rely on.
--
-- The parts and how they meet:
-- - A peer's bitfield is a `CBTPiece` (benliud_bt/src/BTPiece.cpp): Piece.antt, with the single bits
--   and the byte-wise routines compared in Piece/Laws, Piece/Fill, Piece/Count and Piece/Compare.
-- - The storage counts for each piece the connected peers that have it, in a `CBTPieceSum`
--   (benliud_bt/src/BTPieceSum.cpp): PieceSum.antt. PieceSum/Notices.antt has `PieceChangeNotice` and
--   `PeerHaveNewPieceNotice` of benliud_bt/src/BTStorage.cpp, which the handlers of BTPeer.cpp call
--   (Peer/Pieces.antt); Peer/Swarm.antt runs these for many connections in any order.
-- - A peer is asked for one piece at a time by a `CSingleRequest` (benliud_bt/src/SingleRequest.cpp):
--   SingleRequest.antt. SingleRequest/Calls.antt runs any sequence of its operations; its counters rely
--   on `Init` being called on an empty request only, as `CheckMyRequest` of BTPeer.cpp does.
-- - A piece that several peers are asked for is a `CShareRequest` (benliud_bt/src/ShareRequest.cpp):
--   ShareRequest.antt.
-- - The DHT keeps nodes in buckets (benliud_btkad/src/KBucket.cpp, KBucketEntry.cpp) by keys with an
--   exclusive-or distance (BTDHTKey.cpp), and answers a lookup by filling a ClosestNodeStore.cpp:
--   Dht.antt and its children. Dht/Lookup.antt joins bucket and store.
-- - Encrypted connections use RC4 (benliud_bt/src/MSE_Rc4encryptor.cpp): Rc4.antt.
-- - A node of the DHT stores the addresses that others announce, under tokens it gave out
--   (benliud_btkad/src/DataBase.cpp, DBItem.cpp): Dht/DataBase.antt.
-- - `BaseLibs` offers base 64 (BaseLibs/src/base64.cpp): Base64.antt.
-- - `BaseLibs` reads and writes bencoded texts (BaseLibs/src/BenNode.cpp): Bencode.antt is the tree and
--   the calls that build it, Bencode/Lookup.antt those that read it, Bencode/Stream.antt the streams.
--   Bencode/Stream/Spine follows a call down the tree, Bencode/Stream/Rounds the rounds of the loop.
-- - A node of the DHT keeps 160 buckets, and the tasks and announcements of its client
--   (benliud_btkad/src/DHTNode.cpp): Dht/Node.antt is the table, Dht/Node/Records.antt the rest.
--   Dht/Node/Calls.antt runs the calls on the table and looks a key up in all of it; Dht/Node/Slots has
--   those that change every bucket.
-- - The storage chooses the next piece to ask a peer for (benliud_bt/src/BTStorage.cpp): Storage.antt,
--   with the loops in Storage/Choice and the whole in Storage/Choose; Storage/Tasks keeps the map of
--   the pieces asked for. Storage/Files.antt writes pieces to the files of the torrent and reads them:
--   Storage/Files/Flat compares the files with one run of bytes, Storage/Files/Refine and Storage/Files/Read the loops.
-- - A peer speaks with another one over a connection (benliud_bt/src/BTPeer.cpp): Peer.antt has the
--   messages it sends, Peer/Packets the loop that cuts what comes into messages, Peer/Uploads the
--   handlers of the other peer's requests. `DoCmd` is an argument of the loop; Peer/Serve puts the
--   handlers there, and takes the commands of the other parts of the peer as an argument.
--   Peer/Pieces has the handlers of the pieces that the other peer tells of, which change the counters
--   of PieceSum; Peer/Tally and Peer/Announcing follow the counters for one peer,
--   Peer/Swarm for all. `OnClose` ends the reading of a connection, but not the loop over what was read.
--   The download side is Peer/Downloads, from the task that the storage gives to the requests that are
--   sent, and Peer/Arrivals, the messages that answer them. `Link` there holds the peer, the storage and
--   the bytes that are sent. Peer/Arrivals/Turns lets any peers use one storage in turn, and
--   Peer/Arrivals/Balance follows the task of one connection.
-- - Storage/Depot.antt is what the storage keeps for the download side: orphans, requests shared by
--   several peers, and finished pieces that wait for the disk. The torrent file is a parameter, `Torrent`.
-- - Storage/Cache.antt is `ReadData`: the blocks that were read before, the pieces in memory, and the disk
--   of Storage/Files. Storage/Cache/Served says what the caches hold, Storage/Cache/Reads runs reads.
-- - Common.antt passes on the shared names: Boolean tests, lists over native numbers, searches for the
--   first element that passes a test (`std::list` loops), bytes, and integers.
--
-- How the code is read:
-- - A record holds the members of a class, a function takes the object and returns the changed one.
--   Results of `GetTickCount()` are arguments, as is what an uninitialised member holds (`raw`).
-- - `assert` is compiled out. `unsigned int` and `unsigned short` wrap: `% 2 ^ 32`, `% 2 ^ 16`. An
--   `int` that only counts (`m_nChoke`, the piece counters) is not bounded. Byte strings are lists of
--   numbers; sizes of strings and lists are below 2 ^ 32.
-- - A negative index or `-1` is `none`, or an integer of Common/Int.antt where the sign is compared.
-- - `std::map` is its list of pairs in ascending order, with the comparison of the keys, where its order
--   is seen; else it is a list of pairs in any order.
-- - `Tools::SHA1String` is a parameter of `check_hash`, and `CSHA1` of the tokens of Dht/DataBase.antt.
--
-- Fuel: `decompose` takes the piece length as fuel, which is enough since each round moves on by at
-- least one byte. `from_stream` has a round for each character of the stream, `write_loop` and
-- `read_loop` of Storage/Files one for each byte; each round moves on by one at least. The loops of
-- `DoMyRequest` run while fewer than 12 blocks are asked for, and each round asks for one more, so 12
-- rounds are enough; `blocks_of` has a round for each byte. Other loops are structural.
--
-- Not modelled: sockets, threads and locks (each operation is one step, as the locks of the callers
-- make it), the file system, the window, UPnP, trackers, the handshake of BTPeer.cpp, the priorities
-- of BTStorage.cpp and the threads that empty its write cache, what `WritePiece` tells other parts,
-- the DHT's message exchange, the Diffie-Hellman numbers of MSE_BigInt.cpp, floating point
-- (`GetPersent`), getters, and the libraries under thirdparty.
pub mod Common
pub mod Base64
pub mod Piece
pub mod PieceSum
pub mod SingleRequest
pub mod ShareRequest
pub mod Dht
pub mod Rc4
pub mod Bencode
pub mod Peer
pub mod Storage
