-- ===== src/Lib.antt =====
-- BEProtocol: the network protocol of Minecraft: Bedrock Edition. This library models the binary streams, the
-- packets written on them, the header and the choice of the class that reads a packet, the batches in which a
-- session sends packets, the strand on which its tasks run, and what a server does with a client's messages.
--
-- Parts, and where they are modelled:
-- - Stream: include/sculk/protocol/utility. `ReadOnlyBinaryStream` is a record of its three members and a
--   read is a function from such a stream to an `Outcome` (`Result<T>`, and `fault` where C++ gives no value)
--   and the stream after it; `BinaryStream` appends to a buffer, a list of bytes. Endian.hpp is
--   Stream/Endian; `read<T>`, `write<T>` and raw bytes are Stream/Fixed; the variable-length integers are
--   Stream/VarInt; strings are Stream/Text; enums, arrays, optionals, variants and maps are
--   Stream/Containers, which take the codec of an element as an argument. A C++ integer or float is its bit
--   pattern, a natural number below `2 ^ w`; `size_t` has 64 bits, and the read pointer wraps in it.
-- - Packet: src/sculk/protocol/codec. A packet class is a record with the fields of the class, a writer and
--   a reader for its `write` and `read`. Packet/Types has the structures that packets share (math, UUID, pack
--   data); Choices, Chunk and Rules have the packets whose layout depends on their data; the other modules
--   have the packets that are a sequence of fields, grouped by what they are about.
-- - Packet/Nbt: codec/nbt, the named binary tags. A tag is one of the alternatives of `TagVariant`; a list and a
--   compound hold tags, in a mutual block, and a compound is its entries in the order of their keys. Packet/Tagged has
--   packets that carry them.
-- - Packet/Dispatch: codec/packet/IPacket.cpp and codec/MinecraftPackets.cpp. `PacketClass` is the interface that
--   a class implements, with the promise that its reader undoes its writer; Packet/Registry fills it for each
--   modelled class and maps ids to classes, as the switch of `createPacket` does.
-- - Connection: connection/Session.cpp. Connection/Batch is the loop that puts packets into one buffer behind
--   their lengths, and the loop that takes them out; Connection/Envelope is `serializeBatchedPackets` and
--   `deserializeBatchPackets`, which put compression and encryption around it. Connection/Crypto is
--   `CryptoManager` (connection/encryption), with OpenSSL as an argument and `CtrMode` for what it documents of
--   counter mode; Connection/Outbound is the queue of packets that go out, as steps of threads between which the
--   mutex is free, with one flush at a time; Connection/Zlib and
--   Connection/Compression are Zlib.cpp and Snappy.cpp (connection/compression), with the libraries that they call as
--   arguments and `ZlibLaws` and `SnappyLaws` for what these document. Casts of sizes to `int` and `uInt` are written out.
-- - Connection/Strand: connection/thread/TaskStrand.hpp (include/sculk/protocol). The state is the strand and, for each
--   atomic operation of the code, how many threads stand before it; a move is one such operation of one thread, so that
--   a list of moves is an interleaving. The operations are taken to be sequentially consistent, and the pool either to
--   take every submission or to refuse any. The size that the third-party queue answers is an estimate: any number can
--   come with the move that asks for it, and where a theorem needs an exact one it says so.
-- - Connection/Ingress: `processSessionPacket` of connection/ServerNetworkSystem.cpp, from a client's message to the calls
--   of the server's callbacks, which are a list of effects; the limit on messages, the session's
--   `deserializeBatchPackets` and the packet's header and class are the code's own. Connection/Schedule is the heap of
--   flushes that are due, with its tokens; a command or a round of `flushTickOnce` is an event.
-- - Tests has the theorems at concrete inputs.
--
-- How they fit together: Stream/RoundTrip says what it means that a reader undoes a writer at any place of a
-- buffer, with rules for codecs made of codecs; each packet's proof is a use of these rules. Stream/Safety says
-- what a read does to the stream on bytes that nobody wrote.
--
-- Recursion: the loop of the unsigned writers is recursion on the accessibility of `<`; the loop of the readers is
-- recursion on the bytes that are left; the loop over a batch has the number of bytes as fuel, and each round reads
-- at least one byte; the loop of `zlib::compress` has more rounds than a deflated buffer can have bytes, and that of
-- `zlib::decompress` two more than 64 MiB have full chunks; a tag has one more than the bytes of the buffer, of
-- which each entry and each tag in a tag takes one, and what it answers where the fuel runs out is an argument.
-- `fault` stands for running out of it, for a C++ exception, and for a `bool` read from a byte other than 0 and 1.
--
-- Not modelled: bitsets, skins, items, recipes, commands, biomes and the packets made of them; the formatting of
-- packets; `readWithHeader`, which reads into an object that exists; a session's inbound queue and its peer; login
-- tokens and certificates (auth, ssl), which rest on OpenSSL and JSON; the client's network system, the rest of the
-- server's, the thread pool and the setters of a strand; RakNet, zlib, snappy and OpenSSL themselves, which are
-- third-party code.
pub mod Common
pub mod Stream
pub mod Packet
pub mod Connection
mod Tests
