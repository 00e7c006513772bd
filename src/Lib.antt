-- ===== src/Lib.antt =====
-- snmpio: an SNMP library for C++ over Asio (SNMPv2c and SNMPv3, client side).
--
-- A request is a Pdu, a list of varbinds with a type and three numbers. The message layer encodes it
-- with the BER writer, sends the datagram, and decodes the reply with the BER reader. Both codecs keep
-- a sticky error; the errors of every layer are codes of one category, and `classify` says what a
-- caller can do about them.
--
--   Common             numbers, lists, octets and 32-bit integers that the other files share
--   Error              include/snmpio/Error.hpp and src/Error.cpp: `Errc`, `ErrorStatus`, `classify`
--   Error/Classes      which codes have which class
--   Oid                include/snmpio/Oid.hpp and src/Oid.cpp: `isEncodable`, `isPrefixOf`, `child`, the
--                      order; Oid/Arcs and Oid/Order are what they let through and how they order
--   Oid/Text           `parse` and `toString`; Text/RoundTrip what they make of each other
--   Value              include/snmpio/Value.hpp: `Value`, `Varbind`
--   Ber/Tag            include/snmpio/ber/Tag.hpp
--   Ber/Writer         src/BerWriter.cpp, one function for each member of `Writer`; Writer/Shape and
--                      Writer/Values say which octets each appends
--   Ber/Reader         src/BerReader.cpp, one function for each member of `Reader`: the cursor, headers and
--                      scopes, and in Reader/Fields the numbers, values and varbinds; Reader/Oid is
--                      `decodeOidContent`, Reader/Cursor a reader in the middle of its buffer;
--                      Reader/Outcome to Reader/Varbinds say what each read does with any input
--   Ber/RoundTrip      what the reader makes of what the writer appends
--   Pdu                src/Pdu.cpp: `encodePdu`, `decodePdu`, `encodeV2cMessage`, `decodeV2cMessage`;
--                      Pdu/Message is the round trip, Pdu/Verdict any datagram
--   Usm                src/Usm.cpp: key derivation, `privEncrypt`, `privDecrypt`, `authDigest`; Usm/Privacy and
--                      Usm/Keys
--   V3Message          src/V3Message.cpp: `encodeV3Message`; V3Message/Decode is `decodeV3Message`,
--                      `decryptScopedPdu` and `verifyAuth`; Layout, Frame, Parts, Parameters and Payload are
--                      the octets of a message part by part, RoundTrip, Signed, Authentic and Private the
--                      whole
--   Client             src/Client.cpp: the state of `Client::Impl`; Client/Ids is `nextId`, Client/Report the
--                      usmStats counters, Client/Clock `timely`, `observeEngineTime` and `handleReport`,
--                      Client/Deliver the receive loop, Client/Strand what happens while an operation
--                      waits, Client/Keys the cache of keys, Client/Exchange `transact` and
--                      `doRequestV2c`, Client/Discover `ensureEngine` and `discoverEngine`,
--                      Client/RequestV3 `doRequestV3` and `doRequest`, Client/Walk `doWalk` and
--                      `doWalkCollect`, Walk/V2c a Walk over `doRequest`; the files below these say
--                      what they guarantee
--   Tests              concrete inputs
--
-- A reader or a writer is a record that each operation takes and returns; a read returns it with an
-- optional value. A C++ scope guard is the pair of a function that opens the scope and one that runs
-- its destructor. OpenSSL's hashes, MACs and ciphers are the fields of one record, `Crypto`, that the
-- definitions take; the salt that `nextSalt` returns is an argument, and for the
-- client a function of the point that the run has come to. Octets are numbers below 256 in
-- a list, and machine integers keep their wrap-around.
--
-- The client's state lives on one strand, so it is a value that each piece of work takes and returns;
-- what a `std::shared_ptr` shares is a heap of requests with references into it. An operation runs
-- over a script, which has for each `co_await` the code that ends it and the other work that the
-- strand did meanwhile: datagrams, the clock, cancellation signals, Stopping, other operations. A
-- discovery is one of those operations: a request that needs it waits, and the discovery has a script
-- of its own. The theorems hold for every script. Endpoints, socket codes and opening a socket are the
-- network library's.
--
-- Fuel: `parse` has a round for each character and takes a dot at least, and ten digits hold a
-- sub-identifier; an SNMPv3 request has the two attempts of the source; a Walk has a round for each
-- name and for each halving of max-repetitions, and reaches its end before; the length of a
-- std::size_t is shifted away after 8 rounds and a 64-bit sub-identifier after 9; the loops over an
-- OID's content and over a varbind list have a round for each octet that lies ahead, and each takes at
-- least one octet. The extension of a privacy key has a round for each octet that is wanted, and each
-- appends at least one.
--
-- Not modelled: the texts of the error categories, the rendering of values, the
-- client's sockets and timers, what it does when an exception is thrown, the wrappers that put an
-- operation on the strand, and the choice between two flavours of Asio.
pub mod Common
pub mod Error
pub mod Oid
pub mod Value
pub mod Ber
pub mod Pdu
pub mod Usm
pub mod V3Message
pub mod Client
pub mod Tests
