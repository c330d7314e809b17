-- ===== src/Lib.antt =====
-- Verification library of CCN, a peer-to-peer conferencing application: a signaling server
-- (backend/src) and a browser client (frontend/src) whose media, chat and file traffic goes from
-- peer to peer.
--
-- The parts, and the files that model them:
--
-- - Prelude: Boolean tests and lists over native numbers, and the `Map` of JavaScript as an
--   association list in the order of insertion. Number: the numbers of JavaScript where the code
--   uses fractions. Their type and operations are a parameter, the record Number; Laws has what the
--   bounds need of their order, and Number/Thousandths is a value of both.
-- - Arp (frontend/src/lib/arpProtocol.ts and arpSession.ts): the reliable transport of the demo.
--   Arp/Frame has encodeFrame and decodeFrame on lists of bytes. ArpSender has its fields in
--   Arp/SenderState, the record Sender, and enqueue, onAck and tick in Arp/Sender; the callbacks
--   send, now and log are the record SenderIo and two fields that keep what was sent and logged.
--   Arp/Receiver has ArpReceiver and its buffer. Arp/Session has ArpSession: the segments of a
--   message, the two ends, and the bounded packet log. Arp/Stream has two sessions and the network
--   between them, which may lose, repeat and reorder frames, as a step relation.
-- - Heartbeat (frontend/src/lib/resilience/heartbeat.ts): HeartbeatTracker. addPeer, removePeer,
--   handlePing, handlePong and tick are functions on the record Tracker. A channel's send and the
--   clock are the record HeartbeatIo.
-- - Rooms (backend/src/rooms/manager.ts and backend/src/sfu/mode.ts): the passwords and the modes
--   of rooms. The size of a room is an argument here. Rooms/Trim has String.prototype.trim.
-- - Signaling (backend/src/signaling/room.ts and relay.ts): Signaling/Handlers has each handler of
--   room.ts as a function on the record Server, which has the sockets, the room manager of Rooms,
--   the media state of each socket, and the messages sent. Signaling/Relay has the handlers of
--   relay.ts. socket.io is a parameter, the record Sockets; IsSocketIo has what it documents, and
--   Signaling/Pairs is a value of both. Signaling/Lifetime has runs of the server as lists of
--   events.
-- - Abr (frontend/src/lib/abr/abr.ts): Abr has tighten and loosen, Abr/Stats has collect, and
--   Abr/Controller has the tick. The sender and the clock are the record Browser.
-- - Dht (frontend/src/lib/dht): Dht/NodeId has the distance of nodeId.ts, Dht/Table the routing
--   table of kbucket.ts, Dht/Lookup the iterative lookup of kademlia.ts, whose requests are
--   answered by a parameter, and Dht/Node its requests and the messages that a node handles. The
--   transport is the record Wire.
-- - Sfu (backend/src/sfu/session.ts): the media session of each socket, and what is closed with it.
-- - Auth (backend/src/auth/jwt.ts): the tokens of magic links that were redeemed, and the sweep of
--   the old ones.
-- - Erasure (frontend/src/lib/erasure): the Reed-Solomon code of the drive. Erasure/Gf256 has the
--   bytes as a field, by the tables that gf256.ts builds; Erasure/Matrix has buildEncodingMatrix
--   and invertMatrix of reedSolomon.ts; Erasure/ReedSolomon has its class, with encode and
--   reconstruct; Erasure/Split has splitIntoShards and recombineShards. What is thrown is a value of
--   Erasure/Outcome.
-- - Drive (frontend/src/lib/drive): the shards and manifests that a peer holds, of peerStore.ts, in
--   Drive. Drive/Manifest has manifest.ts; Drive/Upload and Drive/Download have uploadFile,
--   allocateShards, downloadFile and finalize of driveClient.ts; Drive/Holder has bindHolder and the
--   messages of protocol.ts. The cryptography of fileCrypto.ts is a parameter, the record
--   FileCrypto, and so is what the DHT and the other peers answer.
--
-- How the parts interact: the signaling server keeps the passwords and modes of Rooms and calls its
-- functions as sockets join and leave; a session of Arp owns a sender and a receiver, and the frame
-- codec stands between it and the network; the routing table of Dht is what its lookup starts from.
-- An upload cuts the encrypted file by Erasure/Split, encodes the shards by Erasure/ReedSolomon and
-- puts its own in the store of Drive; a download collects shards from that store and from the peers,
-- and rebuilds the file by the same code.
--
-- Fuel: the drain of the receiver's buffer is given the size of the buffer, and each round deletes
-- an entry. The segments of a message are given the length of the message, and each takes at least
-- one byte. A lookup has sixteen rounds, as in the code. The loops that count up to a bound, such as
-- those over the columns of a matrix, recurse on the number of rounds that are left. All other
-- recursion is on lists.
--
-- Not modelled: timers and their callbacks (a tick is a function that the caller runs), the awaits
-- inside a handler (a handler runs to its end before the next starts), warnings and counters, the
-- JSON of messages, and the zod schemas, which have parsed a payload or refused it. Sequence numbers
-- are natural numbers; the frame codec wraps them at 2 ^ 32. In the drive: the subscriptions and
-- timeouts of fetchShard and of an offer, whose outcome is the parameter, the reports of progress,
-- and the canonical JSON that is signed. The SFU's handlers, accounts, media encryption, the chat's
-- encryption, and all of the user interface are not modelled.
pub mod Abr
pub mod Arp
pub mod Auth
pub mod Dht
pub mod Drive
pub mod Erasure
pub mod Heartbeat
pub mod Number
pub mod Prelude
pub mod Rooms
pub mod Sfu
pub mod Signaling
