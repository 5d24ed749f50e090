-- ===== src/Lib.antt =====
-- A model of ldRouting, a routing protocol over the lightning network: nodes register 4-byte addresses
-- in bitcoin transactions, keep a database of addresses and of routing entries, exchange tables with
-- their neighbours and send probes for routes.
--
-- The files and what they model:
--   Base and its children: numbers, lists, byte strings with the integers of encoding/binary, signed
--     64-bit integers, Go's maps, and `Run`, what a call can do (return, error value, panic, log.Fatal).
--   Wire (ldrlib/utils.go): addresses as bits, the formats of the disk and of the messages, hexadecimal.
--   Tree (ldrlib/binaryTree.go and the loops of ldrlib/db.go over it): the address tree. A pointer to a
--     node is the path that leads to it. Tree.Laws reads it as a map, Tree.Shape says that data stand at
--     depth 32 only, Tree.Full and Tree.Subtree say which paths are free.
--   Suggest (SuggestAddress of ldrlib/db.go): closestFreeAddress, bottomSearch and the two depth-first
--     searches; Suggest.Outcome has what they come to.
--   Stack (ldrlib/routingStack.go): the stack of routing entries, as references into a store.
--   Db (ldrlib/db.go, ldrlib/ln.go): the database as a record, with the routing entries that were
--     allocated and the two files. Db.Addresses, Db.Routing, Db.Disk and Db.Registration have its
--     operations, Db.Lnd what the code asks of the lightning node, Db.Valid the invariant,
--     Db.Disk.Reload the routing file at the next start, and Db.Routing.Capacities the capacities that a
--     pass lowers.
--   Bitcoin (ldrlib/bitcoin.go): the script of a registration, the scan of the blocks, the input, and in
--     Bitcoin.Broadcast the transaction up to its sending.
--   Message (ldrlib/message.go): table requests and responses, and forwarded routes.
--   Route (ldrlib/routing.go, and the ends of a probe in ldrlib/networking.go). Route.Hops is about
--     addHopToRoute, Route.Search has GetRouteManual and GetRouteAuto.
--   Peer (ldrlib/crypto.go, ldrlib/networking.go): sequence numbers and nonces (Peer.Sequence), the
--     ciphers (Peer.Cipher, Peer.Rsa), the handshake (Peer.Handshake), the connections that come in and go out
--     (Peer.Listen), and what goes on over a connection (Peer.Connection): Dispatch has what each
--     message leads to and Loop the loop of handlePeerConnection. Link is two peers as a step relation,
--     Relay a row of nodes that a probe passes through, Mutex and Termination are about the loop.
--   Client (client.go): the registration of the local address, and in Client.Menu the option menu.
--   Examples: the theorems at concrete inputs.
--
-- The parts meet in the database: the scan of Bitcoin gives registrations that Db.Registration validates
-- by Suggest and enters into Tree; Message reads Stack and adds destinations to the tree and the stack;
-- Route reads next hops from them; Peer.Handshake asks the database whether a peer is registered. A
-- pointer to a connInfo is a number in the database, and Peer.Connection.Node adds the connections that
-- the numbers stand for. Peer.Connection.Dispatch hands a message to Message, or to Route and on to the
-- connection of the next hop; Peer.Connection.Valid follows the database through all of it. Client puts the
-- registrations and the searches behind its menus.
--
-- Integers of Go are natural numbers below the power of two of their type, or signed ones in its range;
-- the conversions and the truncations of the source are written out. Loops over a list or the bits of an
-- address are structural. Fuel stands in two places. In Db.Disk, read_records takes the length of the file,
-- and each round takes at least one byte of it. In Peer.Connection.Loop, the fuel of handle_rounds is a
-- number of moments at which a round is tried: one that goes on takes at least the two bytes of a length,
-- and one that waits for the mutex is tried again, so that a moment for each byte is enough where none
-- waits, and n times as many where the mutex is free at every n-th moment. The
-- loops of the synchronisation, of the table requests, of the listener and of the option menu are modelled
-- by one round.
--
-- A connection is the bytes that come in until its end, and the bytes that were written. A Read fills its
-- buffer as far as the bytes go, and a failed Write changes nothing. A round of a handler is one step; what
-- other goroutines do between the rounds is an argument of the loop, and a mutex is a flag of its
-- connection: a round that finds it set is tried again, after what the other goroutines do.
--
-- Parameters: the answers of the lightning node, of bitcoind and of its wallet, zbase32, net.Dial and
-- net.ParseIP, strconv.Atoi, the packages for PEM, X.509 and RSA, of which the handshake assumes that a
-- key pair decrypts what it encrypts, and AES-GCM, of which the sizes are assumed and that what is sealed opens
-- under its key and nonce.
-- Not modelled: the RPC clients (lndwrapper, bitcoindwrapper), which only call services, the ciphers
-- themselves, the sleeps and the interleaving of goroutines within a round, flags and printing, and failed
-- system calls on the files.
pub mod Base
pub mod Wire
pub mod Tree
pub mod Suggest
pub mod Stack
pub mod Db
pub mod Bitcoin
pub mod Message
pub mod Route
pub mod Client
pub mod Peer
pub mod Examples
