-- ===== src/Lib.antt =====
-- Verification of the core of sombrero, an SMB2 server over a storage backend.
--
-- The server keeps, for every file, the opens that clients have on it. What one open may do beside
-- another is settled by the mechanisms below, and each is modelled as the code has it:
--
-- * Byte-range locks, lock.go. `ByteRange` is the arithmetic of ranges (`byteRange.end`,
--   `byteRange.overlaps`), `Locks` the list of locks in `fileState` with `lockRanges`, `awaitLock`,
--   `dropLock`, `unlockRanges` and `releaseLocks`, each of which runs under `fs.mu` and so is one step
--   of that state. A wait is a round of `awaitLock` after another, with the commands of other opens
--   between them; `Locks.Command` lists the commands. `LockSequence` is the memory of replays,
--   `replayedLock` and `rememberLock`.
-- * Sharing modes, sharing.go. `Sharing` has `sharingConflict` and the loop of `sharingViolation`
--   over the opens of the file, which it takes as a list.
-- * Oplocks, oplock.go. `Oplock` is the oplock of one open: starting a break, its acknowledgment, its
--   timer, its end. Whether a notification could be sent is an input, since the network is not part
--   of the model, and so is what a function read of the oplock before it let go of `op.mu`.
-- * Leases, lease.go. `Lease` is one lease in the same way, `LeaseTable` the tables by which a client
--   finds its leases. Keys and GUIDs, which are only compared, are numbers.
-- * The promises on one file, oplock.go and lease.go. `Caching` is the memory of opens and leases with
--   `holdersIn`, `opensOutside`, `exclusiveHeld`, the rounds of breaks (`startBreaks`,
--   `startLeaseBreaks`, `startHolderBreaks`), `needsBreakWait`, `grantOplock` and `grantLease`. The
--   other opens on the file, which the code asks `opensOn` for, are an argument.
-- * The open indexes, openindex.go. `OpenIndex` has the index of opens by file and the index of creates
--   that may be replayed, both association lists, with every function of that file.
--
-- Around these stand:
--
-- * Credits, conn.go. `Credits` has the command sequence window of a connection: `grantCredits`,
--   `retireMessageID` and `creditsToGrant`. The loop of `retireMessageID` runs over the message IDs
--   from the one of the request to the last in the window, and takes that many steps here.
-- * Channel sequences, conn.go. `ChannelSequence` has `verifyChannelSequence` and `releaseOpen` over
--   the counters of the opens and the maps of requests in flight of all connections. Each function
--   holds two locks one after the other and is two steps, with other requests between them.
-- * Search patterns, utils/wildcard.go. `Wildcard` is the table of `MatchPattern`, a row at a time.
-- * Transfers, transfer/transfer.go and transfer/encoding.go. `Transfer.Types` has the records,
--   `Transfer.Encoding` and `Transfer.Records` their `EncodeTo` and `DecodeFrom`, `Transfer.Valid`
--   the `Validate` methods and `Gaps`, `Transfer.Writer` and `Transfer.Reader` the two ends of a
--   stream, and `Transfer.Stream` a whole stream from one end to the other. The encoder and the
--   decoder of go.sia.tech/core are the record `Wire` of `Transfer.Wire` with the laws `IsWire`, and
--   SHA-256 and the sink are functions. The loop of `Next` runs on as much fuel as the source has
--   bytes left and two more, which is enough since each record takes nine bytes at least.
-- * Messages, smb2/header.go, smb2/request.go and smb2/lease.go. `Message.Header` and
--   `Message.Fields` are the header, `Message.Request` is `GetRequests`, and
--   `Message.Response` the responses with `Append`. An index that is out of range is the answer `panics`. The loop over a chain takes a byte of the message a
--   round at least, so its fuel is the length of the message and one. `Message.LeaseContext` and
--   `Message.LeaseBreak` are the create contexts of a lease and the messages of a lease break.
-- * Decompression, compress/lz77/lz77.go. `Compression.Decoder` is `Decompress`: what is left of the input
--   is a list, and each round of the loop takes a byte of it at least, which is the fuel. A limit of
--   zero or less is zero here.
--
-- `Base` holds the names and lemmas that the others share. Each component's parent file has the
-- definitions, its children the proofs, and its `Tests` runs and instances of the theorems.
--
-- Go channels that are only ever closed are numbers, with the list of those closed so far. Words of
-- 64, 32 and 16 bits are natural numbers with their wrap-around written out. Locks on mutexes are not
-- modelled: a function that holds one throughout is one step, and where a function lets go of it it is
-- several steps, or takes what it read before as an argument.
--
-- Not modelled: input and output, cryptography, SQL, the clients of the storage backend, and the web
-- interface. PROJECT.json lists every part.
pub mod Base
pub mod ByteRange
pub mod Caching
pub mod ChannelSequence
pub mod Compression
pub mod Credits
pub mod Lease
pub mod LeaseTable
pub mod LockSequence
pub mod Locks
pub mod Message
pub mod OpenIndex
pub mod Oplock
pub mod Sharing
pub mod Transfer
pub mod Wildcard
