-- ===== src/Lib.antt =====
-- cerclbackup: the verification library of the peer-to-peer backup program cerclbackup.
--
-- The program. A file is cut into chunks (internal/chunker), each chunk is compressed
-- (internal/compress), split into data and parity shards (internal/codec), encrypted
-- (internal/crypto) and stored (internal/storage); the shards go to buddies over framed
-- messages (pkg/wire), and the manifest (internal/manifest) remembers every version of every
-- file. The pipelines of backup, restore and maintenance (internal/api) compose these parts. A
-- buddy keeps the shards of others in its store (internal/buddy); what an offline buddy could
-- not take waits in a queue (internal/p2p/queue.go); a node becomes a buddy by an invite token
-- (internal/invite). The choice of the Reed-Solomon scheme stands with the shared types in
-- pkg/protocol.
--
-- The files.
--   Prelude     shared helpers: Boolean tests and equality (Tests), lists (Lists), association
--               lists for Go maps (Maps), results (Outcome).
--   Io          io.Reader and io.Writer: a stream that ends or breaks, a sink with or without a
--               limit; io.ReadFull.
--   Disk        one file, read and written whole.
--   Files       a tree of files under filepath.Join and the calls of os: Decimal is strconv.Itoa,
--               Paths says what Join does to plain names, Access what writes and removals change.
--   Chunker     internal/chunker/chunker.go: ChunkFile, ChunkReader, Reassemble, VerifyChunk.
--   Protocol    pkg/protocol/messages.go: RSScheme, BestScheme, ShardLocation, ManifestEntry.
--   Codec       internal/codec/reedsolomon.go: Encode, SplitChunkToShards, MergeShardToChunk.
--               Coder states what the library klauspost/reedsolomon promises, SumCode is a coder
--               that keeps those promises.
--   Wire        pkg/wire/framing.go: WriteMsg, ReadRawMsg, ReadMsg.
--   Manifest    internal/manifest/manifest.go: Upsert, Latest, ListVersions, PruneVersions,
--               selectVersionsToKeep (Retention), Load and Save (Persist).
--   Queue       internal/p2p/queue.go: Enqueue and FlushToPeer.
--   Invite      internal/invite/generator.go: Generate, Consume, AddCommitment, ConsumeCommitment,
--               TokenFromMnemonic.
--   BuddyStore  internal/buddy/store.go: shardPath, Put, Get, PutWithHash, Verify, DeleteOwner,
--               the manifests of buddies.
--   Registry    internal/buddy/registry.go: Add, UpdateAddrs, Remove, Get, IsKnown, List.
--   Handlers    internal/p2p/handler.go, over the messages of pkg/wire/messages.go (Messages):
--               checkBuddyAuth (Auth), handlePull, handleShard and handleManifest (Access),
--               handleInvite (Joining), with the buddy store, the registry and the invites of
--               one node.
--   Circle      internal/circle/circle.go: List, Get, GetOrDefault, Add, Remove, over the
--               extra in the keystore's memory and the one in its file.
--   Scrub       internal/scrub/scrub.go: RunOnce and revive over the buddy store.
--   Hex         encoding/hex, as identifiers and hashes are printed and read.
--   Compress    internal/compress/compress.go: Compress, Decompress, MaybeDecompress.
--   Crypto      internal/crypto/encryptor.go: DeriveFileKey, DeriveShardKey, Encrypt, Decrypt,
--               EncryptShard, DecryptShard.
--   Storage     internal/storage/store.go: the own shards and their metadata. Refinement states the
--               store as a map.
--   Backup      internal/api/backup.go: backupOneFile up to the delivery. Tools holds what it calls
--               outside the program.
--   Restore     internal/api/restore.go: Restore, over the store, the buddies and the manifest.
--               Chunks, Groups and Recovery follow a backup's shards back to the content.
--   Maintenance internal/api/maintenance.go: Audit, Prune, Storage, Diff.
--   Keystore    internal/crypto/keystore.go: Create, Unlock, Save, StoreExtra, LoadExtra.
--   Watcher     internal/watcher/watcher.go: the loop of run and its timers. Steps is the relation
--               of all interleavings.
--   Sender      internal/p2p/sender.go and internal/manifdist/manifdist.go: the client's side of the
--               handlers' protocols, over Wire.
--   BuddyPush   internal/api/backup.go: pushToBuddies, over Queue and Sender.
--   Rebalance   internal/rebalance/rebalance.go: Run, over Storage and Sender.
--   Transfer    internal/api/data.go: what Export packs and Import stores.
--
-- How the code is modelled. State is passed explicitly: an operation takes the state and returns
-- its result and the new state, on the error branches too. Maps are association lists whose keys
-- are distinct; where the code ranges over a map the order is arbitrary and the statements do not
-- depend on it. Times are natural numbers of nanoseconds. Numbers of shards, sizes and versions are
-- natural numbers; the length header of a frame keeps its wrap-around at 32 bits, and the days of a
-- retention policy, as nanoseconds, theirs at 64 bits with the sign. A mutex makes an
-- operation one step, except in FlushToPeer, which lets it go.
--
-- Bounds and fuel. ChunkReader's loop runs on fuel: one more than the length of the stream, which is
-- enough for every chunk size above zero because each round reads a byte at least. The digits of a
-- number are made with as many rounds as the number plus one. The rounds of a scrub pass are those
-- before its context is cancelled, any number of them.
--
-- Parameters. sha256, encoding/json, AES-GCM, HKDF, Argon2, zstd, the Reed-Solomon coder, the ISO
-- week and the month of a time, the streams of libp2p, the system's randomness and the clock are
-- arguments; what is relied on is a named hypothesis. In Queue, PushShard is an argument too.
--
-- Not modelled. The command line, the GUI, libp2p's transport and discovery, the opening of the
-- keystore, manifest and store at the start of each call of internal/api, the check in Restore that
-- an output path and a password are given, the walk over a
-- directory in a backup, and the text of log and error messages. It is assumed that a write
-- that fails leaves its file as it was, and that a removal of a directory that fails leaves the files
-- in it; what a failed removal leaves is in no result.
pub mod Prelude
pub mod Io
pub mod Chunker
pub mod Protocol
pub mod Disk
pub mod Codec
pub mod Wire
pub mod Manifest
pub mod Queue
pub mod Invite
pub mod Files
pub mod BuddyStore
pub mod Registry
pub mod Handlers
pub mod Circle
pub mod Scrub
pub mod Compress
pub mod Crypto
pub mod Storage
pub mod Hex
pub mod Backup
pub mod Restore
pub mod Maintenance
pub mod Watcher
pub mod Keystore
pub mod Sender
pub mod BuddyPush
pub mod Rebalance
pub mod Transfer
