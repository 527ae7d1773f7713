-- ===== src/Lib.antt =====
-- UniCAS verification library: a content-addressed store of immutable nodes, whose nodes live as
-- long as leases, parents or Root Refs hold them.
--
-- The parts of the program and the files that model them:
-- - packages/codec: the canonical node format. Codec/Binary (binary.ts: encodeHeader, decodeHeader,
--   concatenateNodeBytes, parseNodeBytes), Codec/Validation (validation.ts), Codec/Digest
--   (digest.ts: computeNodeDigest, hashToHex, hexToHash) and Codec/Stream (canonical-stream.ts: the
--   cursor over the chunks of a source, parseCanonicalNodeStream, the replayed body). Bytes are
--   lists of numbers, an error is a constructor of CodecError, and a stream is the list of the
--   chunks that its reader yields.
-- - packages/service-cloudflare/src/schema.ts: Store and Store/Keys, the tables as association
--   lists by their primary keys and the objects of the bucket.
-- - packages/service/src/root-refs.ts: RootRefs/Types and RootRefs/Apply, applyRootRefsUpdate over
--   a repository, which is a record of its operations on a state, and RootRefs/Retry.
-- - packages/service-cloudflare/src/root-refs.ts and root-cutover.ts: RootRefs/Adapter, that
--   repository over the tables. A batch is one transaction. It yields no store when a statement
--   violates a constraint, and `executeRootRefsUpdate` is the one over the other.
-- - packages/service/src/node-read.ts: NodeRead, the range of a request and the read of a content
--   over a repository.
-- - packages/service/src/gc.ts: Gc, the collection over a repository, and
--   packages/service-cloudflare/src/node-gc.ts: Gc/Adapter, that repository over the tables.
-- - packages/service/src/node-lease.ts and node-errors.ts: NodeLease, the length of a lease and its
--   renewal; NodeLease/Types, the records and the repositories; NodeLease/Ready (leaseReadyNode),
--   NodeLease/Canonical (the upload in three steps and leaseCanonicalNode), NodeLease/Direct
--   (prepareCanonicalNodeUpload, admitCanonicalNodeUploadFinalization), NodeLease/Driven and
--   NodeLease/Upload (leaseDrivenNodeUpload and its helpers). Such code is an Exec of Base/Exec: it
--   passes on a state and may throw, and what it wrote before it threw stays.
-- - packages/service-cloudflare/src/node-lease.ts: NodeLease/Adapter, those repositories over the
--   tables and the bucket, with Adapter/Commit, Adapter/Uploads and Adapter/Cleanup.
-- - packages/service/src/node-usage.ts: NodeUsage, the usage of a Space, and
--   packages/service-cloudflare/src/node-usage.ts: NodeUsage/Adapter, its repository over the tables.
-- - packages/service/src/app-gc.ts: AppGc, the collection of the Spaces of an App, page by page.
-- - Graph relates these parts: the nodes with their child counts, the edges and the objects that
--   uploads write and collections delete. Graph/Reach has the steps of the whole store.
-- The Root Ref update reads the node rows, which the codec's hash texts name; it moves their root
-- counts, which the collection reads together with leases and reservations. An upload checks its
-- bytes with the codec's stream parser before it writes a row, the edges and the child counts. A
-- content is read from the canonical bytes that the codec lays out.
--
-- What is a parameter: TextEncoder and TextDecoder (TextCoding, with their behaviour on printable
-- ASCII) and SHA-256 (Digester, 32 bytes) in Codec/Host. What the bucket yields for a range is a
-- hypothesis on the repository of a read, and the order of the rows of a query without ORDER BY is
-- a parameter of the collection. The collection of an App takes the actors of its Spaces, the query
-- for them and the text of a cursor (btoa and JSON) as parameters. The bucket of the uploads
-- (Bucket) yields bytes in chunks that concatenate to them, and may compare a checksum before or
-- after it finds that a key is there. A JavaScript string is the list of its UTF-16 code units. A
-- number that a 64-bit read returns is rounded as JavaScript does (number_of_u64); widths of 16, 32
-- and 64 bits wrap around as the DataView writes them.
--
-- Loops are structural recursion on lists and counts, and two recur on fuel. The retry loop has one
-- round more than the greatest number of attempts: RootRefs/Retry has that its answer is always that
-- of an attempt. The passes over one Space in AppGc have the greatest number of nodes, which each
-- pass but the last lowers: AppGc/Fuel has that it is enough.
--
-- What is not modelled: the usage of an App, accounts, HTTP routing, the command line, the web UI,
-- tracing and the clients. Of the Root Refs the canonicalization of a request body; of the leases
-- parseLeaseDuration, which reads a number by the JavaScript grammar. Statements of one batch run
-- alone, and the operations on a Space run one after the other, as the mutation gate of space-do.ts
-- runs them. The upload in three steps is one operation here, while space-do.ts stores the body of
-- its second step outside the gate, where other operations may come between. The bucket and the
-- database fail only where a checksum or a constraint does.
pub mod Base
pub mod Codec
pub mod Store
pub mod RootRefs
pub mod NodeRead
pub mod Gc
pub mod Graph
pub mod NodeLease
pub mod NodeUsage
pub mod AppGc
pub mod Tests
