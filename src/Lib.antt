-- ===== src/Lib.antt =====
-- A model of gbf-core, the backup library of Ginkgo Backup, and the theorems that make it correct.
--
-- gbf-core scans a source tree, leaves out what the ignore rules exclude, stores file contents as
-- encrypted blobs in a blob store, slowed down by a rate limiter, and describes each snapshot by a
-- manifest. The parts and the files that model them:
--
-- Base: what the parts share. Tests on numbers, lists, results with an error, byte strings with the
-- big-endian words of encoding/binary (Base/Bytes), int64 with its wrap (Base/Int64), and what the
-- source uses of strings and path/filepath (Base/Text, on ASCII white space and letters).
--
-- Crypto: simple/crypto.go. `encrypt` and `decrypt` are Encryptor.Encrypt and Decryptor.Decrypt with
-- the functions they call, for the formats GB1, GB2 and GB3; Crypto/Header is the GB3 header and
-- Crypto/Envelope the GKM1 envelope of a manifest. AES-GCM, zstd, HKDF and crypto/rand are parameters
-- (Crypto/Aead states what is asked of them). A slice out of range is the error `panic`. The sampling
-- of an IV in newSmallBlobIV runs on fuel, of which one read that is no chunk count is enough.
--
-- Ratelimit: ratelimit/ratelimit.go. The methods of Limiter are functions on its state; what runs
-- between the rounds of a waiter is an explicit list of events. The limited reader and writer are not
-- modelled.
--
-- Fsutil: fsutil/ignore.go. Merging and splitting patterns, size filters, MatchPattern with
-- matchGlobstar, IsExcluded and ShouldSkipDir. path.Match and the case rule of the platform are
-- parameters. MatchPattern runs on fuel: the length of the pattern and one, which is enough, since
-- each nested call is made on a shorter pattern.
--
-- Manifest: simple/manifest.go and simple/manifest_validate.go. A manifest holds its directories as a
-- list of entries, in place of a Go map; `add_file` and `add_empty_dir` are AddFile and AddEmptyDir,
-- Manifest/CloudId is validateCloudID, and Manifest/Validate is Validate with ValidateStructure and
-- the completeness of a snapshot. Sizes are integers of int64. Nil pointers, which only foreign JSON
-- can bring, are not modelled.
--
-- Store: simple/local_store.go. The store has its files as a map from paths to contents and the
-- exists cache; each operation is given which calls of the operating system fail. The base directory
-- is clean, as filepath.Join leaves it. Store/Batch is ExistsBatch. Listing, warming the cache, streams and the locks are not modelled: an
-- operation runs alone. Store/View is the map from hashes to contents that a store shows.
--
-- Blob: simple/hash.go. `upload_blob` and `download_blob` are UploadBlob and DownloadBlob over Store and
-- Crypto; SHA-256 and the zstd decompressor are parameters, IsCompressed is that of compress/zstd.go.
--
-- Disk: fsutil/fileio.go, fsutil/fileio_other.go and fsutil/commit_noreplace_other.go. A disk is a map
-- from paths to contents; each operation is given which calls of the operating system fail and what
-- a torn write leaves. Directories are no files of it.
--
-- Keys: simple/keys.go. The GEK1 key file, its unlock, the protection mode and the migration of a legacy
-- file. Argon2id, JSON and base64 are parameters.
--
-- Persist: the files of simple/manifest.go. Persist/Load is LoadManifest with its migration,
-- Persist/Save is SaveManifestWithKey with its eight retries, Persist/Registry the source
-- registries, Persist/Listing the search for the newest manifest and Persist/Trash the deletion and the
-- trash. SHA-256, zstd, JSON and the time formats are parameters. What a directory holds is given as a
-- list of entries.
--
-- Stream: simple/stream.go. Stream/Encode is encryptFileToWriter, Stream/Decode the three streaming
-- decoders and Stream/Files UploadBlobFromPath and DownloadBlobToFile, over Store, Crypto and
-- Disk. A reader is the bytes that it gives and whether it ends with an error; buffers are not modelled.
--
-- Not modelled: the pipeline and restore, compression codecs, the AES wrapper, the Windows variants of
-- the file operations, cleaning and listing the trash, initialising a repository, its configuration,
-- progress and format detection, the demo and the tools: they call what is modelled here, the
-- operating system or other packages. The limited reader and writer wrap other readers.
pub mod Base
pub mod Crypto
pub mod Ratelimit
pub mod Fsutil
pub mod Manifest
pub mod Store
pub mod Disk
pub mod Keys
pub mod Persist
pub mod Blob
pub mod Stream
