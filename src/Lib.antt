-- ===== src/Lib.antt =====
-- A key-value database on raw flash for Zephyr: verification of its lower layers.
--
-- The program is layered. blob_db (lib/blob_db/blob_db.c) keeps blobs, numbered by 64-bit ids, in
-- the erase blocks ("buckets") of a flash partition: each bucket is a log of slots, an id lives in
-- the bucket of its remainder, and the newest intact slot of an id is its value. Above it, rootreg
-- (lib/rootreg/rootreg.c) keeps in blob 1 the table from 64-bit keys to the root blobs of
-- containers; containers (lib/containers/) and kvdb (lib/kvdb/kvdb.c) build on both.
--
-- Base       helpers: tests on numbers, lists, integers as little-endian bytes, return codes.
-- BlobDb     what the layers above rely on from include/app/lib/blob_db.h, as a record of
--            operations and laws, and a store in RAM that keeps the laws.
-- Rootreg    lib/rootreg/rootreg.c, every operation, over a BlobDb. Its children follow the code:
--            Image (the struct and its bytes), Load (rr_load), Lookup (rootreg_get and
--            rootreg_iterate), Change (rr_store), Set, Create, Unregister, Boot (rootreg_init).
-- BucketLog  lib/blob_db/blob_db.c, one bucket as the bytes of its sector: slot_walk_at,
--            slot_foreign_at, slot_superseded, build_compacted_image; Header has bucket_hdr_valid
--            and compaction_may_drop_tail. The children Walk, Compact, Reparse and Rebuild relate
--            the loops to the list of the slots of the log.
-- Scan       the same file, the lookup that reads slot headers from flash: scan_bucket_for,
--            slot_crc_ok_on_flash, slot_verify, walk_live_slot.
-- Append     the same file, append_slot2 and append_slot.
-- Iterate    the same file, for_each_live_slot, count_impl and iterate_impl.
-- Compaction the same file, the seal of the scratch sector, compact_commit and compact_bucket, and
--            the recovery at mount, over a backend of sectors. Window follows the commit through
--            every point where it can stop, and Restore the recovery.
-- Point      the same file, get_impl, size_impl, exists_impl, update_impl and delete_impl with
--            format_bucket and the cursors, over Compaction's backend. Nor is flash that does not
--            fail; Lookup, Update, Format and Delete are about it, and Compact about any flash.
-- SlotIndex  lib/blob_db/blob_db_slot_index.c, every operation. Cyclic, Tally and Probe are about the
--            cells, Gap about the backward shift, Table, Put, Remove and Forget about the table as
--            a map, and Track, Note, Learn and Start about the logs that it stands for.
-- Kvhash     lib/containers/kvhash/kvhash.c over a BlobDb. The code: Geometry (derive_geometry, over
--            a size_t of w bits), Bucket and Walk (bkt_entry and the packed entries), Dir (the
--            directories, one or two levels of them), Find (bkt_find and ent_value), Ops (create,
--            stat, get and del), Set, Next, Count and Destroy. The proofs: Replace takes an entry
--            out; Visits, Hit, Lookup and Get follow a search to the binding that it finds; Atomic
--            and SetErr are about a set that fails; Apart (different keys, blobs of their own), Ids,
--            Stage, Steps, Commit, Settle, Settled, Old, InPlace and SetOk about one that succeeds,
--            and SetGet about the get behind it; DelOk about del, Counted about count, Release
--            and Gone about destroy.
-- Kvdb       lib/kvdb/kvdb.c, every operation, over a BlobDb and the operations of a map container
--            (struct map_ops), in the build with kvhash as the only provider.
-- Samples    concrete buckets on which the theorems about blob_db.c are applied.
--
-- Correspondence. A buffer is a list of bytes, and an offset in a bucket a number. Zephyr's
-- CRC functions, the sector size, the write alignment and the payload cap are the record
-- Geometry. The store backend (blob_db_store_*) is a parameter: `read off n` and `write off bytes`
-- of one bucket, or the record Backend. Compaction.Window.Keeps says what is asked of it: a failed
-- operation may leave any bytes in its own sector and none elsewhere, which is also what a power
-- cut does. Point.Nor.Nor is the stronger law of flash whose operations succeed.
-- The contract BlobDb says of a change that failed what blob_db.h does and compact_commit adds: it
-- took effect or it did not, and where compaction failed with the bucket erased, ids of the bucket
-- are not found until the next mount restores them, and the store is wedged (`st.wedged`).
-- Point.Compact follows blob_db.c there.
-- Functions that write through a pointer return what they write; a negative errno is `err`.
-- blob_db.c is modelled in the build without CONFIG_BLOB_DB_LARGE_PAYLOADS and
-- CONFIG_BLOB_DB_SLOT_INDEX, in which the slot index's functions are empty and answer nothing; the
-- slot index itself is SlotIndex, over capacities up to 2 ^ 16, which its 16-bit counts can hold.
--
-- Loops. A walk over slots takes `peb_size` as fuel, since a slot is at least 14 bytes long and
-- lies within the sector. A lookup that falls back below a rotten slot has one round more than
-- `peb_size`, since the limit decreases. The streamed CRC has a round for each byte of the payload.
-- The slot index's loops have the rounds of the source, a round for each cell for the backward
-- shift, and two for each cell for the sweep of a bucket. The loop for the side of
-- a square of buckets has a round for each bucket, and bkt_entries one for each byte, as every walk
-- over a bucket has. A key is compared in the number of chunks that its length makes. Where a loop
-- answers an Option, none stands for the rounds that ran out.
--
-- Not modelled: mounting, whole-store formatting, the allocation of ids and the master log of
-- blob_db, its reads and writes of a range, large payloads, the store backends and the shell
-- (Zephyr glue), the rest of the containers and blobfs.
pub mod Base
pub mod BlobDb
pub mod Rootreg
pub mod BucketLog
pub mod Scan
pub mod SlotIndex
pub mod Append
pub mod Iterate
pub mod Compaction
pub mod Point
pub mod Kvhash
pub mod Kvdb
pub mod Samples
