-- ===== src/Kvhash/Count.antt =====
-- lib/containers/kvhash/kvhash.c: kvhash_count, with a size_t of 32 bits. A bucket adds as many as a
-- walk over it visits.
use key_value_db.Base.{
  ℕ, zero, suc, ◌+◌, ◌%◌, ◌^◌, Bool, List, ◌==◌, if◌then◌else◌, length, einval, Result, ok, err,
}
use key_value_db.BlobDb.{BlobDb}
use key_value_db.Kvhash.Dir.{Dir, dir_child, dir_load, sub_load, top_child}
use key_value_db.Kvhash.Find.{visits}

module _ (db : BlobDb) (max_payload : ℕ) where
  open db use {Store, get}

  abbrev pub add_bucket : ℕ → Result (List ℕ) → Result ℕ
  add_bucket acc (err e) = err e
  add_bucket acc (ok buf) = ok ((acc + length (visits buf)) % 2 ^ 32)

  -- a bucket that was never written has no id
  abbrev pub add_child : Store → ℕ → ℕ → Result ℕ
  add_child s bid acc = if bid == 0 then ok acc else add_bucket acc (get s bid max_payload)

  -- the buckets from the `i`-th on, `k` of them, of the leaf directory in `bytes`
  unfoldable pub leaf_count : Store → List ℕ → ℕ → ℕ → ℕ → Result ℕ
  leaf_count s bytes zero i acc = ok acc
  leaf_count s bytes (suc k) i acc = elim (add_child s (dir_child bytes i) acc) [
    | err e ↦ err e
    | ok acc' ↦ leaf_count s bytes k (i + 1) acc'
  ]

  abbrev pub count_leaf : Store → ℕ → Result Dir → Result ℕ
  count_leaf s acc (err e) = err e
  count_leaf s acc (ok d) = leaf_count s d.bytes d.n 0 acc

  -- the first sub-map is named by the top directory as it was loaded, the others by one re-read
  abbrev pub count_sub : Store → ℕ → Result ℕ → Result ℕ
  count_sub s acc (err e) = err e
  count_sub s acc (ok sub) = count_leaf s acc (sub_load db max_payload s sub)

  abbrev pub sub_named : Store → ℕ → Dir → ℕ → Result ℕ
  sub_named s root top t =
      if t == 0 then ok (dir_child top.bytes 0) else top_child db max_payload s root t

  unfoldable pub tree_count : Store → ℕ → Dir → ℕ → ℕ → ℕ → Result ℕ
  tree_count s root top zero t acc = ok acc
  tree_count s root top (suc k) t acc = elim (count_sub s acc (sub_named s root top t)) [
    | err e ↦ err e
    | ok acc' ↦ tree_count s root top k (t + 1) acc'
  ]

  abbrev pub count_dir : Store → ℕ → Result Dir → Result ℕ
  count_dir s root (err e) = err e
  count_dir s root (ok d) =
      if d.depth == 1 then leaf_count s d.bytes d.n 0 0 else tree_count s root d d.n 0 0

  -- `out` says whether there is a place for the result
  unfoldable pub kvhash_count : Store → ℕ → Bool → Result ℕ
  kvhash_count s root out =
      if out then count_dir s root (dir_load db max_payload s root) else err einval
