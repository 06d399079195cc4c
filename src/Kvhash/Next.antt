-- ===== src/Kvhash/Next.antt =====
-- lib/containers/kvhash/kvhash.c: kvhash_next, the walk over the keys in their order. Offsets in a
-- bucket stand for the entries that were visited there, which bkt_entry reads again.
use key_value_db.Base.{
  ℕ, zero, suc, ◌+◌, ◌-◌, Bool, true, false, not, ◌||◌, Option, none, some, List, [], ◌∷◌, ltb,
  ◌==◌, if◌then◌else◌, length, enodata, enomem, einval, Result, ok, err,
}
use Prim.Native.Nat.{compare, Ordering}
use key_value_db.BlobDb.{BlobDb, BlobReads}
use key_value_db.Kvhash.Bucket.{Ent}
use key_value_db.Kvhash.Dir.{Dir, idx_top, idx_sub, dir_child, dir_load, sub_load, top_child}
use key_value_db.Kvhash.Find.{
  Visit, visits, KeySrc, in_ram, hash_fp, ent_fp, ent_key, key_chunk, key_cmp_bytes, ent_value,
}

-- struct okey
pub record Okey : Type 0 where
  pub kl : ℕ
  pub fp : ℕ
  pub src : KeySrc

-- an entry and the bucket that it stands in
pub record Found : Type 0 where
  pub buf : List ℕ
  pub visit : Visit

abbrev pub is_gt : Ordering → Bool
is_gt Ordering.lt = false
is_gt Ordering.eq = false
is_gt Ordering.gt = true

abbrev pub is_lt : Ordering → Bool
is_lt Ordering.lt = true
is_lt Ordering.eq = false
is_lt Ordering.gt = false

abbrev pub tested : (Ordering → Bool) → Result Ordering → Result Bool
tested test (err e) = err e
tested test (ok o) = ok (test o)

abbrev pub first_of : Option Visit → Result Visit
first_of none = err enodata
first_of (some v) = ok v

module _ (db : BlobDb) (reads : BlobReads db) (crc32 : List ℕ → ℕ) (max_payload : ℕ) where
  open db use {Store, get}

  unfoldable pub okey_cmp : Store → Okey → Okey → Result Ordering
  okey_cmp s a b =
      if not (a.kl == b.kl)
      then ok (compare a.kl b.kl)
      else if not (a.fp == b.fp)
      then ok (compare a.fp b.fp)
      else key_cmp_bytes db reads max_payload s a.src b.src a.kl false

  abbrev pub ent_okey : List ℕ → Ent → Okey
  ent_okey buf e = record { kl = e.kl; fp = ent_fp crc32 buf e; src = ent_key buf e }

  -- whether the entry sorts after the cursor
  abbrev pub is_after : Store → Okey → Option Okey → Result Bool
  is_after s k none = ok true
  is_after s k (some cursor) = tested is_gt (okey_cmp s k cursor)

  -- whether it sorts before the best so far
  abbrev pub is_better : Store → List ℕ → Okey → Option Visit → Result Bool
  is_better s buf k none = ok true
  is_better s buf k (some best) = tested is_lt (okey_cmp s k (ent_okey buf best.ent))

  abbrev pub chosen : Visit → Option Visit → Result Bool → Result (Option Visit)
  chosen v best (err e) = err e
  chosen v best (ok b) = ok (if b then some v else best)

  abbrev pub weighed : Store → List ℕ → Visit → Option Visit → Result Bool → Result (Option Visit)
  weighed s buf v best (err e) = err e
  weighed s buf v best (ok false) = ok best
  weighed s buf v best (ok true) = chosen v best (is_better s buf (ent_okey buf v.ent) best)

  unfoldable pub first_in : Store → List ℕ → Option Okey → List Visit → Option Visit → Result Visit
  first_in s buf cursor [] best = first_of best
  first_in s buf cursor (v ∷ vs) best =
      elim (weighed s buf v best (is_after s (ent_okey buf v.ent) cursor)) [
        | err e ↦ err e
        | ok best' ↦ first_in s buf cursor vs best'
      ]

  unfoldable pub bkt_first_after : Store → List ℕ → Option Okey → Result Visit
  bkt_first_after s buf cursor = first_in s buf cursor (visits buf) none

  -- -ENODATA goes on to the next bucket
  abbrev pub found_in_bucket : List ℕ → Result Visit → Result (Option Found)
  found_in_bucket buf (ok v) = ok (some record { buf = buf; visit = v })
  found_in_bucket buf (err enodata) = ok none
  found_in_bucket buf (err e) = err e

  abbrev pub bucket_read : Store → Option Okey → Result (List ℕ) → Result (Option Found)
  bucket_read s cursor (err e) = err e
  bucket_read s cursor (ok buf) = found_in_bucket buf (bkt_first_after s buf cursor)

  abbrev pub bucket_first : Store → ℕ → Option Okey → Result (Option Found)
  bucket_first s bid cursor =
      if bid == 0 then ok none else bucket_read s cursor (get s bid max_payload)

  -- `k` buckets from the `i`-th on, of which the cursor applies to the first
  unfoldable pub leaf_first_after : Store → List ℕ → ℕ → ℕ → Option Okey → Result Found
  leaf_first_after s bytes zero i cursor = err enodata
  leaf_first_after s bytes (suc k) i cursor = elim (bucket_first s (dir_child bytes i) cursor) [
    | err e ↦ err e
    | ok (some found) ↦ ok found
    | ok none ↦ leaf_first_after s bytes k (i + 1) none
  ]

  -- the bucket of the cursor in a leaf directory of `n` buckets
  abbrev pub start_sub : Option Okey → ℕ → ℕ → ℕ
  start_sub none ch n = 0
  start_sub (some cursor) ch n = idx_sub ch n

  abbrev pub start_top : Option Okey → ℕ → ℕ → ℕ
  start_top none ch n = 0
  start_top (some cursor) ch n = idx_top ch n

  abbrev pub leaf_from : Store → Option Okey → ℕ → Dir → Result Found
  leaf_from s cursor ch d =
      let start = start_sub cursor ch d.n in leaf_first_after s d.bytes (d.n - start) start cursor

  -- -ENODATA goes on to the next sub-map
  abbrev pub found_in_leaf : Result Found → Result (Option Found)
  found_in_leaf (ok found) = ok (some found)
  found_in_leaf (err enodata) = ok none
  found_in_leaf (err e) = err e

  abbrev pub search_leaf : Store → Option Okey → ℕ → Result Dir → Result (Option Found)
  search_leaf s cursor ch (err e) = err e
  search_leaf s cursor ch (ok d) = found_in_leaf (leaf_from s cursor ch d)

  abbrev pub search_sub : Store → Option Okey → ℕ → Result ℕ → Result (Option Found)
  search_sub s cursor ch (err e) = err e
  search_sub s cursor ch (ok sub) = search_leaf s cursor ch (sub_load db max_payload s sub)

  -- the sub-maps from `t` on, `k` of them: the first is named by the top directory as it was loaded,
  -- which is `first`, and the others by one re-read
  unfoldable pub tree_first_after : Store → ℕ → Result ℕ → ℕ → ℕ → Option Okey → ℕ → Result Found
  tree_first_after s root first zero t cursor ch = err enodata
  tree_first_after s root first (suc k) t cursor ch = elim (search_sub s cursor ch first) [
    | err e ↦ err e
    | ok (some found) ↦ ok found
    | ok none ↦ tree_first_after s root (top_child db max_payload s root (t + 1)) k (t + 1) none ch
  ]

  abbrev pub search_dir : Store → ℕ → Option Okey → ℕ → Result Dir → Result Found
  search_dir s root cursor ch (err e) = err e
  search_dir s root cursor ch (ok d) =
      let start = start_top cursor ch d.n in
      if d.depth == 1
      then leaf_from s cursor ch d
      else tree_first_after s root (ok (dir_child d.bytes start)) (d.n - start) start cursor ch

  abbrev pub with_key : Result (List ℕ) → Result (List ℕ) → Result (List ℕ × List ℕ)
  with_key (err e) val = err e
  with_key (ok key) (err e) = err e
  with_key (ok key) (ok val) = ok (key, val)

  -- the key and the value, into buffers of these sizes; the lengths are given where they are found
  abbrev pub hand_out : Store → ℕ → ℕ → Result Found → Result (List ℕ × List ℕ)
  hand_out s kout_sz vout_sz (err e) = err e
  hand_out s kout_sz vout_sz (ok f) =
      let e = f.visit.ent in
      if ltb kout_sz e.kl || ltb vout_sz e.vl
      then err enomem
      else with_key (key_chunk db reads max_payload s (ent_key f.buf e) 0 e.kl)
          (ent_value db reads max_payload s f.buf e vout_sz)

  abbrev pub cursor_of : List ℕ → Option Okey
  cursor_of key =
      if length key == 0
      then none
      else some record { kl = length key; fp = hash_fp crc32 (crc32 key); src = in_ram key }

  -- an empty key starts the walk; `none` for a buffer is a null pointer with a size other than 0
  abbrev pub next_into : Store → ℕ → List ℕ → Option ℕ → Option ℕ → Result (List ℕ × List ℕ)
  next_into s root key none vout = err einval
  next_into s root key (some kout_sz) none = err einval
  next_into s root key (some kout_sz) (some vout_sz) =
      hand_out s kout_sz vout_sz
        (search_dir s root (cursor_of key) (crc32 key) (dir_load db max_payload s root))

  unfoldable pub kvhash_next :
      Store → ℕ → Option (List ℕ) → Option ℕ → Option ℕ → Result (List ℕ × List ℕ)
  kvhash_next s root none kout vout = err einval
  kvhash_next s root (some key) kout vout =
      if ltb 0xffff (length key) then err einval else next_into s root key kout vout
