-- ===== src/Kvhash/Ops.antt =====
-- lib/containers/kvhash/kvhash.c: create, stat, get and del of kvhash_map_ops, without the test
-- hooks, so that kv_update and kv_delete are blob_db_update and blob_db_delete, and with a size_t
-- of 32 bits. `none` for a key is a null pointer, and for a value a null pointer with a length other
-- than 0.
use key_value_db.Base.{
  ℕ, zero, suc, ◌*◌, Bool, not, ◌||◌, Option, none, some, List, ltb, leb, ◌==◌, if◌then◌else◌,
  length, Errno, enoent, eio, einval, enospc, Result, ok, err, Exec, ◌>>=◌, ◌>>◌, return, fail,
}
use key_value_db.BlobDb.{BlobDb, BlobReads}
use key_value_db.Kvdb.{MapConfig}
use key_value_db.Kvhash.{MapGeometry, derive_geometry, entry_limit}
use key_value_db.Kvhash.Bucket.{ent_spill}
use key_value_db.Kvhash.Replace.{cut_entry}
use key_value_db.Kvhash.Dir.{
  Dir, Leaf, dir_child, dir_set_child, dir_format, dir_load, resolve_leaf,
}
use key_value_db.Kvhash.Find.{Visit, bkt_find, ent_value, ent_key_id, ent_val_id, hash_fp}

-- struct map_info
pub record MapInfo : Type 0 where
  pub depth : ℕ
  pub fanout : ℕ
  pub buckets : ℕ
  pub entry_bytes_limit : ℕ

-- an error runs the handler, and comes back
abbrev pub handle {ℓ} : {S : Type ℓ} {A : Type 0} → Result A → (S → S) → Exec S A
handle (ok a) undo s = (ok a, s)
handle (err e) undo s = (err e, undo s)

abbrev pub on_error {ℓ} : {S : Type ℓ} {A : Type 0} → Exec S A → (S → S) → Exec S A
on_error m undo s = let (r, s') = m s in handle r undo s'

-- a step that cannot fail
abbrev pub finally {ℓ} : {S : Type ℓ} → (S → S) → Exec S (Unit {0})
finally f s = (ok tt, f s)

-- the key's length as every operation but set rejects it
abbrev pub checked_key : Option (List ℕ) → Result (List ℕ)
checked_key none = err einval
checked_key (some key) =
    if length key == 0 || ltb 0xffff (length key)
    then err einval
    else if leb ent_spill (length key)
    then err enoent
    else ok key

abbrev pub set_lengths : List ℕ → List ℕ → Result (List ℕ × List ℕ)
set_lengths key val =
    if length key == 0 || (ltb 0xffff (length key) || ltb 0xffff (length val))
    then err einval
    else if leb ent_spill (length key) || leb ent_spill (length val)
    then err enospc
    else ok (key, val)

abbrev pub checked_pair : Option (List ℕ) → Option (List ℕ) → Result (List ℕ × List ℕ)
checked_pair (some key) (some val) = set_lengths key val
checked_pair (some key) none = err einval
checked_pair none val = err einval

module _ (db : BlobDb) (max_payload : ℕ) where
  open db use {Store, alloc_id, get, update, delete}

  -- blob_db_alloc_id, where 0 is the given error
  unfoldable pub fresh_id : Errno → Exec Store ℕ
  fresh_id e s = let (id, s') = alloc_id s in if id == 0 then (err e, s') else (ok id, s')

  -- a failure is logged, and nothing else
  unfoldable pub release_part : ℕ → Store → Store
  release_part id s = if id == 0 then s else (delete id s).1

  -- the sub-maps from the `i`-th on, `k` of them, into the top directory
  unfoldable pub create_subs : ℕ → ℕ → ℕ → List ℕ → Exec Store (List ℕ)
  create_subs zero n_sub i dir = return dir
  create_subs (suc k) n_sub i dir = fresh_id enospc >>= λ sub.
      update sub (dir_format n_sub 1) >> create_subs k n_sub (suc i) (dir_set_child dir i sub)

  unfoldable pub create_as : ℕ → MapGeometry → Exec Store (Unit {0})
  create_as root g =
      if g.depth == 1
      then update root (dir_format g.n_top 1)
      else (create_subs g.n_top g.n_sub 0 (dir_format g.n_top 2) >>= update root)

  abbrev pub create_if : ℕ → Result MapGeometry → Exec Store (Unit {0})
  create_if root (err e) = fail e
  create_if root (ok g) = create_as root g

  -- none when the rounds of derive_geometry run out
  unfoldable pub kvhash_create : ℕ → MapConfig → Option (Exec Store (Unit {0}))
  kvhash_create root cfg = elim (derive_geometry 32 max_payload cfg) [
    | none ↦ none
    | some r ↦ some (create_if root r)
  ]

  abbrev pub info_of : Dir → Result Dir → Result MapInfo
  info_of top (err e) = err e
  info_of top (ok sub) = ok record {
    depth = 2;
    fanout = top.n;
    buckets = top.n * sub.n;
    entry_bytes_limit = entry_limit 32 max_payload;
  }

  abbrev stat_of : Store → Result Dir → Result MapInfo
  stat_of s (err e) = err e
  stat_of s (ok top) =
      let sub = dir_child top.bytes 0 in
      if top.depth == 1
      then ok record {
        depth = 1;
        fanout = 0;
        buckets = top.n;
        entry_bytes_limit = entry_limit 32 max_payload;
      }
      else if sub == 0
      then err eio
      else info_of top (dir_load db max_payload s sub)

  -- `out` says whether there is a struct to fill
  unfoldable pub kvhash_stat : Store → ℕ → Bool → Result MapInfo
  kvhash_stat s root out =
      if not out then err einval else stat_of s (dir_load db max_payload s root)

module _ (db : BlobDb) (reads : BlobReads db) (crc32 : List ℕ → ℕ) (max_payload : ℕ) where
  open db use {Store, get, update, delete}

  -- the entry of a key in the payload of its bucket
  abbrev pub found_in : Store → List ℕ → Result (List ℕ) → Result (List ℕ × Visit)
  found_in s key (err e) = err e
  found_in s key (ok buf) =
      elim (bkt_find db reads max_payload s buf key (hash_fp crc32 (crc32 key))) [
        | err e ↦ err e
        | ok v ↦ ok (buf, v)
      ]

  -- the id of the bucket, the payload, and the entry
  abbrev pub in_leaf : Store → List ℕ → Result Leaf → Result (ℕ × (List ℕ × Visit))
  in_leaf s key (err e) = err e
  in_leaf s key (ok leaf) =
      let bid = dir_child leaf.dir.bytes leaf.idx in
      if bid == 0
      then err enoent
      else elim (found_in s key (get s bid max_payload)) [ err e ↦ err e | ok hit ↦ ok (bid, hit) ]

  -- what get and del do first
  unfoldable pub locate : Store → ℕ → Option (List ℕ) → Result (ℕ × (List ℕ × Visit))
  locate s root key = elim (checked_key key) [
    | err e ↦ err e
    | ok k ↦ in_leaf s k (resolve_leaf db max_payload s root (crc32 k))
  ]

  unfoldable pub kvhash_get : Store → ℕ → Option (List ℕ) → ℕ → Result (List ℕ)
  kvhash_get s root key out_sz = elim (locate s root key) [
    | err e ↦ err e
    | ok (bid, (buf, v)) ↦ ent_value db reads max_payload s buf v.ent out_sz
  ]

  -- the bucket without the entry, and then its blobs
  unfoldable pub del_at : ℕ → List ℕ → Visit → Exec Store (Unit {0})
  del_at bid buf v =
      update bid (cut_entry buf v.off v.ent)
      >> finally (λ s.
        release_part db max_payload (ent_val_id buf v.ent)
          (release_part db max_payload (ent_key_id buf v.ent) s))

  unfoldable pub kvhash_del : ℕ → Option (List ℕ) → Exec Store (Unit {0})
  kvhash_del root key s = elim (locate s root key) [
    | err e ↦ (err e, s)
    | ok (bid, (buf, v)) ↦ del_at bid buf v s
  ]
