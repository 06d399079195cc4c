-- ===== src/Kvhash/Set.antt =====
-- lib/containers/kvhash/kvhash.c: kvhash_set. `key_max` and `val_max` are the thresholds that
-- kvhash_set_inline_max sets.
use key_value_db.Base.{
  ℕ, ◌+◌, Bool, false, not, ◌&&◌, Option, List, [], ◌++◌, ltb, leb, ◌==◌, if◌then◌else◌, length,
  take, le_bytes, int_at, enoent, eio, enospc, Result, ok, err, Exec, ◌>>=◌, ◌>>◌, return, fail,
}
use key_value_db.BlobDb.{BlobDb, BlobReads}
use key_value_db.Kvhash.Bucket.{Ent, entry_hdr_len, key_part_len, val_part_len, entry_image}
use key_value_db.Kvhash.Replace.{cut_entry}
use key_value_db.Kvhash.Dir.{Leaf, dir_len, dir_child, dir_set_child, resolve_leaf}
use key_value_db.Kvhash.Find.{Visit, bkt_find, ent_key_id, ent_val_id, hash_fp}
use key_value_db.Kvhash.Ops.{on_error, finally, checked_pair, fresh_id, release_part}

-- the new entry: what is set, where it is placed and its fingerprint
pub record Fresh : Type 0 where
  pub key : List ℕ
  pub val : List ℕ
  pub kspill : Bool
  pub vspill : Bool
  pub fp : ℕ

-- what the old entry of the key names; both ids are 0 where there is none
pub record Old : Type 0 where
  pub kspill : Bool
  pub kid : ℕ
  pub vid : ℕ

abbrev pub no_old : Old
no_old = record { kspill = false; kid = 0; vid = 0 }

abbrev pub old_of : List ℕ → Ent → Old
old_of buf e = record { kspill = e.kspill; kid = ent_key_id buf e; vid = ent_val_id buf e }

-- the entry that is packed, with the ids of its blobs
unfoldable pub image_with : Fresh → ℕ → ℕ → List ℕ
image_with f kid vid =
    entry_image (length f.key) (length f.val) f.kspill f.vspill
      (if f.kspill then le_bytes 4 f.fp ++ le_bytes 8 kid else f.key)
      (if f.vspill then le_bytes 8 vid else f.val)

abbrev pub need_of : Fresh → ℕ
need_of f =
    entry_hdr_len + key_part_len f.kspill (length f.key) + val_part_len f.vspill (length f.val)

-- the blob that a spilled key keeps
abbrev pub kept_kid : Fresh → Old → ℕ
kept_kid f old = if f.kspill && old.kspill then old.kid else 0

module _ (db : BlobDb) (max_payload : ℕ) where
  open db use {Store, update}

  -- a blob of its own
  unfoldable pub bind_blob : List ℕ → Exec Store ℕ
  bind_blob p = fresh_id db max_payload eio >>= (λ id. update id p >> return id)

  -- the key's blob, and the one to release should the set fail
  unfoldable pub bind_key : Fresh → Old → Exec Store (ℕ × ℕ)
  bind_key f old =
      if f.kspill && kept_kid f old == 0
      then bind_blob f.key >>= (λ kid. return (kid, kid))
      else return (kept_kid f old, 0)

  unfoldable pub bind_val : Fresh → Exec Store ℕ
  bind_val f = if f.vspill then bind_blob f.val else return 0

  -- the bucket, and where it is a fresh one, the leaf directory that names it
  unfoldable pub commit_bucket : Leaf → ℕ → List ℕ → Exec Store (Unit {0})
  commit_bucket leaf bid bkt =
      if bid == 0
      then fresh_id db max_payload eio >>= (λ id.
        update id bkt
        >> update leaf.root (take (dir_len leaf.dir.n) (dir_set_child leaf.dir.bytes leaf.idx id)))
      else update bid bkt

  -- what only the old entry referenced
  unfoldable pub release_old : Old → ℕ → Store → Store
  release_old old kid s =
      release_part db max_payload old.vid
        (if old.kid == kid then s else release_part db max_payload old.kid s)

  -- with the key's blob bound
  unfoldable pub set_bound : Leaf → ℕ → List ℕ → Fresh → Old → ℕ → Exec Store (Unit {0})
  set_bound leaf bid bkt f old kid =
      bind_val f
      >>= (λ vid.
          on_error (commit_bucket leaf bid (bkt ++ image_with f kid vid))
            (release_part db max_payload vid))
      >> finally (release_old old kid)

  -- `bkt` is the bucket without the old entry
  unfoldable pub set_entry_in : Leaf → ℕ → List ℕ → Fresh → Old → Exec Store (Unit {0})
  set_entry_in leaf bid bkt f old =
      if ltb max_payload (length bkt + need_of f)
      then fail enospc
      else bind_key f old
        >>= (λ k. on_error (set_bound leaf bid bkt f old k.0) (release_part db max_payload k.1))

  -- a spilled value of the same length and placement is rewritten where it is
  unfoldable pub set_over : Leaf → ℕ → List ℕ → Fresh → Visit → Exec Store (Unit {0})
  set_over leaf bid buf f v =
      let vid = ent_val_id buf v.ent in
      if (if v.ent.kspill then f.kspill else not f.kspill)
        && (v.ent.vspill && (f.vspill && v.ent.vl == length f.val))
      then (if vid == 0 then fail eio else update vid f.val)
      else set_entry_in leaf bid (cut_entry buf v.off v.ent) f (old_of buf v.ent)

module _ (db : BlobDb) (reads : BlobReads db) (crc32 : List ℕ → ℕ) (max_payload : ℕ) where
  open db use {Store, get}

  abbrev pub set_found : Leaf → ℕ → List ℕ → Fresh → Result Visit → Exec Store (Unit {0})
  set_found leaf bid buf f (ok v) = set_over db max_payload leaf bid buf f v
  set_found leaf bid buf f (err enoent) = set_entry_in db max_payload leaf bid buf f no_old
  set_found leaf bid buf f (err e) = fail e

  abbrev pub set_read : Leaf → ℕ → Fresh → Result (List ℕ) → Exec Store (Unit {0})
  set_read leaf bid f (err e) s = (err e, s)
  set_read leaf bid f (ok buf) s =
      set_found leaf bid buf f (bkt_find db reads max_payload s buf f.key f.fp) s

  -- the entry placed
  unfoldable pub set_in : Leaf → Fresh → Exec Store (Unit {0})
  set_in leaf f s =
      let bid = dir_child leaf.dir.bytes leaf.idx in
      if f.kspill && ltb max_payload (length f.key)
      then (err enospc, s)
      else if bid == 0
      then set_entry_in db max_payload leaf 0 [] f no_old s
      else set_read leaf bid f (get s bid max_payload) s

  module _ (key_max val_max : ℕ) where
    -- the placement that the thresholds ask for, in a map whose version allows it
    unfoldable pub fresh_for : Leaf → List ℕ → List ℕ → Fresh
    fresh_for leaf key val =
        let can_spill = leb 3 (int_at 1 leaf.dir.bytes 6) in
        record {
          key = key;
          val = val;
          kspill = can_spill && ltb key_max (length key);
          vspill = can_spill && ltb val_max (length val);
          fp = hash_fp crc32 (crc32 key);
        }

    abbrev pub set_at : List ℕ → List ℕ → Result Leaf → Exec Store (Unit {0})
    set_at key val (err e) = fail e
    set_at key val (ok leaf) = set_in leaf (fresh_for leaf key val)

    abbrev pub set_checked : ℕ → Result (List ℕ × List ℕ) → Exec Store (Unit {0})
    set_checked root (err e) s = (err e, s)
    set_checked root (ok (key, val)) s =
        set_at key val (resolve_leaf db max_payload s root (crc32 key)) s

    unfoldable pub kvhash_set : ℕ → Option (List ℕ) → Option (List ℕ) → Exec Store (Unit {0})
    kvhash_set root key val s = set_checked root (checked_pair key val) s
