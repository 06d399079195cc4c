-- ===== src/Kvhash/Commit.antt =====
-- kvhash_set when it succeeds: the bucket after the commit, with the new entry behind the others.
use key_value_db.Base.{
  ℕ, ◌≤◌, ◌<◌, ◌≡◌, refl, ◌∙◌, ◌≢◌, inl, inr, Bool, true, false, some, List, [], ◌∷◌, ◌++◌, arith,
  Bool-cases, length, All, length-append, values, le_bytes, length-le_bytes,
}
use key_value_db.BlobDb.{BlobDb, BlobReads}
use key_value_db.Kvhash.Bucket.{ent_spill, key_part_len, val_part_len}
use key_value_db.Kvhash.Walk.{Packed, Fits, image_of, packed}
use key_value_db.Kvhash.Hit.{Binding, Holds, KeyAt, ValAt}
use key_value_db.Kvhash.Lookup.{entries, HoldsAll}
use key_value_db.Kvhash.Apart.{Distinct, Separate, Misses}
use key_value_db.Kvhash.Ids.{OwnId}
use key_value_db.Kvhash.Stage.{key_part, val_part, IsFresh}
use key_value_db.Kvhash.Set.{Fresh, Old, image_with}

-- the ids that a binding names, where `c` is the ceiling
pub record Own (c bid : ℕ) (b : Binding) : Type 0 where
  pub kid : OwnId c bid b.kid
  pub vid : OwnId c bid b.vid
  pub apart : Distinct b.kid b.vid

-- a binding that the release of the old one leaves alone
pub record Away (old : Old) (b : Binding) : Type 0 where
  pub kids : Distinct old.kid b.kid
  pub vids : Distinct old.vid b.vid
  pub kid_vid : Distinct old.kid b.vid
  pub vid_kid : Distinct old.vid b.kid

abbrev pub packed_new : Fresh → ℕ → ℕ → Packed
packed_new f kid vid = record {
  klen = length f.key;
  vlen = length f.val;
  kspill = f.kspill;
  vspill = f.vspill;
  kpart = key_part f.kspill f kid;
  vpart = val_part f.vspill f vid;
}

abbrev pub binding_new : Fresh → ℕ → ℕ → Binding
binding_new f kid vid = record {
  entry = packed_new f kid vid;
  key = f.key;
  val = f.val;
  kid = kid;
  vid = vid;
}

pub part_fits :
    (f : Fresh) (kid vid : ℕ)
    → length f.key < ent_spill
    → length f.val < ent_spill
    → Fits (packed_new f kid vid)
part_fits f kid vid kfits vfits =
    let kpart : length (key_part f.kspill f kid) ≡ key_part_len f.kspill (length f.key) =
      elim (Bool-cases f.kspill) [
        | inl e ↦ rw e (
            omega (
              arith,
              length-append (le_bytes 4 f.fp) (le_bytes 8 kid),
              length-le_bytes 4 f.fp,
              length-le_bytes 8 kid,
            ))
        | inr e ↦ rw e refl
      ] in
    let vpart : length (val_part f.vspill f vid) ≡ val_part_len f.vspill (length f.val) =
      elim (Bool-cases f.vspill) [ inl e ↦ rw e (length-le_bytes 8 vid) | inr e ↦ rw e refl ] in
    (kfits, vfits, kpart, vpart)

pub image_with-packed :
    (f : Fresh) (kid vid : ℕ) → image_with f kid vid ≡ image_of (packed_new f kid vid)
unfolding image_with
image_with-packed f kid vid = refl

module _ (db : BlobDb) (reads : BlobReads db) (crc32 : List ℕ → ℕ) (max_payload : ℕ) where
  open db use {Store, view, ceiling, update, update_ok, ceiling-update}

  -- a binding is held where its blobs are
  pub KeyAt-frame :
      (s s' : Store) (spilled : Bool) (id : ℕ) (part key : List ℕ)
      → (id ≢ 0 → view s' id ≡ view s id)
      → KeyAt db reads crc32 max_payload s spilled id part key
      → KeyAt db reads crc32 max_payload s' spilled id part key
  KeyAt-frame s s' false id part key same h = h
  KeyAt-frame s s' true id part key same (real, fits, at_part, bound, short) =
      (real, fits, at_part, same real ∙ bound, short)

  pub ValAt-frame :
      (s s' : Store) (spilled : Bool) (id : ℕ) (part val : List ℕ)
      → (id ≢ 0 → view s' id ≡ view s id)
      → ValAt db reads crc32 max_payload s spilled id part val
      → ValAt db reads crc32 max_payload s' spilled id part val
  ValAt-frame s s' false id part val same h = h
  ValAt-frame s s' true id part val same (real, fits, at_part, bound) =
      (real, fits, at_part, same real ∙ bound)

  pub Holds-frame :
      (s s' : Store) (b : Binding)
      → (b.kid ≢ 0 → view s' b.kid ≡ view s b.kid)
      → (b.vid ≢ 0 → view s' b.vid ≡ view s b.vid)
      → Holds db reads crc32 max_payload s b
      → Holds db reads crc32 max_payload s' b
  Holds-frame s s' b same_kid same_vid h = record {
    fits = h.fits;
    klen = h.klen;
    vlen = h.vlen;
    key_at = KeyAt-frame s s' b.entry.kspill b.kid b.entry.kpart b.key same_kid h.key_at;
    val_at = ValAt-frame s s' b.entry.vspill b.vid b.entry.vpart b.val same_vid h.val_at;
  }

  -- a bucket and its bindings
  pub record Sound (s : Store) (bid : ℕ) (bs : List Binding) : Type 0 where
    pub issued : bid < ceiling s
    pub own : All (Own (ceiling s) bid) bs
    pub separate : Separate bs
    pub holds : HoldsAll db reads crc32 max_payload s bs
    pub bound : view s bid ≡ some (packed (entries bs))
    pub short : length (packed (entries bs)) ≤ max_payload

  -- the state in which an entry is written, `zs` the other bindings of its bucket
  pub record Ready (s : Store) (bid : ℕ) (zs : List Binding) (f : Fresh) (old : Old) : Type 0 where
    pub real : bid ≢ 0
    pub issued : bid < ceiling s
    pub own : All (Own (ceiling s) bid) zs
    pub separate : Separate zs
    pub holds : HoldsAll db reads crc32 max_payload s zs
    pub fresh : IsFresh db reads crc32 max_payload f
    pub misses : All (Misses f.key) zs
    pub old_kid : OwnId (ceiling s) bid old.kid
    pub old_vid : OwnId (ceiling s) bid old.vid
    pub old_apart : Distinct old.kid old.vid
    pub away : All (Away old) zs
    pub kept : old.kid ≢ 0 → (old.kid < values 8) × (view s old.kid ≡ some f.key)

  -- the new binding is the last, and the other blobs are as before but for those of the old entry
  pub record Settled (s s' : Store) (bid : ℕ) (zs : List Binding) (f : Fresh) (old : Old)
      : Type 0 where
    pub kid : ℕ
    pub vid : ℕ
    pub sound : Sound s' bid (zs ++ binding_new f kid vid ∷ [])
    pub others :
        (j : ℕ) → j < ceiling s → j ≢ bid → j ≢ old.kid → j ≢ old.vid → view s' j ≡ view s j
