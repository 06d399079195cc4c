-- ===== src/Kvhash/SetErr.antt =====
-- kvhash_set when it fails: what is left of the blobs that were there before.
use key_value_db.Base.{
  none, some, ℕ, ◌≤◌, ◌≡◌, refl, ◌⊎◌, inl, inr, ◌&&◌, Option, List, ◌++◌, arith, ◌==◌, Bool-cases,
  take, eio, ok, ◌>>◌, return,
}
use key_value_db.BlobDb.{BlobDb, BlobReads}
use key_value_db.Kvhash.Dir.{Leaf, dir_len, dir_child, dir_set_child, resolve_leaf}
use key_value_db.Kvhash.Ops.{fresh_id, release_part}
use key_value_db.Kvhash.Set.{
  Fresh, Old, image_with, kept_kid, bind_blob, bind_key, bind_val, release_old, fresh_for,
}
use key_value_db.Kvhash.Atomic.{
  Safe, Atomic, return-Safe, bind-Safe, update-Safe, fresh_id-Safe, ceiling-release_part,
  Wedged-release_part,
}

abbrev Any : Unit {0} → Type 0
Any a = Unit {0}

module _ (db : BlobDb) (max_payload c : ℕ) where
  open db use {Store, view, ceiling, Wedged, update}

  -- what a step names for the repair: nothing, or a fresh id
  abbrev pub IsFresh : ℕ → Type 0
  IsFresh id = (id ≡ 0) ⊎ (c ≤ id)

  bind_blob-Safe : (p : List ℕ) → Safe db c (λ id. c ≤ id) (bind_blob db max_payload p)
  unfolding bind_blob
  bind_blob-Safe p =
      bind-Safe db c (fresh_id db max_payload eio) (λ id. update id p >> return id)
        (fresh_id-Safe db c max_payload eio)
        (λ id fresh.
          bind-Safe db c (update id p) (λ _. return id) (update-Safe db c id p fresh)
            (λ a _. return-Safe db c id fresh))

  pub bind_key-Safe :
      (f : Fresh) (old : Old)
      → Safe db c (λ (k : ℕ × ℕ). IsFresh k.1) (bind_key db max_payload f old)
  unfolding bind_key
  bind_key-Safe f old = elim (Bool-cases (f.kspill && kept_kid f old == 0)) [
    | inl spilled ↦ rw spilled (
        bind-Safe db c (bind_blob db max_payload f.key) (λ kid. return (kid, kid))
          (bind_blob-Safe f.key) (λ kid fresh. return-Safe db c (kid, kid) (inr fresh)))
    | inr kept ↦ rw kept (return-Safe db c (kept_kid f old, 0) (inl refl))
  ]

  pub bind_val-Safe : (f : Fresh) → Safe db c IsFresh (bind_val db max_payload f)
  unfolding bind_val
  bind_val-Safe f = elim (Bool-cases f.vspill) [
    | inl spilled ↦
        rw spilled
          (λ s h. let (kept, gives) = bind_blob-Safe f.val s h in (kept, λ id e. inr (gives id e)))
    | inr inline ↦ rw inline (return-Safe db c 0 (inl refl))
  ]

  pub ceiling-release_old :
      (old : Old) (kid : ℕ) (s : Store) → ceiling s ≤ ceiling (release_old db max_payload old kid s)
  unfolding release_old
  ceiling-release_old old kid s = elim (Bool-cases (old.kid == kid)) [
    | inl same ↦ rw same (omega (arith, ceiling-release_part db c max_payload old.vid s))
    | inr other ↦ rw other (
        omega (
          arith,
          ceiling-release_part db c max_payload old.kid s,
          ceiling-release_part db c max_payload old.vid (release_part db max_payload old.kid s),
        ))
  ]

  pub Wedged-release_old :
      (old : Old) (kid : ℕ) (s : Store) → Wedged s → Wedged (release_old db max_payload old kid s)
  unfolding release_old
  Wedged-release_old old kid s w = elim (Bool-cases (old.kid == kid)) [
    | inl same ↦ rw same (Wedged-release_part db c max_payload old.vid s w)
    | inr other ↦ rw other (
        Wedged-release_part db c max_payload old.vid (release_part db max_payload old.kid s)
          (Wedged-release_part db c max_payload old.kid s w))
  ]

-- The bucket of a key with the new entry behind others, the leaf directory with a new bucket, or a
-- blob with the new value
abbrev pub Writes : Leaf → Fresh → ℕ → List ℕ → Type 0
Writes leaf f j p =
    ((j ≡ dir_child leaf.dir.bytes leaf.idx)
      × (bkt : List ℕ) × (kid : ℕ) × (vid : ℕ) × (p ≡ bkt ++ image_with f kid vid))
    ⊎ (((j ≡ leaf.root)
          × (id : ℕ) × (p ≡ take (dir_len leaf.dir.n) (dir_set_child leaf.dir.bytes leaf.idx id)))
        ⊎ (p ≡ f.val))

module _ (db : BlobDb) (reads : BlobReads db) (crc32 : List ℕ → ℕ) (max_payload : ℕ) where
  open db use {Store, view, ceiling, Wedged, get}

  module _ (c : ℕ) (leaf : Leaf) (f : Fresh) where
    abbrev W : ℕ → List ℕ → Type 0
    W = Writes leaf f

    abbrev bid : ℕ
    bid = dir_child leaf.dir.bytes leaf.idx

  module _ (key_max val_max : ℕ) where
    -- what kvhash_set may write to an id that was there
    abbrev pub Commits : Store → ℕ → Option (List ℕ) → Option (List ℕ) → ℕ → List ℕ → Type 0
    Commits s root none val j p = ⊥
    Commits s root (some key) none j p = ⊥
    Commits s root (some key) (some val) j p =
        (leaf : Leaf) × (resolve_leaf db max_payload s root (crc32 key) ≡ ok leaf)
        × Writes leaf (fresh_for db reads crc32 max_payload key_max val_max leaf key val) j p
