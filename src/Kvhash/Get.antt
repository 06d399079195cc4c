-- ===== src/Kvhash/Get.antt =====
-- kvhash_get and kvhash_del on a bucket of packed bindings.
use key_value_db.Base.{
  ℕ, ◌<◌, ◌≡◌, refl, ◌≢◌, ◌⊎◌, inl, inr, true, false, Option, none, some, List, arith, ltb, leb,
  ◌==◌, length, Result, ok, err, Result-cases,
}
use key_value_db.BlobDb.{BlobDb, BlobReads, IsFault}
use key_value_db.Kvhash.Bucket.{ent_spill}
use key_value_db.Kvhash.Walk.{packed}
use key_value_db.Kvhash.Dir.{Leaf, dir_child}
use key_value_db.Kvhash.Find.{Visit, hash_fp, bkt_find}
use key_value_db.Kvhash.Hit.{Binding}
use key_value_db.Kvhash.Lookup.{
  entries, lookup, answer, Finds, Hit-answer, IsBucket, bkt_find-Finds,
}
use key_value_db.Kvhash.Ops.{locate, kvhash_get}

abbrev pub IsKey : List ℕ → Type 0
IsKey key = (length key ≢ 0) × (length key < ent_spill)

module _ (db : BlobDb) (reads : BlobReads db) (crc32 : List ℕ → ℕ) (max_payload : ℕ) where
  open db use {Store, view, get, get_reply}

  abbrev pub searched : Store → List ℕ → List ℕ → Result Visit
  searched s buf key = bkt_find db reads max_payload s buf key (hash_fp crc32 (crc32 key))

  abbrev pub reported : ℕ → List ℕ → Result Visit → Result (ℕ × (List ℕ × Visit))
  reported bid buf (err e) = err e
  reported bid buf (ok v) = ok (bid, (buf, v))

  pub locate-searched :
      (s : Store) (root : ℕ) (key : List ℕ) (leaf : Leaf) (bs : List Binding)
      → IsKey key
      → IsBucket db reads crc32 max_payload s root key leaf bs
      → (locate db reads crc32 max_payload s root (some key)
          ≡ reported
              (dir_child leaf.dir.bytes leaf.idx)
              (packed (entries bs))
              (searched s (packed (entries bs)) key))
        ⊎ IsFault (locate db reads crc32 max_payload s root (some key))
  unfolding locate
  locate-searched s root key leaf bs (some_bytes, short) b =
      let buf = packed (entries bs) in
      let empty : (length key == 0) ≡ false = ground arith in
      let huge : ltb 0xffff (length key) ≡ false = ground arith in
      let long : leb ent_spill (length key) ≡ false = ground arith in
      let real : (dir_child leaf.dir.bytes leaf.idx == 0) ≡ false = ground (arith, b.named) in
      let fits : leb (length buf) max_payload ≡ true = ground (arith, b.short) in
      elim (get_reply s (dir_child leaf.dir.bytes leaf.idx) max_payload) [
        | inl answered ↦ elim (Result-cases (searched s buf key)) [
          | inl (v, found) ↦ inl (
              rw (locate, empty, huge, long, b.resolved, real, answered, b.bound, fits, found) refl)
          | inr (e, failed) ↦ inl (
              rw (locate, empty, huge, long, b.resolved, real, answered, b.bound, fits, failed)
                refl)
        ]
        | inr (inl io) ↦ inr (rw (locate, empty, huge, long, b.resolved, real, io) (inl refl))
        | inr (inr unmounted) ↦
            inr (rw (locate, empty, huge, long, b.resolved, real, unmounted) (inr refl))
      ]

  answered-get :
      (s : Store) (root bid size : ℕ) (key : List ℕ) (buf : List ℕ) (bs : List Binding)
      (o : Option (List ℕ))
      → (locate db reads crc32 max_payload s root (some key)
          ≡ reported bid buf (searched s buf key))
        ⊎ IsFault (locate db reads crc32 max_payload s root (some key))
      → Finds db reads crc32 max_payload s buf bs key o (searched s buf key)
      → (kvhash_get db reads crc32 max_payload s root (some key) size ≡ answer o size)
        ⊎ IsFault (kvhash_get db reads crc32 max_payload s root (some key) size)
  unfolding kvhash_get
  answered-get s root bid size key buf bs o (inr (inl io)) finds =
      inr (rw (kvhash_get, io) (inl refl))
  answered-get s root bid size key buf bs o (inr (inr unmounted)) finds =
      inr (rw (kvhash_get, unmounted) (inr refl))
  answered-get s root bid size key buf bs none (inl located) (inl absent) =
      inl (rw (kvhash_get, located, absent) refl)
  answered-get s root bid size key buf bs none (inl located) (inr (inl io)) =
      inr (rw (kvhash_get, located, io) (inl refl))
  answered-get s root bid size key buf bs none (inl located) (inr (inr unmounted)) =
      inr (rw (kvhash_get, located, unmounted) (inr refl))
  answered-get s root bid size key buf bs (some val) (inl located) (inr (inl io)) =
      inr (rw (kvhash_get, located, io) (inl refl))
  answered-get s root bid size key buf bs (some val) (inl located) (inr (inr unmounted)) =
      inr (rw (kvhash_get, located, unmounted) (inr refl))
  answered-get s root bid size key buf bs (some val) (inl located) (inl (v, found, h)) =
      rw (kvhash_get, located, found)
        (Hit-answer db reads crc32 max_payload s buf key val bs v size h)

  -- For a key of 1 to 32767 bytes whose bucket packs bindings, spilled parts in blobs that hold them,
  -- kvhash_get answers with the value of the first binding of the key, with -ENOMEM where the buffer
  -- is too small for it, or with -ENOENT where there is none, unless flash cannot be read.
  pub kvhash_get-lookup :
      (s : Store) (root size : ℕ) (key : List ℕ) (leaf : Leaf) (bs : List Binding)
      → IsKey key
      → IsBucket db reads crc32 max_payload s root key leaf bs
      → (kvhash_get db reads crc32 max_payload s root (some key) size ≡ answer (lookup bs key) size)
        ⊎ IsFault (kvhash_get db reads crc32 max_payload s root (some key) size)
  kvhash_get-lookup s root size key leaf bs k b =
      answered-get s root (dir_child leaf.dir.bytes leaf.idx) size key (packed (entries bs)) bs
        (lookup bs key) (locate-searched s root key leaf bs k b)
        (bkt_find-Finds db reads crc32 max_payload s bs key b.holds)
