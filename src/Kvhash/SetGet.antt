-- ===== src/Kvhash/SetGet.antt =====
-- kvhash_get after kvhash_set: the directories are as before, and the bucket has the key.
use key_value_db.Base.{
  ℕ, ◌<◌, ◌≡◌, refl, sym, ap, ◌∙◌, ◌≢◌, ◌⊎◌, inl, inr, false, some, List, arith, ltb, leb, ◌==◌,
  if◌then◌else◌, Bool-cases, length, All, Result, ok, err, Result-cases,
}
use key_value_db.BlobDb.{BlobDb, BlobReads, IsFault, reply}
use key_value_db.Kvhash.Bucket.{ent_spill}
use key_value_db.Kvhash.Dir.{
  Dir, Leaf, dir_child, idx_top, check_reply, if_alive, leaf_at, dir_load_raw, dir_load, sub_load,
  resolve_leaf,
}
use key_value_db.Kvhash.Hit.{Binding, key_eq}
use key_value_db.Kvhash.Lookup.{lookup, answer}
use key_value_db.Kvhash.Get.{IsKey, kvhash_get-lookup}
use key_value_db.Kvhash.Commit.{Sound}
use key_value_db.Kvhash.InPlace.{Spares}
use key_value_db.Kvhash.SetOk.{kvhash_set-ok}
use key_value_db.Kvhash.Ops.{locate, kvhash_get}
use key_value_db.Kvhash.Set.{kvhash_set}

abbrev root_of : Result Leaf → ℕ
root_of (err e) = 0
root_of (ok leaf) = leaf.root

module _ (db : BlobDb) (max_payload : ℕ) where
  open db use {Store, view, get, get_reply}

  module _ (s s' : Store) where
    dir_load-frame :
        (root : ℕ) (d : Dir)
        → view s' root ≡ view s root
        → dir_load db max_payload s root ≡ ok d
        → (dir_load db max_payload s' root ≡ ok d) ⊎ IsFault (dir_load db max_payload s' root)
    unfolding dir_load dir_load_raw
    dir_load-frame root d same loaded = elim (get_reply s root max_payload) [
      | inr (inl io) ↦ absurd (let h = rw io at loaded in cc)
      | inr (inr unmounted) ↦ absurd (let h = rw unmounted at loaded in cc)
      | inl answered ↦ elim (get_reply s' root max_payload) [
        | inr (inl io) ↦ inr (rw (dir_load, dir_load_raw, io) (inl refl))
        | inr (inr unmounted) ↦ inr (rw (dir_load, dir_load_raw, unmounted) (inr refl))
        | inl again ↦ inl (
            ap (λ r. if_alive (check_reply max_payload r))
              (again ∙ ap (λ o. reply o max_payload) same ∙ sym answered)
            ∙ loaded)
      ]
    ]

    sub_load-frame :
        (sub : ℕ) (d : Dir)
        → view s' sub ≡ view s sub
        → sub_load db max_payload s sub ≡ ok d
        → (sub_load db max_payload s' sub ≡ ok d) ⊎ IsFault (sub_load db max_payload s' sub)
    unfolding sub_load
    sub_load-frame sub d same loaded = elim (Bool-cases (sub == 0)) [
      | inl none_sub ↦ absurd (let h = rw none_sub at loaded in cc)
      | inr real ↦ elim (Result-cases (dir_load db max_payload s sub)) [
        | inr (e, failed) ↦ absurd (let h = rw (real, failed) at loaded in cc)
        | inl (d', got) ↦ elim (dir_load-frame sub d' same got) [
          | inr (inl io) ↦ inr (rw (sub_load, real, io) (inl refl))
          | inr (inr unmounted) ↦ inr (rw (sub_load, real, unmounted) (inr refl))
          | inl again ↦ inl (rw (sub_load, real, again) (rw (real, got) at loaded))
        ]
      ]
    ]

    -- a leaf directory is found where it was, with the same bytes
    resolve_leaf-frame :
        (root h : ℕ) (leaf : Leaf)
        → view s' root ≡ view s root
        → view s' leaf.root ≡ view s leaf.root
        → resolve_leaf db max_payload s root h ≡ ok leaf
        → (resolve_leaf db max_payload s' root h ≡ ok leaf)
          ⊎ IsFault (resolve_leaf db max_payload s' root h)
    unfolding resolve_leaf
    resolve_leaf-frame root h leaf same same_leaf resolved =
        elim (Result-cases (dir_load db max_payload s root)) [
          | inr (e, failed) ↦ absurd (let h = rw failed at resolved in cc)
          | inl (top, loaded) ↦ elim (dir_load-frame root top same loaded) [
            | inr (inl io) ↦ inr (rw (resolve_leaf, io) (inl refl))
            | inr (inr unmounted) ↦ inr (rw (resolve_leaf, unmounted) (inr refl))
            | inl again ↦ elim (Bool-cases (top.depth == 1)) [
              | inl flat ↦ inl (rw (resolve_leaf, again, flat) (rw (loaded, flat) at resolved))
              | inr two ↦
                  let sub = dir_child top.bytes (idx_top h top.n) in
                  let below : leaf_at sub h (sub_load db max_payload s sub) ≡ ok leaf =
                    rw (loaded, two) at resolved in
                  elim (Result-cases (sub_load db max_payload s sub)) [
                    | inr (e, failed) ↦ absurd (let h = rw failed at below in cc)
                    | inl (d, got) ↦
                        let placed : leaf_at sub h (ok d) ≡ ok leaf = rw got at below in
                        let at_root : sub ≡ leaf.root = ap root_of placed in
                        elim (sub_load-frame sub d
                          (ap (view s') at_root ∙ same_leaf ∙ ap (view s) (sym at_root)) got) [
                            | inr (inl io) ↦ inr (rw (resolve_leaf, again, two, io) (inl refl))
                            | inr (inr unmounted) ↦
                                inr (rw (resolve_leaf, again, two, unmounted) (inr refl))
                            | inl reread ↦ inl (rw (resolve_leaf, again, two, reread) placed)
                          ]
                  ]
            ]
          ]
        ]

module _ (db : BlobDb) (reads : BlobReads db) (crc32 : List ℕ → ℕ) (max_payload : ℕ) where
  open db use {Store, view, ceiling, Wedged}

  -- a directory that is no blob of the bucket or of its bindings
  pub record Clear (s : Store) (bid : ℕ) (bs : List Binding) (dir : ℕ) : Type 0 where
    pub real : dir ≢ 0
    pub issued : dir < ceiling s
    pub apart : dir ≢ bid
    pub spares : All (Spares dir) bs

  get-IsFault :
      (s : Store) (root size : ℕ) (key : List ℕ)
      → IsKey key
      → IsFault (resolve_leaf db max_payload s root (crc32 key))
      → IsFault (kvhash_get db reads crc32 max_payload s root (some key) size)
  unfolding kvhash_get locate
  get-IsFault s root size key (some_bytes, short) fault =
      let empty : (length key == 0) ≡ false = ground arith in
      let huge : ltb 0xffff (length key) ≡ false = ground arith in
      let long : leb ent_spill (length key) ≡ false = ground arith in
      elim fault [
        | inl io ↦ rw (kvhash_get, locate, empty, huge, long, io) (inl refl)
        | inr unmounted ↦ rw (kvhash_get, locate, empty, huge, long, unmounted) (inr refl)
      ]

  -- After a kvhash_set that succeeds on a key whose bucket is there and sound, in a map whose
  -- directories are not among the bucket and the blobs of its bindings, kvhash_get answers for the
  -- key with the value that was set, and for every other key of the bucket with the value it had,
  -- unless flash cannot be read or the release of the old blobs has wedged the store.
  pub kvhash_get-kvhash_set :
      (key_max val_max root size : ℕ) (key val other : List ℕ) (s : Store) (leaf : Leaf)
      (bs : List Binding)
      → resolve_leaf db max_payload s root (crc32 key) ≡ ok leaf
      → resolve_leaf db max_payload s root (crc32 other) ≡ ok leaf
      → dir_child leaf.dir.bytes leaf.idx ≢ 0
      → Sound db reads crc32 max_payload s (dir_child leaf.dir.bytes leaf.idx) bs
      → Clear s (dir_child leaf.dir.bytes leaf.idx) bs root
      → Clear s (dir_child leaf.dir.bytes leaf.idx) bs leaf.root
      → IsKey other
      → (kvhash_set db reads crc32 max_payload key_max val_max root (some key) (some val) s).0
        ≡ ok tt
      → ¬ Wedged
          (kvhash_set db reads crc32 max_payload key_max val_max root (some key) (some val) s).1
      → (kvhash_get db reads crc32 max_payload
            (kvhash_set db reads crc32 max_payload key_max val_max root (some key) (some val) s).1
            root
            (some other)
            size
          ≡ answer (if key_eq key other then some val else lookup bs other) size)
        ⊎ IsFault (
            kvhash_get db reads crc32 max_payload
              (kvhash_set db reads crc32 max_payload key_max val_max root (some key) (some val) s).1
              root
              (some other)
              size)
  kvhash_get-kvhash_set key_max val_max root size key val other s leaf bs resolved other_resolved
        real sound clear clear_leaf is_key done sane =
      let s' =
        (kvhash_set db reads crc32 max_payload key_max val_max root (some key) (some val) s).1 in
      let set =
        kvhash_set-ok db reads crc32 max_payload key_max val_max root key val s leaf bs resolved
          real sound done sane in
      let same : (dir : ℕ)
          → Clear s (dir_child leaf.dir.bytes leaf.idx) bs dir
          → view s' dir ≡ view s dir =
        λ dir c. set.others dir c.real c.issued c.apart c.spares in
      elim (resolve_leaf-frame db max_payload s s' root (crc32 other) leaf (same root clear)
        (same leaf.root clear_leaf) other_resolved) [
          | inr fault ↦ inr (get-IsFault s' root size other is_key fault)
          | inl again ↦
              elim (kvhash_get-lookup db reads crc32 max_payload s' root size other leaf set.after
                is_key
                record {
                  resolved = again;
                  named = real;
                  bound = set.sound.bound;
                  short = set.sound.short;
                  holds = set.sound.holds;
                }) [
                  | inr fault ↦ inr fault
                  | inl got ↦ inl (got ∙ ap (λ o. answer o size) (set.mapped other))
                ]
        ]
