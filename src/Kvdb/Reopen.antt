-- ===== src/Kvdb/Reopen.antt =====
-- Opening an instance again, after it was created.
use key_value_db.Base.{
  ℕ, ◌+◌, ◌-◌, ◌^◌, ◌≤◌, ◌<◌, ◌≡◌, refl, ap, ◌∙◌, ◌⊎◌, inl, inr, true, false, Option, some, List,
  [], ◌∷◌, ◌++◌, arith, ltb, leb, ◌==◌, if◌then◌else◌, ==_refl, Bool-cases, length, take, drop,
  replicate, length-append, length-replicate, take-append_self, le_bytes, of_le, int_at,
  of_le-le_bytes, Result, ok,
}
use key_value_db.Base.{continue_cases}
use key_value_db.BlobDb.{BlobDb, reply, IsFault}
use key_value_db.Kvdb.{
  Kvdb, KvdbConfig, MapOps, encode_meta, same_bytes, attach, kvdb_magic, kvdb_name_max,
  backend_hash, wanted, map_config, build, create_instance,
}

same_bytes_refl : (xs : List ℕ) → same_bytes xs xs ≡ true
same_bytes_refl [] = refl
same_bytes_refl (x ∷ xs) = rw (==_refl x) (same_bytes_refl xs)

attach-fields :
    (name meta : List ℕ) (root : ℕ)
    → 32 ≤ length meta
    → int_at 4 meta 0 ≡ kvdb_magic
    → int_at 1 meta 6 ≡ length name
    → take (length name) (drop 16 meta) ≡ name
    → int_at 1 meta 4 ≡ backend_hash
    → int_at 8 meta 8 ≡ root
    → attach name meta ≡ ok record { root = root }
unfolding attach
attach-fields name meta root long magic len same hash r =
    let whole : ltb (length meta) 32 ≡ false = ground arith in
    rw (whole, magic, len, ==_refl (length name), same, same_bytes_refl name, hash, r) refl

byte : (n : ℕ) (rest : List ℕ) → of_le (take 1 (n ∷ rest)) ≡ n
unfolding of_le
byte n rest = omega arith

length-encode_meta :
    (backend root : ℕ) (name : List ℕ)
    → length name ≤ kvdb_name_max
    → length (encode_meta backend root name) ≡ 32
unfolding encode_meta le_bytes
length-encode_meta backend root name short = omega (
  arith,
  length-append name (replicate (kvdb_name_max + 1 - length name) 0),
  length-replicate {A = ℕ} (kvdb_name_max + 1 - length name) 0,
)

magic_read :
    (backend root : ℕ) (name : List ℕ) → int_at 4 (encode_meta backend root name) 0 ≡ kvdb_magic
unfolding encode_meta le_bytes of_le
magic_read backend root name = refl

fields_read :
    (backend root : ℕ) (name : List ℕ)
    → root < 2 ^ 64
    → (int_at 1 (encode_meta backend root name) 6 ≡ length name)
      × (take (length name) (drop 16 (encode_meta backend root name)) ≡ name)
      × (int_at 1 (encode_meta backend root name) 4 ≡ backend)
      × (int_at 8 (encode_meta backend root name) 8 ≡ root)
unfolding encode_meta le_bytes
fields_read backend root name fits =
    let pad = replicate (kvdb_name_max + 1 - length name) 0 in
    (
      byte (length name) (0 ∷ (le_bytes 8 root ++ (name ++ pad))),
      take-append_self name pad (length name) refl,
      byte backend (1 ∷ length name ∷ 0 ∷ (le_bytes 8 root ++ (name ++ pad))),
      of_le-le_bytes 8 root (omega arith),
    )

-- The meta blob that an instance writes attaches to that instance.
attach-encode_meta :
    (name : List ℕ) (root : ℕ)
    → length name ≤ kvdb_name_max
    → root < 2 ^ 64
    → attach name (encode_meta backend_hash root name) ≡ ok record { root = root }
attach-encode_meta name root short fits =
    let f = fields_read backend_hash root name fits in
    attach-fields name (encode_meta backend_hash root name) root
      (omega (arith, length-encode_meta backend_hash root name short))
      (magic_read backend_hash root name) f.0 f.1 f.2 f.3

reply_whole : (bs : List ℕ) → length bs ≤ 32 → reply (some bs) 32 ≡ ok bs
reply_whole bs h = let e : leb (length bs) 32 ≡ true = ground arith in rw e refl

module _ (db : BlobDb) (ops : MapOps db.Store) (default_backend : ℕ) where
  open db use {Store, view, alloc_id, get, update, update_ok, get_reply, alloc_id-lt}

  -- what the instance leaves behind
  abbrev Named : ℕ → List ℕ → Result Kvdb × Store → Type 0
  Named meta_id name r =
      (h : Kvdb)
      → r.0 ≡ ok h
      → (h.root < 2 ^ 64) × (view r.1 meta_id ≡ some (encode_meta backend_hash h.root name))

  here : (i : ℕ) (p : List ℕ) (o : Option (List ℕ)) → (if i == i then some p else o) ≡ some p
  here i p o = rw (==_refl i) refl

  named :
      (root : ℕ) (h : Kvdb) (s : Store) (meta_id : ℕ) (name : List ℕ)
      → root < 2 ^ 64
      → ok record { root = root } ≡ ok h
      → view s meta_id ≡ some (encode_meta backend_hash root name)
      → (h.root < 2 ^ 64) × (view s meta_id ≡ some (encode_meta backend_hash h.root name))
  named root h s meta_id name fits f v =
      let same : root ≡ h.root = ground arith in rw (← same) (fits, v)

  build-Named :
      (meta_id : ℕ) (name : List ℕ) (cfg : Option KvdbConfig) (root : ℕ) (s : Store)
      → root < 2 ^ 64
      → Named meta_id name (build db ops default_backend meta_id name backend_hash cfg root s)
  unfolding build
  build-Named meta_id name cfg root s fits =
      let s1 = (ops.create root (map_config db ops default_backend cfg) s).1 in
      let meta = encode_meta backend_hash root name in
      continue_cases (Named meta_id name)
        (ops.create root (map_config db ops default_backend cfg) s).0 s1 _ (λ e h f. ground arith)
        (λ u c.
          continue_cases (Named meta_id name) (update meta_id meta s1).0 (update meta_id meta s1).1
            _ (λ e h f. ground arith)
            (λ v d h f.
              named root h (update meta_id meta s1).1 meta_id name fits f
                (update_ok meta_id meta s1 d meta_id ∙ here meta_id meta (view s1 meta_id))))

  create_instance-Named :
      (meta_id : ℕ) (name : List ℕ) (cfg : Option KvdbConfig) (s : Store)
      → Named meta_id name (create_instance db ops default_backend meta_id name cfg s)
  unfolding create_instance
  create_instance-Named meta_id name cfg s =
      elim (Bool-cases (wanted db ops default_backend cfg == backend_hash)) [
        | inr w ↦ rw (create_instance, w) (λ h f. ground arith)
        | inl w ↦
            let hash : wanted db ops default_backend cfg ≡ backend_hash = ground arith in
            elim (Bool-cases ((alloc_id s).0 == 0)) [
              | inl z ↦ rw (create_instance, w, z) (λ h f. ground arith)
              | inr z ↦
                  rw (create_instance, w, z, hash)
                    (build-Named meta_id name cfg (alloc_id s).0 (alloc_id s).1
                      (omega (arith, alloc_id-lt s)))
            ]
      ]

  -- When create_instance returns a handle, what the meta blob reads attaches to the same handle,
  -- unless flash cannot be read.
  pub create_instance-attach :
      (meta_id : ℕ) (name : List ℕ) (cfg : Option KvdbConfig) (s : Store) (h : Kvdb)
      → length name ≤ kvdb_name_max
      → (create_instance db ops default_backend meta_id name cfg s).0 ≡ ok h
      → ((bs : List ℕ) × (get
              (create_instance db ops default_backend meta_id name cfg s).1
              meta_id
              32
            ≡ ok bs)
          × (attach name bs ≡ ok h))
        ⊎ IsFault (get (create_instance db ops default_backend meta_id name cfg s).1 meta_id 32)
  create_instance-attach meta_id name cfg s h short e =
      let n = create_instance-Named meta_id name cfg s h e in
      let s' = (create_instance db ops default_backend meta_id name cfg s).1 in
      let meta = encode_meta backend_hash h.root name in
      elim (get_reply s' meta_id 32) [
        | inr f ↦ inr f
        | inl r ↦ inl (
          meta,
          r
              ∙ ap (λ o. reply o 32) n.1
              ∙ reply_whole meta (omega (arith, length-encode_meta backend_hash h.root name short)),
          attach-encode_meta name h.root short n.0,
        )
      ]
