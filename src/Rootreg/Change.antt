-- ===== src/Rootreg/Change.antt =====
-- What one commit of a changed image does to a store that holds a registry.
use key_value_db.Base.{
  ◌⊎◌, inl, ℕ, ◌-◌, ◌≤◌, ◌<◌, ◌≡◌, ap, ◌≢◌, Option, none, some, [], ◌∷◌, ◌++◌, arith, ◌==◌,
  if◌then◌else◌, ==_refl, length, set, All, length-append, length-set, take_self, values, Errno,
  Result, ok, err,
}
use key_value_db.BlobDb.{BlobDb, Stays, root_id, IsFault}
use key_value_db.Rootreg.Image
use key_value_db.Rootreg.Image.{Entry, IsEntry, encode, image}
use key_value_db.Rootreg.{Slots, rr_store, no_entry, push_entry, drop_entry}
use key_value_db.Rootreg.Map.{
  lookup, NoDup, last, init, get_or-last, take-init, lookup-push, NoDup-push, length-init, All-push,
}
use key_value_db.Rootreg.Load.{IsRegistry}

pub push-image :
    (es : Slots) (key root : ℕ)
    → length es < values 2 - 1
    → push_entry (image es) key root ≡ image (es ++ record { key = key; root_id = root } ∷ [])
unfolding push_entry
push-image es key root h = rw (take_self es (length es) (omega arith)) (
    ap
      (λ (n : ℕ). record {
        magic = Image.rr_magic;
        version = Image.rr_version;
        count = n;
        e = es ++ record { key = key; root_id = root } ∷ [];
      })
      (omega (arith, length-append es (record { key = key; root_id = root } ∷ []))))

pub encode-drop :
    (es : Slots) (i : ℕ)
    → 0 < length es
    → length es < values 2
    → encode (drop_entry (image es) i) ≡ encode (image (init (set es i (last no_entry es))))
unfolding drop_entry encode
encode-drop es i pos h =
    let rest = init (set es i (last no_entry es)) in
    let shrunk : length rest ≡ length es - 1 =
      omega
        (arith, length-init (set es i (last no_entry es)), length-set es i (last no_entry es)) in
    rw (
      get_or-last no_entry es,
      shrunk,
      take-init (set es i (last no_entry es)) (length es - 1)
          (omega (arith, length-set es i (last no_entry es))),
      take_self rest (length es - 1) (omega arith),
    )

module _ (db : BlobDb) (max_roots : ℕ) where
  open db use {Store, view, Wedged, update, update_ok, update_err}

  -- A change that keeps a registry, now the map `f`, and every blob but the registry's.
  pub record Becomes (s s' : Store) (f : ℕ → Option ℕ) : Type 0 where
    pub slots : Slots
    pub registry : IsRegistry db max_roots s' slots
    pub mapped : (j : ℕ) → lookup slots j ≡ f j
    pub others : (j : ℕ) → j ≢ root_id → view s' j ≡ view s j

  -- A change to `img` that failed: a blob is as before, or not found until the next mount of a store
  -- that takes no more changes, or it is the registry's and the image has landed.
  abbrev pub FailsOn : Image.Image → Store → Store → Type 0
  FailsOn img s s' =
      (j : ℕ)
      → Stays (Wedged s') (view s j) (view s' j) ⊎ ((j ≡ root_id) × (view s' j ≡ some (encode img)))

  pub same-FailsOn :
      (img : Image.Image) (s s' : Store) → ((j : ℕ) → view s' j ≡ view s j) → FailsOn img s s'
  same-FailsOn img s s' same j = inl (inl (same j))

  -- The commit of an image whose bytes are those of a registry.
  pub store-ok :
      (img : Image.Image) (es : Slots) (s : Store) (f : ℕ → Option ℕ)
      → encode img ≡ encode (image es)
      → length es ≤ max_roots
      → All IsEntry es
      → NoDup es
      → ((j : ℕ) → lookup es j ≡ f j)
      → (rr_store db max_roots img s).0 ≡ ok tt
      → Becomes s (rr_store db max_roots img s).1 f
  unfolding rr_store
  store-ok img es s f e fits all distinct mapped h = record {
    slots = es;
    registry = record {
      bound = ground (arith, update_ok root_id (encode img) s h root_id, ==_refl root_id);
      fits = fits;
      entries = all;
      distinct = distinct;
    };
    mapped = mapped;
    others = λ j ne. ground (arith, update_ok root_id (encode img) s h j);
  }

  pub store-err :
      (img : Image.Image) (s : Store) (e : Errno)
      → (rr_store db max_roots img s).0 ≡ err e
      → FailsOn img s (rr_store db max_roots img s).1
  unfolding rr_store
  store-err img s e h = update_err root_id (encode img) s e h

module _ (db : BlobDb) (max_roots : ℕ) (small : max_roots < values 2 - 1) where
  open db use {Store, view}

  abbrev added : Slots → ℕ → ℕ → Slots
  added es key root = es ++ record { key = key; root_id = root } ∷ []

  -- the commit of one entry more
  pub push-ok :
      (s0 s : Store) (es : Slots) (key root : ℕ)
      → IsRegistry db max_roots s0 es
      → length es < max_roots
      → lookup es key ≡ none
      → IsEntry (record { key = key; root_id = root })
      → (rr_store db max_roots (push_entry (image es) key root) s).0 ≡ ok tt
      → Becomes db max_roots s
          (rr_store db max_roots (push_entry (image es) key root) s).1
          (λ j. if key == j then some root else lookup es j)
  push-ok s0 s es key root r room absent entry h =
      store-ok db max_roots (push_entry (image es) key root) (added es key root) s
        (λ j. if key == j then some root else lookup es j)
        (ap encode (push-image es key root (omega arith)))
        (omega (arith, length-append es (record { key = key; root_id = root } ∷ [])))
        (All-push es (record { key = key; root_id = root }) r.entries entry)
        (NoDup-push es (record { key = key; root_id = root }) r.distinct absent)
        (λ j. lookup-push es (record { key = key; root_id = root }) j absent) h

  abbrev pub Faulted : {A : Type 0} → Store → Result A × Store → Type 0
  Faulted s out = IsFault out.0 × (out.1 ≡ s)
