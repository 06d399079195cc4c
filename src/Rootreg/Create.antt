-- ===== src/Rootreg/Create.antt =====
-- rootreg_get_or_create: the same id for a key ever after, and a fresh one for a new key.
use key_value_db.Base.{
  ℕ, ◌-◌, ◌≤◌, ◌<◌, ◌≡◌, refl, ◌∙◌, ◌≢◌, ◌⊎◌, inl, inr, true, Option, none, some, arith, leb, ◌==◌,
  if◌then◌else◌, Bool-cases, length, values, eio, enospc, Result, ok, err, Result-cases,
}
use key_value_db.BlobDb.{BlobDb}
use key_value_db.Rootreg.Image.{IsEntry, image}
use key_value_db.Rootreg.{
  Slots, rr_store, push_entry, create_entry, create_loaded, create_missing, rootreg_get_or_create,
}
use key_value_db.Rootreg.Map.{lookup}
use key_value_db.Rootreg.Load.{IsRegistry, load-registry}
use key_value_db.Rootreg.Lookup.{answer, get-lookup}
use key_value_db.Rootreg.Change.{Becomes, push-ok, Faulted}

module _ (db : BlobDb) (max_roots : ℕ) (small : max_roots < values 2 - 1) where
  open db use {Store, view, alloc_id, ceiling, view-alloc_id, alloc_id-lt, alloc_id_fresh}

  -- what rootreg_get_or_create does, by what the registry has under the key
  abbrev create_of : Option ℕ → Store → Slots → ℕ → Result ℕ × Store
  create_of (some root) s es key = (ok root, s)
  create_of none s es key =
      let (id, s') = alloc_id s in
      if leb max_roots (length es)
      then (err enospc, s)
      else if id == 0
      then (err eio, s')
      else create_entry db max_roots (image es) key id s'

  create_loaded_lem :
      (s : Store) (es : Slots) (key : ℕ)
      → create_loaded db max_roots key (ok (image es)) s ≡ create_of none s es key
  unfolding create_loaded
  create_loaded_lem s es key = refl

  create_missing_lem :
      (o : Option ℕ) (s : Store) (es : Slots) (key : ℕ)
      → IsRegistry db max_roots s es
      → (create_missing db max_roots key (answer o) s ≡ create_of o s es key)
        ⊎ Faulted db max_roots small s (create_missing db max_roots key (answer o) s)
  unfolding create_missing
  create_missing_lem (some root) s es key r = inl refl
  create_missing_lem none s es key r = elim (load-registry db max_roots (omega arith) s es r) [
    | inl e ↦ inl (rw e (create_loaded_lem s es key))
    | inr (inl e) ↦ inr (rw e (unfold create_loaded in ground arith))
    | inr (inr e) ↦ inr (rw e (unfold create_loaded in ground arith))
  ]

  -- every branch of rootreg_get_or_create after its argument check
  create-branches :
      (s : Store) (es : Slots) (key : ℕ)
      → IsRegistry db max_roots s es
      → key ≢ 0
      → (rootreg_get_or_create db max_roots key true s ≡ create_of (lookup es key) s es key)
        ⊎ Faulted db max_roots small s (rootreg_get_or_create db max_roots key true s)
  unfolding rootreg_get_or_create
  create-branches s es key r k0 = elim (get-lookup db max_roots (omega arith) s es key r k0) [
    | inl e ↦ rw e (create_missing_lem (lookup es key) s es key r)
    | inr (inl e) ↦ inr (rw e (unfold create_missing in ground arith))
    | inr (inr e) ↦ inr (rw e (unfold create_missing in ground arith))
  ]

  -- what a call that returned `id` has done
  pub record Created (s : Store) (es : Slots) (key id : ℕ) (s' : Store) : Type 0 where
    pub becomes : Becomes db max_roots s s' (λ j. if key == j then some id else lookup es j)
    pub existing : (old : ℕ) → lookup es key ≡ some old → id ≡ old
    pub fresh : lookup es key ≡ none → ceiling s ≤ id

  create_entry-ok :
      (s s' : Store) (es : Slots) (key new id : ℕ)
      → IsRegistry db max_roots s es
      → length es < max_roots
      → lookup es key ≡ none
      → IsEntry (record { key = key; root_id = new })
      → ((j : ℕ) → view s' j ≡ view s j)
      → (create_entry db max_roots (image es) key new s').0 ≡ ok id
      → (id ≡ new)
        × Becomes db max_roots s
            (create_entry db max_roots (image es) key new s').1
            (λ j. if key == j then some new else lookup es j)
  unfolding create_entry
  create_entry-ok s s' es key new id r room absent entry same h =
      elim (Result-cases (rr_store db max_roots (push_entry (image es) key new) s').0) [
        | inr (c, e) ↦ absurd (ground arith)
        | inl (u, e) ↦
            let b = push-ok db max_roots small s s' es key new r room absent entry e in
            (
              ground arith,
              rw e (record {
                slots = b.slots;
                registry = b.registry;
                mapped = b.mapped;
                others = λ j ne. b.others j ne ∙ same j;
              }),
            )
      ]

  create_of-ok :
      (o : Option ℕ) (s : Store) (es : Slots) (key id : ℕ)
      → lookup es key ≡ o
      → IsRegistry db max_roots s es
      → key < values 8
      → (create_of o s es key).0 ≡ ok id
      → Created s es key id (create_of o s es key).1
  create_of-ok (some root) s es key id e r k8 h = record {
    becomes = record {
      slots = es;
      registry = r;
      mapped = λ j. ground arith;
      others = λ j ne. refl;
    };
    existing = λ old there. ground arith;
    fresh = λ absent. absurd (cc);
  }
  create_of-ok none s es key id e r k8 h = elim (Bool-cases (leb max_roots (length es))) [
    | inl full ↦ absurd (ground arith)
    | inr room ↦ elim (Bool-cases ((alloc_id s).0 == 0)) [
      | inl bad ↦ absurd (ground arith)
      | inr good ↦
          let c =
            create_entry-ok s (alloc_id s).1 es key (alloc_id s).0 id r (ground arith) e
              (k8, alloc_id-lt s) (view-alloc_id s) (ground arith) in
          rw (room, good)
            (record {
              becomes = rw c.0 c.1;
              existing = λ old there. absurd (cc);
              fresh = λ absent. rw c.0 (alloc_id_fresh s (ground arith)).1;
            })
    ]
  ]

  -- When rootreg_get_or_create returns an id, the registry has the key with it and every other key
  -- as before, and no other blob changed. A key that was there keeps its id; for a new one the id
  -- is at or above every id issued before the call.
  pub create-ok :
      (s : Store) (es : Slots) (key id : ℕ)
      → IsRegistry db max_roots s es
      → key ≢ 0
      → key < values 8
      → (rootreg_get_or_create db max_roots key true s).0 ≡ ok id
      → Created s es key id (rootreg_get_or_create db max_roots key true s).1
  create-ok s es key id r k0 k8 h = elim (create-branches s es key r k0) [
    | inl e ↦ rw e (create_of-ok (lookup es key) s es key id refl r k8 (rw e at h))
    | inr (inl e, _) ↦ absurd (cc)
    | inr (inr e, _) ↦ absurd (cc)
  ]
