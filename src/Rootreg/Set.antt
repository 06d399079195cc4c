-- ===== src/Rootreg/Set.antt =====
-- rootreg_set: its branches, what it registers, and that an error leaves the store alone.
use key_value_db.Base.{
  ℕ, ◌-◌, ◌<◌, ◌≡◌, refl, ◌≢◌, ◌⊎◌, inl, inr, Option, none, some, arith, leb, ◌==◌, if◌then◌else◌,
  Bool-cases, length, take_self, values, Errno, eexist, enospc, Result, ok, err,
}
use key_value_db.BlobDb.{BlobDb}
use key_value_db.Rootreg.Image.{IsEntry, image}
use key_value_db.Rootreg.{Slots, rr_store, no_entry, push_entry, set_loaded, rootreg_set}
use key_value_db.Rootreg.Map.{lookup, find-lookup}
use key_value_db.Rootreg.Load.{IsRegistry, load-registry}
use key_value_db.Rootreg.Change.{Becomes, FailsOn, same-FailsOn, store-err, push-ok, Faulted}

module _ (db : BlobDb) (max_roots : ℕ) (small : max_roots < values 2 - 1) where
  open db use {Store, view, alloc_id, view-alloc_id, alloc_id-lt}

  -- what rootreg_set does, by what the registry has under the key
  abbrev set_of : Option ℕ → Store → Slots → ℕ → ℕ → Result (Unit {0}) × Store
  set_of (some old) s es key root = (err eexist, s)
  set_of none s es key root =
      if leb max_roots (length es)
      then (err enospc, s)
      else rr_store db max_roots (push_entry (image es) key root) s

  set_loaded_lem :
      (s : Store) (es : Slots) (key root : ℕ)
      → set_loaded db max_roots key root (ok (image es)) s ≡ set_of (lookup es key) s es key root
  unfolding set_loaded
  set_loaded_lem s es key root =
      ground (arith, find-lookup no_entry es key, take_self es (length es) (omega arith))

  -- every branch of rootreg_set after its argument check, or a load that failed and changed nothing
  set-branches :
      (s : Store) (es : Slots) (key root : ℕ)
      → IsRegistry db max_roots s es
      → key ≢ 0
      → root ≢ 0
      → (rootreg_set db max_roots key root s ≡ set_of (lookup es key) s es key root)
        ⊎ Faulted db max_roots small s (rootreg_set db max_roots key root s)
  unfolding rootreg_set
  set-branches s es key root r k0 r0 = elim (load-registry db max_roots (omega arith) s es r) [
    | inl e ↦ inl (rw e (ground (arith, set_loaded_lem s es key root)))
    | inr (inl e) ↦ inr (rw e (ground arith))
    | inr (inr e) ↦ inr (rw e (ground arith))
  ]

  set_of-ok :
      (o : Option ℕ) (s : Store) (es : Slots) (key root : ℕ)
      → lookup es key ≡ o
      → IsRegistry db max_roots s es
      → IsEntry (record { key = key; root_id = root })
      → (set_of o s es key root).0 ≡ ok tt
      → (o ≡ none)
        × Becomes db max_roots s
            (set_of o s es key root).1
            (λ j. if key == j then some root else lookup es j)
  set_of-ok (some old) s es key root e r entry h = absurd (cc)
  set_of-ok none s es key root e r entry h = elim (Bool-cases (leb max_roots (length es))) [
    | inl full ↦ absurd (ground arith)
    | inr room ↦ (
      refl,
      rw room (push-ok db max_roots small s s es key root r (ground arith) e entry (rw room at h)),
    )
  ]

  set_of-err :
      (o : Option ℕ) (s : Store) (es : Slots) (key root : ℕ) (c : Errno)
      → (set_of o s es key root).0 ≡ err c
      → FailsOn db max_roots (push_entry (image es) key root) s (set_of o s es key root).1
  set_of-err (some old) s es key root c h =
      same-FailsOn db max_roots (push_entry (image es) key root) s s (λ j. refl)
  set_of-err none s es key root c h = elim (Bool-cases (leb max_roots (length es))) [
    | inl full ↦
        rw full (same-FailsOn db max_roots (push_entry (image es) key root) s s (λ j. refl))
    | inr room ↦
        rw room (store-err db max_roots (push_entry (image es) key root) s c (rw room at h))
  ]

  -- When rootreg_set returns 0 the key was new, and the registry has it now with this root, every
  -- other key as before, and no other blob changed.
  pub set-ok :
      (s : Store) (es : Slots) (key root : ℕ)
      → IsRegistry db max_roots s es
      → IsEntry (record { key = key; root_id = root })
      → key ≢ 0
      → root ≢ 0
      → (rootreg_set db max_roots key root s).0 ≡ ok tt
      → (lookup es key ≡ none)
        × Becomes db max_roots s
            (rootreg_set db max_roots key root s).1
            (λ j. if key == j then some root else lookup es j)
  set-ok s es key root r entry k0 r0 h = elim (set-branches s es key root r k0 r0) [
    | inl e ↦ rw e (set_of-ok (lookup es key) s es key root refl r entry (rw e at h))
    | inr (inl e, _) ↦ absurd (cc)
    | inr (inr e, _) ↦ absurd (cc)
  ]

  -- When rootreg_set returns an error, every blob is as before, unless the image with the new entry
  -- has landed in the registry's, or blobs are not found in a store that is wedged.
  pub set-err :
      (s : Store) (es : Slots) (key root : ℕ) (c : Errno)
      → IsRegistry db max_roots s es
      → key ≢ 0
      → root ≢ 0
      → (rootreg_set db max_roots key root s).0 ≡ err c
      → FailsOn db max_roots
          (push_entry (image es) key root)
          s
          (rootreg_set db max_roots key root s).1
  set-err s es key root c r k0 r0 h = elim (set-branches s es key root r k0 r0) [
    | inl e ↦ rw e (set_of-err (lookup es key) s es key root c (rw e at h))
    | inr (_, same) ↦
        rw same (same-FailsOn db max_roots (push_entry (image es) key root) s s (λ j. refl))
  ]
