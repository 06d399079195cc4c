-- ===== src/Rootreg/Unregister.antt =====
-- rootreg_unregister: the entry is gone, and nothing else.
use key_value_db.Base.{
  ℕ, ◌-◌, ◌<◌, ◌≡◌, refl, ◌≢◌, ◌⊎◌, inl, inr, Option, none, some, [], ◌∷◌, arith, ◌==◌,
  if◌then◌else◌, length, set, length-set, take_self, values, Errno, enoent, Result, ok, err,
}
use key_value_db.BlobDb.{BlobDb}
use key_value_db.Rootreg.Image.{image}
use key_value_db.Rootreg.{
  Slots, rr_find, rr_store, no_entry, drop_entry, unregister_loaded, rootreg_unregister,
}
use key_value_db.Rootreg.Map.{lookup, last, init, lookup-swap, NoDup-swap, length-init, All-swap}
use key_value_db.Rootreg.Load.{IsRegistry, load-registry}
use key_value_db.Rootreg.Change.{
  encode-drop, Becomes, FailsOn, same-FailsOn, store-ok, store-err, Faulted,
}

find-pos : (es : Slots) (key i : ℕ) → rr_find es key ≡ some i → 0 < length es
unfolding rr_find
find-pos [] key i f = absurd (cc)
find-pos (x ∷ xs) key i f = omega arith

module _ (db : BlobDb) (max_roots : ℕ) (small : max_roots < values 2 - 1) where
  open db use {Store, view, alloc_id, view-alloc_id, alloc_id-lt}

  -- what rootreg_unregister does, by where the key is found
  abbrev unregister_of : Option ℕ → Store → Slots → Result (Unit {0}) × Store
  unregister_of none s es = (err enoent, s)
  unregister_of (some i) s es = rr_store db max_roots (drop_entry (image es) i) s

  unregister_loaded_lem :
      (s : Store) (es : Slots) (key : ℕ)
      → unregister_loaded db max_roots key (ok (image es)) s ≡ unregister_of (rr_find es key) s es
  unfolding unregister_loaded
  unregister_loaded_lem s es key = ground (arith, take_self es (length es) (omega arith))

  unregister-branches :
      (s : Store) (es : Slots) (key : ℕ)
      → IsRegistry db max_roots s es
      → key ≢ 0
      → (rootreg_unregister db max_roots key s ≡ unregister_of (rr_find es key) s es)
        ⊎ Faulted db max_roots small s (rootreg_unregister db max_roots key s)
  unfolding rootreg_unregister
  unregister-branches s es key r k0 = elim (load-registry db max_roots (omega arith) s es r) [
    | inl e ↦ inl (rw e (ground (arith, unregister_loaded_lem s es key)))
    | inr (inl e) ↦ inr (rw e (ground arith))
    | inr (inr e) ↦ inr (rw e (ground arith))
  ]

  unregister_of-ok :
      (o : Option ℕ) (s : Store) (es : Slots) (key : ℕ)
      → rr_find es key ≡ o
      → IsRegistry db max_roots s es
      → (unregister_of o s es).0 ≡ ok tt
      → Becomes db max_roots s
          (unregister_of o s es).1
          (λ j. if j == key then none else lookup es j)
  unregister_of-ok none s es key f r h = absurd (cc)
  unregister_of-ok (some i) s es key f r h =
      store-ok db max_roots (drop_entry (image es) i) (init (set es i (last no_entry es))) s
        (λ j. if j == key then none else lookup es j)
        (encode-drop es i (find-pos es key i f) (omega (arith, r.fits)))
        (omega (
          arith,
          length-init (set es i (last no_entry es)),
          length-set es i (last no_entry es),
          r.fits,
        ))
        (All-swap no_entry es i r.entries) (NoDup-swap no_entry es i key r.distinct f)
        (λ j. lookup-swap no_entry es i key j r.distinct f) h

  unregister_of-err :
      (o : Option ℕ) (s : Store) (es : Slots) (c : Errno)
      → (unregister_of o s es).0 ≡ err c
      → (i : ℕ) × FailsOn db max_roots (drop_entry (image es) i) s (unregister_of o s es).1
  unregister_of-err none s es c h =
      (0, same-FailsOn db max_roots (drop_entry (image es) 0) s s (λ j. refl))
  unregister_of-err (some i) s es c h = (i, store-err db max_roots (drop_entry (image es) i) s c h)

  -- When rootreg_unregister returns 0 the key is registered no more, every other key is as before,
  -- and no other blob changed: the structure behind the entry is untouched.
  pub unregister-ok :
      (s : Store) (es : Slots) (key : ℕ)
      → IsRegistry db max_roots s es
      → key ≢ 0
      → (rootreg_unregister db max_roots key s).0 ≡ ok tt
      → Becomes db max_roots s
          (rootreg_unregister db max_roots key s).1
          (λ j. if j == key then none else lookup es j)
  unregister-ok s es key r k0 h = elim (unregister-branches s es key r k0) [
    | inl e ↦ rw e (unregister_of-ok (rr_find es key) s es key refl r (rw e at h))
    | inr (inl e, _) ↦ absurd (cc)
    | inr (inr e, _) ↦ absurd (cc)
  ]

  -- When rootreg_unregister returns an error, every blob is as before, unless the image with one
  -- entry taken out has landed in the registry's, or blobs are not found in a store that is wedged.
  pub unregister-err :
      (s : Store) (es : Slots) (key : ℕ) (c : Errno)
      → IsRegistry db max_roots s es
      → key ≢ 0
      → (rootreg_unregister db max_roots key s).0 ≡ err c
      → (i : ℕ) × FailsOn db max_roots
          (drop_entry (image es) i)
          s
          (rootreg_unregister db max_roots key s).1
  unregister-err s es key c r k0 h = elim (unregister-branches s es key r k0) [
    | inl e ↦ rw e (unregister_of-err (rr_find es key) s es c (rw e at h))
    | inr (_, same) ↦
        rw same (0, same-FailsOn db max_roots (drop_entry (image es) 0) s s (λ j. refl))
  ]
