-- ===== src/Rootreg/Boot.antt =====
-- rootreg_init: what it bootstraps, and what it must not touch.
use key_value_db.Base.{
  ℕ, ◌<◌, ◌≡◌, refl, sym, ◌∙◌, ◌≢◌, ◌⊎◌, inl, inr, Option, none, some, List, [], ◌∷◌, arith, length,
  values, enomem, enotsup, Result, ok, err,
}
use key_value_db.BlobDb.{BlobDb, root_id, reply, IsFault}
use key_value_db.Rootreg.Image
use key_value_db.Rootreg.Image.{header_len, image_max, encode, image}
use key_value_db.Rootreg.{
  Slots, check_image, rr_load, rr_store, bootstrap, init_loaded, rootreg_init,
}
use key_value_db.Rootreg.Load.{IsRegistry, load-registry}
use key_value_db.Rootreg.Change.{Becomes, store-ok}

module _ (db : BlobDb) (max_roots : ℕ) where
  open db use {Store, view, get, get_reply}

  bootstrap-keeps :
      (s : Store) (r : Result (List ℕ)) → r ≢ ok [] → (bootstrap db max_roots r s).1 ≡ s
  unfolding bootstrap
  bootstrap-keeps s (ok []) ne = absurd (ne refl)
  bootstrap-keeps s (ok (b ∷ bs)) ne = refl
  bootstrap-keeps s (err enomem) ne = refl
  bootstrap-keeps s (err _) ne = refl

  reply-ne : (o : Option (List ℕ)) (size : ℕ) → o ≢ some [] → reply o size ≢ ok []
  reply-ne none size ne h = cc
  reply-ne (some []) size ne h = ne refl
  reply-ne (some (b ∷ bs)) size ne h = ground arith

  get-ne : (s : Store) (size : ℕ) → view s root_id ≢ some [] → get s root_id size ≢ ok []
  get-ne s size ne h = elim (get_reply s root_id size) [
    | inl e ↦ reply-ne (view s root_id) size ne (sym e ∙ h)
    | inr (inl e) ↦ cc
    | inr (inr e) ↦ cc
  ]

  init_loaded-keeps :
      (s : Store) (r : Result Image.Image)
      → view s root_id ≢ some []
      → (init_loaded db max_roots r s).1 ≡ s
  unfolding init_loaded
  init_loaded-keeps s (ok img) ne = refl
  init_loaded-keeps s (err enotsup) ne =
      bootstrap-keeps s (get s root_id header_len) (get-ne s header_len ne)
  init_loaded-keeps s (err _) ne = refl

  -- rootreg_init writes nothing unless id 1 is bound to the empty payload of a formatted store:
  -- a registry, and the payload of any other owner, stay as they are.
  pub init-keeps : (s : Store) → view s root_id ≢ some [] → (rootreg_init db max_roots s).1 ≡ s
  unfolding rootreg_init
  init-keeps s ne = init_loaded-keeps s (rr_load db max_roots s) ne

  -- A payload too long to be a registry is refused with -ENOMEM, unless flash cannot be read.
  pub init-oversized :
      (s : Store) (p : List ℕ)
      → view s root_id ≡ some p
      → image_max max_roots < length p
      → ((rootreg_init db max_roots s).0 ≡ err enomem) ⊎ IsFault (rootreg_init db max_roots s).0
  unfolding rootreg_init rr_load init_loaded
  init-oversized s p v long = elim (get_reply s root_id (image_max max_roots)) [
    | inl e ↦ inl (rw (e, v) (ground arith))
    | inr (inl e) ↦ inr (inl (rw e))
    | inr (inr e) ↦ inr (inr (rw e))
  ]

  check-empty : check_image max_roots [] ≡ err enotsup
  unfolding check_image
  check-empty = refl

  load-virgin :
      (s : Store)
      → view s root_id ≡ some []
      → (rr_load db max_roots s ≡ err enotsup) ⊎ IsFault (rr_load db max_roots s)
  unfolding rr_load
  load-virgin s v = elim (get_reply s root_id (image_max max_roots)) [
    | inl e ↦ inl (rw (e, v) (ground (arith, check-empty)))
    | inr (inl e) ↦ inr (inl (rw e))
    | inr (inr e) ↦ inr (inr (rw e))
  ]

  bootstrap-virgin :
      (s : Store)
      → view s root_id ≡ some []
      → (bootstrap db max_roots (get s root_id header_len) s).0 ≡ ok tt
      → bootstrap db max_roots (get s root_id header_len) s ≡ rr_store db max_roots (image []) s
  unfolding bootstrap
  bootstrap-virgin s v h = elim (get_reply s root_id header_len) [
    | inl e ↦ rw (e, v)
    | inr (inl e) ↦ absurd (ground arith)
    | inr (inr e) ↦ absurd (ground arith)
  ]

  init-virgin :
      (s : Store)
      → view s root_id ≡ some []
      → (rootreg_init db max_roots s).0 ≡ ok tt
      → rootreg_init db max_roots s ≡ rr_store db max_roots (image []) s
  unfolding rootreg_init init_loaded
  init-virgin s v h = elim (load-virgin s v) [
    | inl e ↦ rw e (bootstrap-virgin s v (rw e at h))
    | inr (inl e) ↦ absurd (ground arith)
    | inr (inr e) ↦ absurd (ground arith)
  ]

  -- On a formatted store, a rootreg_init that returns 0 leaves an empty registry and no other blob
  -- changed.
  pub init-empty :
      (s : Store)
      → view s root_id ≡ some []
      → (rootreg_init db max_roots s).0 ≡ ok tt
      → Becomes db max_roots s (rootreg_init db max_roots s).1 (λ j. none)
  init-empty s v h = rw (init-virgin s v h) (
      store-ok db max_roots (image []) [] s (λ j. none) refl (omega arith) tt tt (λ j. refl)
        (rw (init-virgin s v h) at h))

  -- On a store that holds a registry rootreg_init returns 0, unless flash cannot be read.
  pub init-ready :
      (s : Store) (es : Slots)
      → max_roots < values 2
      → IsRegistry db max_roots s es
      → ((rootreg_init db max_roots s).0 ≡ ok tt) ⊎ IsFault (rootreg_init db max_roots s).0
  unfolding rootreg_init init_loaded
  init-ready s es small r = elim (load-registry db max_roots small s es r) [
    | inl e ↦ inl (rw e)
    | inr (inl e) ↦ inr (inl (rw e))
    | inr (inr e) ↦ inr (inr (rw e))
  ]
