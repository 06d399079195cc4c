-- ===== src/Rootreg/Lookup.antt =====
-- rootreg_get and rootreg_iterate on a store that holds a registry.
use key_value_db.Base.{
  ℕ, ◌<◌, ◌≡◌, ◌≢◌, ◌⊎◌, inl, inr, true, Option, none, some, arith, length, take_self, values,
  enoent, Result, ok, err,
}
use key_value_db.BlobDb.{BlobDb, IsFault}
use key_value_db.Rootreg.Image.{image}
use key_value_db.Rootreg.{
  Slots, no_entry, get_loaded, rootreg_get, Callback, visit, rootreg_iterate,
}
use key_value_db.Rootreg.Map.{lookup, find-lookup}
use key_value_db.Rootreg.Load.{IsRegistry, load-registry}

-- the return code and id for a key with this root
abbrev pub answer : Option ℕ → Result ℕ
answer none = err enoent
answer (some root) = ok root

module _ (db : BlobDb) (max_roots : ℕ) (small : max_roots < values 2) where
  open db use {Store}

  found-lookup : (es : Slots) (key : ℕ) → get_loaded key (ok (image es)) ≡ answer (lookup es key)
  unfolding get_loaded
  found-lookup es key =
      rw (take_self es (length es) (omega arith)) (ground (arith, find-lookup no_entry es key))

  -- On a store that holds a registry, rootreg_get of a key other than 0 answers with the root
  -- registered under it, or -ENOENT when there is none, unless flash cannot be read.
  pub get-lookup :
      (s : Store) (es : Slots) (key : ℕ)
      → IsRegistry db max_roots s es
      → key ≢ 0
      → (rootreg_get db max_roots key true s ≡ answer (lookup es key))
        ⊎ IsFault (rootreg_get db max_roots key true s)
  unfolding rootreg_get
  get-lookup s es key r h = elim (load-registry db max_roots small s es r) [
    | inl e ↦ inl (rw e (ground (arith, found-lookup es key)))
    | inr (inl e) ↦ inr (inl (rw e (ground arith)))
    | inr (inr e) ↦ inr (inr (rw e (ground arith)))
  ]

  -- rootreg_iterate calls back for each registered pair in order and stops at the first code
  -- that is not 0: it is the visit of the entries, unless flash cannot be read, when it makes no call.
  pub iterate-visit :
      {U : Type 0} (s : Store) (es : Slots) (cb : Callback U) (user : U)
      → IsRegistry db max_roots s es
      → (rootreg_iterate db max_roots (some cb) s user ≡ visit cb es user)
        ⊎ ((IsFault (rootreg_iterate db max_roots (some cb) s user).0)
            × ((rootreg_iterate db max_roots (some cb) s user).1 ≡ user))
  unfolding rootreg_iterate
  iterate-visit s es cb user r = elim (load-registry db max_roots small s es r) [
    | inl e ↦ inl (rw (e, take_self es (length es) (omega arith)))
    | inr (inl e) ↦ inr (inl (rw e), rw e)
    | inr (inr e) ↦ inr (inr (rw e), rw e)
  ]
