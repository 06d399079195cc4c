-- ===== src/Rootreg.antt =====
-- lib/rootreg/rootreg.c: the registry of structure roots, one image in the blob of id 1.
-- A NULL `root_id` argument is `out = false`; CONFIG_ROOTREG_MAX_ROOTS is `max_roots`.
pub mod Image
pub mod Map
pub mod Load
pub mod Lookup
pub mod Change
pub mod Set
pub mod Create
pub mod Unregister
pub mod Boot
mod Tests
use key_value_db.Base.{
  ℕ, zero, suc, ◌+◌, ◌-◌, ◌*◌, ◌/◌, ◌%◌, ◌^◌, ◌≤◌, ◌<◌, min, ◌≡◌, refl, sym, ap, ap₂, ◌∙◌, ◌≢◌, ◌↔◌,
  ◌⊎◌, inl, inr, Bool, true, false, not, ◌&&◌, ◌||◌, Option, none, some, List, [], ◌∷◌, ◌++◌, map,
  arith, ltb, leb, ◌==◌, if◌then◌else◌, ltb→lt, ltb→le, leb→le, ==_iff, ==_refl, Bool-cases,
  Option-cases, length, get_or, set, take, drop, replicate, All, length-append, length-set,
  length-take, length-drop, length-replicate, get_or-set_self, get_or-set_ne, take-append_self,
  drop-append_self, take_self, values, le_bytes, of_le, int_at, length-le_bytes, of_le-le_bytes,
  int_at-le_bytes, take-le_bytes, drop-le_bytes, Errno, enoent, eio, enomem, eexist, einval, enospc,
  enotsup, enodev, emsgsize, estale, enodata, code, Result, ok, err, is_enoent, is_enospc, Exec,
  continue, ◌>>=◌, ◌>>◌, return, fail, lift, Result-cases,
}
use key_value_db.BlobDb.{BlobDb, root_id}
use key_value_db.Rootreg.Image
use key_value_db.Rootreg.Image.{
  Entry, rr_magic, rr_version, header_len, entry_len, image_max, encode, image_of, bytes_eq, image,
}

abbrev pub Slots : Type 0
Slots = List Entry

-- the guards of rr_load on the bytes read
unfoldable pub check_image : ℕ → List ℕ → Result Image.Image
unfolding bytes_eq
check_image max_roots bs =
    let img = image_of bs in
    if ltb (length bs) header_len
    then err enotsup
    else if not (bytes_eq img.magic rr_magic) || not (img.version == rr_version)
    then err enotsup
    else if ltb max_roots img.count || not (length bs == header_len + img.count * entry_len)
    then err eio
    else ok img

-- rr_find over the entries in use: the index of the first with this key
unfoldable pub rr_find : Slots → ℕ → Option ℕ
rr_find [] key = none
rr_find (x ∷ xs) key =
    let rest = rr_find xs key in
    if x.key == key then some 0 else elim rest [ none ↦ none | some i ↦ some (suc i) ]

pub no_entry : Entry
no_entry = record { key = 0; root_id = 0 }

-- `img.e[img.hdr.count] = {key, root_id}; img.hdr.count++`
pub push_entry : Image.Image → ℕ → ℕ → Image.Image
push_entry img key root = record img {
  count = (img.count + 1) % values 2;
  e = take img.count img.e ++ record { key = key; root_id = root } ∷ [];
}

-- `img.e[idx] = img.e[img.hdr.count - 1]; img.hdr.count--`
pub drop_entry : Image.Image → ℕ → Image.Image
unfolding no_entry
drop_entry img idx = record img {
  count = img.count - 1;
  e = set img.e idx (get_or img.e (img.count - 1) no_entry);
}

found : Image.Image → Option ℕ → Result ℕ
unfolding no_entry
found img none = err enoent
found img (some idx) = ok (get_or img.e idx no_entry).root_id

get_loaded : ℕ → Result Image.Image → Result ℕ
unfolding found
get_loaded key (err e) = err e
get_loaded key (ok img) = found img (rr_find (take img.count img.e) key)

-- The callback changes what `user` points at, and stops the walk by a code other than 0.
abbrev pub Callback : Type 0 → Type 0
Callback U = ℕ → ℕ → Exec U (Unit {0})

pub visit : {U : Type 0} → Callback U → Slots → Exec U (Unit {0})
visit cb [] = return tt
visit cb (x ∷ xs) = do cb x.key x.root_id; visit cb xs

iterate_loaded : {U : Type 0} → Callback U → Result Image.Image → Exec U (Unit {0})
unfolding visit
iterate_loaded cb (err e) = fail e
iterate_loaded cb (ok img) = visit cb (take img.count img.e)

module _ (db : BlobDb) (max_roots : ℕ) where
  open db use {Store, alloc_id, get, update}

  abbrev checked : Result (List ℕ) → Result Image.Image
  checked (err e) = err e
  checked (ok bs) = check_image max_roots bs

  unfoldable pub rr_load : Store → Result Image.Image
  unfolding check_image
  rr_load s = checked (get s root_id (image_max max_roots))

  unfoldable pub rr_store : Image.Image → Exec Store (Unit {0})
  rr_store img = update root_id (encode img)

  -- what rootreg_init does with the payload that it probes in 8 bytes
  bootstrap : Result (List ℕ) → Exec Store (Unit {0})
  bootstrap (err enomem) s = (err enotsup, s)
  bootstrap (err e) s = (err e, s)
  bootstrap (ok (b ∷ bs)) s = (err enotsup, s)
  bootstrap (ok []) s = rr_store (image []) s

  init_loaded : Result Image.Image → Exec Store (Unit {0})
  unfolding bootstrap
  init_loaded (ok img) s = (ok tt, s)
  init_loaded (err enotsup) s = bootstrap (get s root_id header_len) s
  init_loaded (err e) s = (err e, s)

  pub rootreg_init : Exec Store (Unit {0})
  unfolding init_loaded
  rootreg_init s = init_loaded (rr_load s) s

  pub rootreg_get : ℕ → Bool → Store → Result ℕ
  unfolding get_loaded
  rootreg_get key out s = if key == 0 || not out then err einval else get_loaded key (rr_load s)

  -- commit the entry, then hand out its id
  create_entry : Image.Image → ℕ → ℕ → Exec Store ℕ
  create_entry img key id = do rr_store (push_entry img key id); return id

  create_loaded : ℕ → Result Image.Image → Exec Store ℕ
  unfolding create_entry
  create_loaded key (err e) s = (err e, s)
  create_loaded key (ok img) s =
      let (id, s') = alloc_id s in
      if leb max_roots img.count
      then (err enospc, s)
      else if id == 0
      then (err eio, s')
      else create_entry img key id s'

  create_missing : ℕ → Result ℕ → Exec Store ℕ
  unfolding create_loaded
  create_missing key (err enoent) s = create_loaded key (rr_load s) s
  create_missing key r s = (r, s)

  pub rootreg_get_or_create : ℕ → Bool → Exec Store ℕ
  unfolding create_missing
  rootreg_get_or_create key out s = create_missing key (rootreg_get key out s) s

  set_loaded : ℕ → ℕ → Result Image.Image → Exec Store (Unit {0})
  set_loaded key root (err e) s = (err e, s)
  set_loaded key root (ok img) s = elim (rr_find (take img.count img.e) key) [
    | some idx ↦ (err eexist, s)
    | none ↦
        if leb max_roots img.count then (err enospc, s) else rr_store (push_entry img key root) s
  ]

  pub rootreg_set : ℕ → ℕ → Exec Store (Unit {0})
  unfolding set_loaded
  rootreg_set key root s =
      if key == 0 || root == 0 then (err einval, s) else set_loaded key root (rr_load s) s

  unregister_loaded : ℕ → Result Image.Image → Exec Store (Unit {0})
  unregister_loaded key (err e) s = (err e, s)
  unregister_loaded key (ok img) s = elim (rr_find (take img.count img.e) key) [
    | none ↦ (err enoent, s)
    | some idx ↦ rr_store (drop_entry img idx) s
  ]

  pub rootreg_unregister : ℕ → Exec Store (Unit {0})
  unfolding unregister_loaded
  rootreg_unregister key s =
      if key == 0 then (err einval, s) else unregister_loaded key (rr_load s) s

  pub rootreg_iterate : {U : Type 0} → Option (Callback U) → Store → Exec U (Unit {0})
  unfolding iterate_loaded
  rootreg_iterate none s = fail einval
  rootreg_iterate (some cb) s = iterate_loaded cb (rr_load s)
