-- ===== src/Rootreg/Load.antt =====
-- What rr_load finds in a store that holds a registry.
use key_value_db.Base.{ℕ, ◌≤◌, ◌<◌, ◌≡◌, ◌⊎◌, inl, inr, some, arith, length, All, values, ok}
use key_value_db.BlobDb.{BlobDb, root_id, reply, IsFault}
use key_value_db.Rootreg.Image.{image_max, encode, image, IsEntry}
use key_value_db.Rootreg.Image.Codec.{image_of-encode, length-encode}
use key_value_db.Rootreg.{Slots, check_image, rr_load}
use key_value_db.Rootreg.Map.{NoDup}

-- The blob of id 1 is the image of these entries, which fit, and no key occurs twice.
pub record IsRegistry (db : BlobDb) (max_roots : ℕ) (s : db.Store) (es : Slots) : Type 0 where
  pub bound : db.view s root_id ≡ some (encode (image es))
  pub fits : length es ≤ max_roots
  pub entries : All IsEntry es
  pub distinct : NoDup es

pub check_image-encode :
    (max_roots : ℕ) (es : Slots)
    → max_roots < values 2
    → length es ≤ max_roots
    → All IsEntry es
    → check_image max_roots (encode (image es)) ≡ ok (image es)
unfolding check_image
check_image-encode max_roots es small fits h =
    rw (image_of-encode es h (omega arith), length-encode es) (ground arith)

module _ (db : BlobDb) (max_roots : ℕ) (small : max_roots < values 2) where
  open db use {Store, view, get, get_reply}

  reply-image :
      (es : Slots)
      → length es ≤ max_roots
      → reply (some (encode (image es))) (image_max max_roots) ≡ ok (encode (image es))
  reply-image es h = rw (length-encode es) (ground arith)

  -- The load gives the image, unless flash cannot be read.
  pub load-registry :
      (s : Store) (es : Slots)
      → IsRegistry db max_roots s es
      → (rr_load db max_roots s ≡ ok (image es)) ⊎ IsFault (rr_load db max_roots s)
  unfolding rr_load
  load-registry s es r = elim (get_reply s root_id (image_max max_roots)) [
    | inl e ↦ inl (
        rw (e, r.bound, reply-image es r.fits)
          (check_image-encode max_roots es small r.fits r.entries))
    | inr (inl e) ↦ inr (inl (rw e))
    | inr (inr e) ↦ inr (inr (rw e))
  ]
