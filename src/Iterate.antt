-- ===== src/Iterate.antt =====
-- lib/blob_db/blob_db.c: counting and visiting the live blobs. `read_bucket bid` stands for the
-- read of a whole sector into g_bbuf.
pub mod Visit
use key_value_db.Base.{
  ℕ, zero, suc, ◌+◌, ◌-◌, ◌*◌, ◌/◌, ◌%◌, ◌^◌, ◌≤◌, ◌<◌, min, ◌≡◌, refl, sym, ap, ap₂, ◌∙◌, ◌≢◌, ◌↔◌,
  ◌⊎◌, inl, inr, Bool, true, false, not, ◌&&◌, ◌||◌, Option, none, some, List, [], ◌∷◌, ◌++◌, map,
  arith, ltb, leb, ◌==◌, if◌then◌else◌, ltb→lt, ltb→le, leb→le, ==_iff, ==_refl, Bool-cases,
  Option-cases, length, get_or, set, take, drop, replicate, All, length-append, length-set,
  length-take, length-drop, length-replicate, get_or-set_self, get_or-set_ne, take-append_self,
  drop-append_self, take_self, drop-nil, drop-drop, drop-append, take-append, take-append_right,
  values, le_bytes, of_le, int_at, length-le_bytes, of_le-le_bytes, int_at-le_bytes, take-le_bytes,
  drop-le_bytes, Errno, enoent, eio, enomem, eexist, einval, enospc, enotsup, enodev, emsgsize,
  estale, enodata, ebadmsg, is_ebadmsg, code, Result, ok, err, is_enoent, is_enospc, Exec, continue,
  ◌>>=◌, ◌>>◌, return, fail, lift, Result-cases,
}
use key_value_db.BucketLog.{
  Geometry, Slot, slot_walk_at, kept, bucket_data_off, bucket_image_ends_foreign,
}
use key_value_db.BucketLog.Header.{bucket_hdr_valid}

-- A callback with its state; a value other than 0 that it returns is an `err`.
abbrev pub Visitor : Type 0 → Type 0
Visitor U = ℕ → List ℕ → Exec U (Unit {0})

abbrev pub count_visitor : Visitor ℕ
count_visitor id payload n = (ok tt, n + 1)

module _ (g : Geometry) where
  module _ {U : Type 0} (cb : Visitor U) where
    -- one round of the loop; `kept` is the test of build_compacted_image, whose three parts the
    -- source tests in another order
    abbrev pub visit_slot : List ℕ → ℕ → Slot → Bool → Exec U (Unit {0})
    visit_slot buf cursor sv intact u =
        if kept g buf cursor sv intact
        then cb sv.id (take sv.val_len (drop (cursor + 12) buf)) u
        else (ok tt, u)

    pub for_each_from : ℕ → List ℕ → ℕ → Exec U (Unit {0})
    for_each_from zero buf cursor u = (ok tt, u)
    for_each_from (suc k) buf cursor u = elim (slot_walk_at g buf cursor) [
      | none ↦ (ok tt, u)
      | some (sv, intact) ↦
          let (r, u') = visit_slot buf cursor sv intact u in
          continue r (λ _. for_each_from k buf (cursor + sv.total_size)) u'
    ]

    pub for_each_live_slot : List ℕ → Exec U (Unit {0})
    for_each_live_slot buf = for_each_from g.peb_size buf bucket_data_off

  module _ (read_bucket : ℕ → Result (List ℕ)) where
    -- what a bucket adds to the total
    pub count_bucket : ℕ → ℕ → ℕ
    count_bucket bid total = elim (read_bucket bid) [
      | err e ↦ total
      | ok buf ↦
          if not (bucket_hdr_valid g buf bid)
          then total
          else (for_each_live_slot count_visitor buf total).1
    ]

    -- `n` buckets from `bid` on
    pub count_from : ℕ → ℕ → ℕ → ℕ
    count_from zero bid total = total
    count_from (suc n) bid total = count_from n (bid + 1) (count_bucket bid total)

    pub count_impl : Bool → ℕ → ℕ
    count_impl mounted n_buckets = if not mounted then 0 else count_from n_buckets 0 0

    pub iterate_bucket : {U : Type 0} → Visitor U → ℕ → Exec U (Unit {0})
    iterate_bucket cb bid u = elim (read_bucket bid) [
      | err e ↦ (ok tt, u)
      | ok buf ↦
          if not (bucket_hdr_valid g buf bid)
          then (ok tt, u)
          else if bucket_image_ends_foreign g buf
          then (err eio, u)
          else for_each_live_slot cb buf u
    ]

    pub iterate_from : {U : Type 0} → Visitor U → ℕ → ℕ → Exec U (Unit {0})
    iterate_from cb zero bid u = (ok tt, u)
    iterate_from cb (suc n) bid u =
        let (r, u') = iterate_bucket cb bid u in continue r (λ _. iterate_from cb n (bid + 1)) u'

    -- `cb` is none where the source has a null pointer
    pub iterate_impl : {U : Type 0} → Bool → ℕ → Option (Visitor U) → Exec U (Unit {0})
    iterate_impl false n_buckets cb u = (err enodev, u)
    iterate_impl true n_buckets none u = (err einval, u)
    iterate_impl true n_buckets (some cb) u = iterate_from cb n_buckets 0 u
