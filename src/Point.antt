-- ===== src/Point.antt =====
-- lib/blob_db/blob_db.c: the point operations on one blob, in the build without large payloads and
-- without the slot index.
pub mod Nor
pub mod Lookup
pub mod Update
pub mod Format
pub mod Delete
pub mod Compact
pub mod Tests
use key_value_db.Base.{
  ℕ, zero, suc, ◌+◌, ◌-◌, ◌*◌, ◌/◌, ◌%◌, ◌^◌, ◌≤◌, ◌<◌, min, ◌≡◌, refl, sym, ap, ap₂, ◌∙◌, ◌≢◌, ◌↔◌,
  ◌⊎◌, inl, inr, Bool, true, false, not, ◌&&◌, ◌||◌, Option, none, some, List, [], ◌∷◌, ◌++◌, map,
  arith, ltb, leb, ◌==◌, if◌then◌else◌, ltb→lt, ltb→le, leb→le, ==_iff, ==_refl, Bool-cases,
  Option-cases, length, get_or, set, take, drop, replicate, All, length-append, length-set,
  length-take, length-drop, length-replicate, get_or-set_self, get_or-set_ne, take-append_self,
  drop-append_self, take_self, drop-nil, drop-drop, drop-append, take-append, take-append_right,
  values, le_bytes, of_le, int_at, length-le_bytes, of_le-le_bytes, int_at-le_bytes, take-le_bytes,
  drop-le_bytes, Errno, enoent, eio, enomem, eexist, einval, enospc, enotsup, enodev, emsgsize,
  estale, enodata, ebadmsg, is_ebadmsg, code, Result, ok, err, Gives, is_enoent, is_enospc, Exec,
  continue, ◌>>=◌, ◌>>◌, return, fail, lift, Result-cases,
}
use key_value_db.BucketLog.{Geometry, slot_size_for, bucket_data_off}
use key_value_db.BucketLog.Header.{bucket_hdr_valid}
use key_value_db.Scan.{BucketScan, scan_bucket_for, walk_live_slot}
use key_value_db.Append.{append_slot}
use key_value_db.Compaction.{Backend, Core, bucket, io, compact_bucket}

-- what these operations read of `st` besides the flash and `wedged`
pub record Mount : Type 0 where
  pub mounted : Bool
  pub n_buckets : ℕ
  pub next_id : ℕ

abbrev pub id_to_bucket : Mount → ℕ → ℕ
id_to_bucket st id = id % st.n_buckets

-- BLOB_DB_SLOT_F_TOMBSTONE
abbrev pub f_tombstone : ℕ
f_tombstone = 2

abbrev pub is_ok : {A : Type 0} → Result A → Bool
is_ok (ok a) = true
is_ok (err e) = false

module _ (g : Geometry) where
  -- the header of a bucket of generation 1
  unfoldable pub first_header : ℕ → List ℕ
  first_header bid =
      let head = b'B' ∷ b'D' ∷ b'B' ∷ b'H' ∷ (le_bytes 2 bid ++ (le_bytes 2 0 ++ le_bytes 4 1)) in
      head ++ le_bytes 4 (g.crc32 head)

  -- the append cursor, past the end where the log ends at a torn slot
  abbrev pub confirm_cursor : BucketScan → Result ℕ
  confirm_cursor sc =
      if sc.foreign then err enotsup else if sc.tail_torn then ok g.peb_size else ok sc.write_cursor

  module _ (b : Backend) (max_write_align : ℕ) where
    abbrev pub sector_read : b.Flash → ℕ → ℕ → ℕ → Result (List ℕ)
    sector_read f bid off n = b.read f (bucket bid) off n

    unfoldable pub format_bucket : ℕ → Exec (Core b) (Unit {0})
    format_bucket bid = io b (b.replace (bucket bid) (first_header bid))

    -- whether the bucket is formatted
    unfoldable pub read_bucket_hdr : b.Flash → ℕ → Result Bool
    read_bucket_hdr f bid = elim (sector_read f bid 0 bucket_data_off) [
      | err e ↦ err e
      | ok bhdr ↦ ok (bucket_hdr_valid g bhdr bid)
    ]

    unfoldable pub find_live_slot : b.Flash → ℕ → ℕ → Result (BucketScan × List ℕ)
    find_live_slot f bid id = walk_live_slot g (sector_read f bid) id

    -- bucket_cursor, and confirm_cursor behind it
    unfoldable pub bucket_cursor : ℕ → ℕ → Exec (Core b) ℕ
    bucket_cursor bid id c = elim (scan_bucket_for g (sector_read c.flash bid) id g.peb_size) [
      | err e ↦ (err e, c)
      | ok sc ↦ (confirm_cursor sc, c)
    ]

    -- where `update_impl` would append
    unfoldable pub update_cursor : ℕ → ℕ → Bool → Exec (Core b) ℕ
    update_cursor bid id false = format_bucket bid >> return bucket_data_off
    update_cursor bid id true = bucket_cursor bid id

    abbrev pub or_full : ℕ → ℕ → Exec (Core b) ℕ
    or_full ssz cursor c = if ltb g.peb_size (cursor + ssz) then (err enospc, c) else (ok cursor, c)

    -- the same cursor, or the one after a compaction where the slot does not fit
    unfoldable pub make_room : ℕ → ℕ → ℕ → ℕ → Exec (Core b) ℕ
    make_room bid id ssz cursor c =
        if ltb g.peb_size (cursor + ssz)
        then (compact_bucket g b bid >> bucket_cursor bid id >>= or_full ssz) c
        else (ok cursor, c)

    unfoldable pub append_at : ℕ → ℕ → ℕ → List ℕ → ℕ → Exec (Core b) (Unit {0})
    append_at bid id extra payload cursor =
        append_slot g max_write_align (λ off bytes. io b (b.write (bucket bid) off bytes)) cursor id
          extra payload

    unfoldable pub update_in : ℕ → ℕ → List ℕ → Bool → Exec (Core b) (Unit {0})
    update_in bid id payload formatted =
        update_cursor bid id formatted
        >>= make_room bid id (slot_size_for g (length payload))
        >>= append_at bid id 0 payload

    abbrev pub update_with : Mount → ℕ → Option (List ℕ) → Exec (Core b) (Unit {0})
    update_with st id none c = (err einval, c)
    update_with st id (some payload) c =
        if ltb g.max_payload (length payload)
        then (err einval, c)
        else elim (read_bucket_hdr c.flash (id_to_bucket st id)) [
          | err e ↦ (err e, c)
          | ok formatted ↦ update_in (id_to_bucket st id) id payload formatted c
        ]

    -- `none` is a null pointer with a length other than 0
    unfoldable pub update_impl : Mount → ℕ → Option (List ℕ) → Exec (Core b) (Unit {0})
    update_impl st id payload c =
        if not st.mounted
        then (err enodev, c)
        else if c.wedged
        then (err eio, c)
        else if id == 0 || leb st.next_id id
        then (err einval, c)
        else update_with st id payload c

    -- the second lookup of `delete_impl`, in the compacted bucket
    unfoldable pub find_again : ℕ → ℕ → ℕ → Exec (Core b) ℕ
    find_again bid id ssz c = elim (find_live_slot c.flash bid id) [
      | err e ↦ (err e, c)
      | ok (sc, dst) ↦ (lift (confirm_cursor sc) >>= or_full ssz) c
    ]

    unfoldable pub delete_room : ℕ → ℕ → ℕ → ℕ → Exec (Core b) ℕ
    delete_room bid id ssz cursor c =
        if ltb g.peb_size (cursor + ssz)
        then (compact_bucket g b bid >> find_again bid id ssz) c
        else (ok cursor, c)

    unfoldable pub delete_in : ℕ → ℕ → BucketScan → Exec (Core b) (Unit {0})
    delete_in bid id sc =
        lift (confirm_cursor sc)
        >>= delete_room bid id (slot_size_for g 0)
        >>= append_at bid id f_tombstone []

    unfoldable pub delete_impl : Mount → ℕ → Exec (Core b) (Unit {0})
    delete_impl st id c =
        if not st.mounted
        then (err enodev, c)
        else if c.wedged
        then (err eio, c)
        else if id == 0
        then (err enoent, c)
        else elim (read_bucket_hdr c.flash (id_to_bucket st id)) [
          | err e ↦ (err e, c)
          | ok false ↦ (err enoent, c)
          | ok true ↦ elim (find_live_slot c.flash (id_to_bucket st id) id) [
            | err e ↦ (err e, c)
            | ok (sc, dst) ↦ delete_in (id_to_bucket st id) id sc c
          ]
        ]

    -- the lookup that get, size and exists share: the payload
    unfoldable pub find_payload : Mount → ℕ → Core b → Result (List ℕ)
    find_payload st id c = elim (read_bucket_hdr c.flash (id_to_bucket st id)) [
      | err e ↦ err e
      | ok false ↦ err enoent
      | ok true ↦ elim (find_live_slot c.flash (id_to_bucket st id) id) [
        | err e ↦ err e
        | ok (sc, dst) ↦ ok dst
      ]
    ]

    abbrev pub into : ℕ → Result (List ℕ) → Result (List ℕ)
    into out_sz (err e) = err e
    into out_sz (ok dst) = if ltb out_sz (length dst) then err enomem else ok dst

    abbrev pub get_into : Mount → ℕ → Option ℕ → Core b → Result (List ℕ)
    get_into st id none c = err einval
    get_into st id (some out_sz) c =
        if id == 0 then err enoent else into out_sz (find_payload st id c)

    -- into a buffer of so many bytes; `none` is a null pointer with a size other than 0
    unfoldable pub get_impl : Mount → ℕ → Option ℕ → Core b → Result (List ℕ)
    get_impl st id out c = if not st.mounted then err enodev else get_into st id out c

    abbrev pub size_of : Result (List ℕ) → Result ℕ
    size_of (err e) = err e
    size_of (ok dst) = ok (length dst)

    -- `out` says whether there is a place for the size
    unfoldable pub size_impl : Mount → ℕ → Bool → Core b → Result ℕ
    size_impl st id out c =
        if not st.mounted
        then err enodev
        else if not out
        then err einval
        else if id == 0
        then err enoent
        else size_of (find_payload st id c)

    unfoldable pub exists_impl : Mount → ℕ → Core b → Bool
    exists_impl st id c = if not st.mounted || id == 0 then false else is_ok (find_payload st id c)
