-- ===== src/Kvhash.antt =====
-- lib/containers/kvhash/kvhash.c: the geometry that a map is created with. `w` is the width of
-- size_t, whose arithmetic wraps around. Where the source has a null config, it is one of zeros.
pub mod Geometry
pub mod Bucket
pub mod Walk
pub mod Replace
pub mod Dir
pub mod Find
pub mod Visits
pub mod Hit
pub mod Lookup
pub mod Get
pub mod Apart
pub mod Stage
pub mod Steps
pub mod Ids
pub mod Commit
pub mod Settle
pub mod Settled
pub mod Old
pub mod InPlace
pub mod SetOk
pub mod SetGet
pub mod Count
pub mod Counted
pub mod DelOk
pub mod Next
pub mod Ops
pub mod Set
pub mod Atomic
pub mod SetErr
pub mod Destroy
pub mod Release
pub mod Gone
mod Runs
mod Walks
pub mod Tests
use key_value_db.Base.{
  ℕ, zero, suc, ◌+◌, ◌-◌, ◌*◌, ◌/◌, ◌%◌, ◌^◌, ◌≤◌, ◌<◌, min, ◌≡◌, refl, sym, ap, ap₂, ◌∙◌, ◌≢◌, ◌↔◌,
  ◌⊎◌, inl, inr, Bool, true, false, not, ◌&&◌, ◌||◌, Option, none, some, List, [], ◌∷◌, ◌++◌, map,
  arith, ltb, leb, ◌==◌, if◌then◌else◌, ltb→lt, ltb→le, leb→le, ==_iff, ==_refl, Bool-cases,
  Option-cases, length, get_or, set, take, drop, replicate, All, length-append, length-set,
  length-take, length-drop, length-replicate, get_or-set_self, get_or-set_ne, take-append_self,
  drop-append_self, take_self, drop-nil, drop-drop, drop-append, take-append, take-append_right,
  values, le_bytes, of_le, int_at, length-le_bytes, of_le-le_bytes, int_at-le_bytes, take-le_bytes,
  drop-le_bytes, Errno, enoent, eio, enomem, eexist, einval, enospc, enotsup, enodev, emsgsize,
  estale, enodata, ebadmsg, is_ebadmsg, code, Result, ok, err, Gives, is_enoent, is_enospc, Exec,
  continue, ◌>>=◌, ◌>>◌, return, fail, lift, Result-cases,
}
use key_value_db.Kvdb.{MapConfig}

abbrev pub small_map_load : ℕ
small_map_load = 4

abbrev pub one_level_max_buckets : ℕ
one_level_max_buckets = 255

-- what the call hands out: the depth, and the fan-out of each level
pub record MapGeometry : Type 0 where
  pub depth : ℕ
  pub n_top : ℕ
  pub n_sub : ℕ

module _ (w max_payload : ℕ) where
  -- MAX_BUCKETS, where DIR_HDR_LEN is 8
  abbrev pub max_buckets : ℕ
  max_buckets = (max_payload - 8) / 8

  -- ENTRY_LIMIT, where ENTRY_HDR_LEN is 4
  abbrev pub entry_limit : ℕ
  entry_limit = max_payload - 4

  -- entries per bucket of a flat map; BUCKET_FILL_PCT is 60
  unfoldable pub load_for : ℕ → ℕ
  load_for maxent =
      let by_size = max_payload * 60 % 2 ^ w / 100 / maxent in
      let load = if ltb by_size small_map_load then by_size else small_map_load in
      if maxent == 0 then small_map_load else if load == 0 then 1 else load

  unfoldable pub want_for : ℕ → ℕ → ℕ
  want_for entries load =
      let want = (entries + load - 1) % 2 ^ w / load in if ltb want 2 then 2 else want

  -- buckets of a map of two levels; MIN_BUCKET_BYTES is 4096
  unfoldable pub buckets_for : ℕ → ℕ → ℕ
  buckets_for entries typical =
      let by_bytes = entries * typical % 2 ^ w / 4096 in
      let buckets = if not (typical == 0) && ltb by_bytes entries then by_bytes else entries in
      if ltb buckets one_level_max_buckets then one_level_max_buckets else buckets

  -- the loop from `side` on; none when the rounds run out
  unfoldable pub side_from : ℕ → ℕ → ℕ → Option ℕ
  side_from zero side buckets = none
  side_from (suc n) side buckets = elim (ltb (side * side % 2 ^ w) buckets) [
    | true ↦ side_from n (side + 1) buckets
    | false ↦ some side
  ]

  abbrev pub flat : ℕ → Result MapGeometry
  flat n = ok record { depth = 1; n_top = n; n_sub = 0 }

  abbrev pub square : Option ℕ → Option (Result MapGeometry)
  square none = none
  square (some side) =
      let s = if ltb side 2 then 2 else side in
      if ltb max_buckets s
      then some (err einval)
      else some (ok record { depth = 2; n_top = s % 2 ^ 16; n_sub = s % 2 ^ 16 })

  -- The rounds count up to the number of buckets, whose square is not below it.
  unfoldable pub two_levels : ℕ → Option (Result MapGeometry)
  two_levels buckets = square (side_from (suc buckets) 1 buckets)

  unfoldable pub derive_geometry : MapConfig → Option (Result MapGeometry)
  derive_geometry cfg =
      let entries = cfg.expected_entries in
      let typical = cfg.typical_entry_bytes in
      let maxent = cfg.max_entry_bytes in
      let want = want_for entries (load_for maxent) in
      if not (maxent == 0) && ltb entry_limit maxent
      then some (err einval)
      else if not (typical == 0) && (not (maxent == 0) && ltb maxent typical)
      then some (err einval)
      else if entries == 0
      then some (flat 8)
      else if leb want one_level_max_buckets && leb want max_buckets
      then some (flat (want % 2 ^ 16))
      else two_levels (buckets_for entries typical)
