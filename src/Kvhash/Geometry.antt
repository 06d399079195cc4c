-- ===== src/Kvhash/Geometry.antt =====
-- The derived geometry: the loop ends, a fan-out fits its directory, and the buckets hold what the
-- caller declared.
use key_value_db.Base.{
  ℕ, zero, suc, ◌+◌, ◌-◌, ◌*◌, ◌/◌, ◌%◌, ◌^◌, ◌≤◌, ◌<◌, ◌≡◌, refl, ◌⊎◌, inl, inr, false, not, ◌&&◌,
  some, arith, ltb, leb, ◌==◌, ltb→lt, ltb→le, leb→le, ==_iff, Bool-cases, einval, Result, ok, err,
  Gives,
}
use native.Mathlib.Nat.{mod-eq_of_lt, mul-le-mul, le-mul_of_pos_right}
use key_value_db.Kvdb.{MapConfig}
use key_value_db.Kvhash.{
  MapGeometry, one_level_max_buckets, max_buckets, entry_limit, load_for, want_for, buckets_for,
  side_from, flat, square, two_levels, derive_geometry,
}

module _ (w max_payload : ℕ) where
  -- the least side whose square is not below the buckets
  abbrev pub IsSide : ℕ → ℕ → Type 0
  IsSide buckets side = (buckets ≤ side * side) × (0 < side) × ((side - 1) * (side - 1) < buckets)

  side_from_lem :
      (buckets r n side : ℕ)
      → buckets ≤ r * r
      → r * r < 2 ^ w
      → 0 < side
      → n + side ≡ suc buckets + 1
      → 0 < buckets
      → (side - 1) * (side - 1) < buckets
      → Gives (side_from w max_payload n side buckets) (IsSide buckets)
  unfolding side_from
  side_from_lem buckets r zero side h fits pos m b below =
      let s : side - 1 ≡ suc buckets = omega arith in
      let le : suc buckets ≤ suc buckets * suc buckets =
        le-mul_of_pos_right (suc buckets) (omega arith) in
      absurd (omega (arith, le, rw (s) at below))
  side_from_lem buckets r (suc n) side h fits pos m b below = elim (Bool-cases (ltb side (r + 1))) [
    | inl e ↦
        let le : side ≤ r = omega (arith, ltb→lt side (r + 1) e) in
        let sq : side * side ≤ r * r = mul-le-mul le le in
        let v : side * side % 2 ^ w ≡ side * side = mod-eq_of_lt (omega (arith, sq, fits)) in
        elim (Bool-cases (ltb (side * side) buckets)) [
          | inl x ↦
              let back : side + 1 - 1 ≡ side = omega arith in
              rw (side_from, v, x)
                (side_from_lem buckets r n (side + 1) h fits (omega arith) (omega arith) b
                  (rw (back) (ltb→lt _ _ x)))
          | inr x ↦ rw (side_from, v, x) (side, refl, (ltb→le _ _ x, pos, below))
        ]
    | inr e ↦
        let le : r ≤ side - 1 = omega (arith, ltb→le side (r + 1) e) in
        let sq : r * r ≤ (side - 1) * (side - 1) = mul-le-mul le le in
        absurd (omega (arith, sq, below, h))
  ]

  pub load-bounds :
      (maxent : ℕ) → (0 < load_for w max_payload maxent) × (load_for w max_payload maxent ≤ 4)
  unfolding load_for
  load-bounds maxent = ground arith

  pub buckets-ge : (entries typical : ℕ) → 255 ≤ buckets_for w max_payload entries typical
  unfolding buckets_for
  buckets-ge entries typical = ground arith

  pub buckets-le :
      (entries typical r : ℕ)
      → entries ≤ r
      → 255 ≤ r
      → buckets_for w max_payload entries typical ≤ r
  unfolding buckets_for
  buckets-le entries typical r h h' = ground arith

  pub want-bounds :
      (entries load : ℕ)
      → 0 < load
      → load ≤ 4
      → entries + 4 ≤ 2 ^ w
      → (2 ≤ want_for w max_payload entries load)
        × (entries ≤ 4 * want_for w max_payload entries load)
  unfolding want_for
  want-bounds entries load pos le fits =
      let whole : (entries + load - 1) % 2 ^ w ≡ entries + load - 1 = mod-eq_of_lt (omega arith) in
      let enough = per_bucket load pos le in rw (whole) (ground (arith, enough))
    where
      per_bucket : (load : ℕ) → 0 < load → load ≤ 4 → entries ≤ 4 * ((entries + load - 1) / load)
      per_bucket zero h h' = absurd (omega arith)
      per_bucket (suc zero) h h' = omega arith
      per_bucket (suc (suc zero)) h h' = omega arith
      per_bucket (suc (suc (suc zero))) h h' = omega arith
      per_bucket (suc (suc (suc (suc zero)))) h h' = omega arith
      per_bucket (suc (suc (suc (suc (suc n))))) h h' = absurd (omega arith)

  pub buckets-cover :
      (entries typical : ℕ)
      → entries * typical < 2 ^ w
      → (entries ≤ buckets_for w max_payload entries typical)
        ⊎ (entries * typical < 4096 * (buckets_for w max_payload entries typical + 1))
  unfolding buckets_for
  buckets-cover entries typical fits =
      let whole : entries * typical % 2 ^ w ≡ entries * typical = mod-eq_of_lt fits in
      rw (whole) (ground arith)

  -- A flat map with four entries to a bucket at most, or a square of buckets, one for each entry or
  -- for every 4096 bytes of them.
  abbrev pub Holds : MapConfig → MapGeometry → Type 0
  Holds cfg m =
      (2 ≤ m.n_top)
      × (m.n_top ≤ max_buckets w max_payload)
      × (((m.depth ≡ 1) × (m.n_sub ≡ 0) × (cfg.expected_entries ≤ 4 * m.n_top))
          ⊎ ((m.depth ≡ 2)
              × (m.n_sub ≡ m.n_top)
              × ((cfg.expected_entries ≤ m.n_top * m.n_top)
                  ⊎ (cfg.expected_entries * cfg.typical_entry_bytes
                      < 4096 * (m.n_top * m.n_top + 1)))))

  -- An entry that no record holds, a mean above the largest, or more entries than a square of
  -- buckets.
  abbrev pub IsRefused : MapConfig → Type 0
  IsRefused cfg =
      (entry_limit w max_payload < cfg.max_entry_bytes)
      ⊎ ((cfg.max_entry_bytes < cfg.typical_entry_bytes)
          ⊎ (max_buckets w max_payload * max_buckets w max_payload < cfg.expected_entries))

  abbrev pub Answer : MapConfig → Result MapGeometry → Type 0
  Answer cfg (ok m) = Holds cfg m
  Answer cfg (err e) = (e ≡ einval) × IsRefused cfg

  module _ (cfg : MapConfig) (r : ℕ) (wide : 16 ≤ max_buckets w max_payload)
      (narrow : max_payload < 2 ^ 16) (counted : cfg.expected_entries + 4 ≤ 2 ^ w)
      (sized : cfg.expected_entries * cfg.typical_entry_bytes < 2 ^ w)
      (root : cfg.expected_entries ≤ r * r) (small : 255 ≤ r * r) (fits : r * r < 2 ^ w) where
    abbrev target : ℕ
    target = buckets_for w max_payload cfg.expected_entries cfg.typical_entry_bytes

    covered :
        (side : ℕ)
        → target ≤ side * side
        → (cfg.expected_entries ≤ side * side)
          ⊎ (cfg.expected_entries * cfg.typical_entry_bytes < 4096 * (side * side + 1))
    covered side cover = elim (buckets-cover cfg.expected_entries cfg.typical_entry_bytes sized) [
      | inl e ↦ inl (omega (arith, e, cover))
      | inr e ↦ inr (omega (arith, e, cover))
    ]

    too_many :
        max_buckets w max_payload * max_buckets w max_payload < target
        → max_buckets w max_payload * max_buckets w max_payload < cfg.expected_entries
    too_many h =
        let sq : 16 * 16 ≤ max_buckets w max_payload * max_buckets w max_payload =
          mul-le-mul wide wide in
        elim (Bool-cases (leb 255 cfg.expected_entries)) [
          | inl e ↦
              let le =
                buckets-le cfg.expected_entries cfg.typical_entry_bytes cfg.expected_entries
                  (omega arith) (leb→le 255 _ e) in
              omega (arith, le, h)
          | inr e ↦
              let few : cfg.expected_entries ≤ 255 = ground arith in
              let le =
                buckets-le cfg.expected_entries cfg.typical_entry_bytes 255 few (omega arith) in
              absurd (omega (arith, le, h, sq))
        ]

    square_lem :
        (side : ℕ) → IsSide target side → Gives (square w max_payload (some side)) (Answer cfg)
    square_lem side (cover, pos, below) =
        let max = max_buckets w max_payload in
        let many = buckets-ge cfg.expected_entries cfg.typical_entry_bytes in
        let two : ltb side 2 ≡ false = elim (Bool-cases (ltb side 2)) [
          | inr e ↦ e
          | inl e ↦
              let one : side ≤ 1 = omega (arith, ltb→lt side 2 e) in
              let sq : side * side ≤ 1 * 1 = mul-le-mul one one in
              absurd (omega (arith, sq, many, cover))
        ] in
        elim (Bool-cases (ltb max side)) [
          | inl e ↦
              let le : max ≤ side - 1 = omega (arith, ltb→lt max side e) in
              let sq : max * max ≤ (side - 1) * (side - 1) = mul-le-mul le le in
              (
                err einval,
                rw (two, e) refl,
                (refl, inr (inr (too_many (omega (arith, sq, below))))),
              )
          | inr e ↦
              let le : side ≤ max = ltb→le max side e in
              let v : side % 2 ^ 16 ≡ side = mod-eq_of_lt (omega arith) in
              (
                ok record { depth = 2; n_top = side; n_sub = side },
                rw (two, e, v) refl,
                (omega (arith, ltb→le side 2 two), le, inr (refl, refl, covered side cover)),
              )
        ]

    two_levels_lem : Gives (two_levels w max_payload target) (Answer cfg)
    unfolding two_levels
    two_levels_lem =
        let many = buckets-ge cfg.expected_entries cfg.typical_entry_bytes in
        let (side, run, is_side) =
          side_from_lem target r (suc target) 1
            (buckets-le cfg.expected_entries cfg.typical_entry_bytes (r * r) root small) fits
            (omega arith) (omega arith) (omega (arith, many)) (omega (arith, many)) in
        rw (two_levels, run) (square_lem side is_side)

    -- With a size_t wide enough for the declared entries, for their bytes and for the square of a
    -- number that is not below them (nor below 255), a payload of 16 bits that holds 16 buckets at
    -- least, derive_geometry ends; it answers with two buckets at least and no more than a
    -- directory holds at each level, that hold the entries by four at most in a flat map, and in a
    -- map of two levels are one for each entry or for every 4096 bytes; or with -EINVAL for an
    -- entry over the limit of a record, a mean above the largest, or more entries than the square
    -- of the largest directory.
    pub derive_geometry_lem : Gives (derive_geometry w max_payload cfg) (Answer cfg)
    unfolding derive_geometry
    derive_geometry_lem =
        let entries = cfg.expected_entries in
        let load = load_for w max_payload cfg.max_entry_bytes in
        let want = want_for w max_payload entries load in
        let (some_load, small_load) = load-bounds cfg.max_entry_bytes in
        let (two, enough) = want-bounds entries load some_load small_load counted in
        elim (Bool-cases
          (not (cfg.max_entry_bytes == 0) && ltb (entry_limit w max_payload) cfg.max_entry_bytes)) [
            | inl e ↦ (err einval, rw (e) refl, (refl, inl (ground arith)))
            | inr e ↦
                elim (Bool-cases (
                  not (cfg.typical_entry_bytes == 0)
                  && (not (cfg.max_entry_bytes == 0)
                      && ltb cfg.max_entry_bytes cfg.typical_entry_bytes))) [
                        | inl x ↦ (err einval, rw (e, x) refl, (refl, inr (inl (ground arith))))
                        | inr x ↦ elim (Bool-cases (entries == 0)) [
                          | inl z ↦
                              let zero_entries : entries ≡ 0 = (==_iff entries 0).0 z in
                              (
                                flat w max_payload 8,
                                rw (e, x, z) refl,
                                (omega arith, omega arith, inl (refl, refl, omega arith)),
                              )
                          | inr z ↦
                              elim (Bool-cases (
                                leb want one_level_max_buckets
                                && leb want (max_buckets w max_payload))) [
                                  | inl f ↦
                                      let (low, high) : (want ≤ 255)
                                          × (want ≤ max_buckets w max_payload) =
                                        ground arith in
                                      let v : want % 2 ^ 16 ≡ want = mod-eq_of_lt (omega arith) in
                                      (
                                        flat w max_payload want,
                                        rw (e, x, z, f, v) refl,
                                        (two, high, inl (refl, refl, enough)),
                                      )
                                  | inr f ↦ rw (e, x, z, f) two_levels_lem
                                ]
                        ]
                      ]
          ]
