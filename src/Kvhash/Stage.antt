-- ===== src/Kvhash/Stage.antt =====
-- kvhash_set when it succeeds: the blobs of the new entry, before the commit.
use key_value_db.Base.{
  ℕ, ◌≤◌, ◌<◌, ◌≡◌, refl, sym, ap, ◌∙◌, ◌≢◌, ◌⊎◌, inl, inr, Bool, true, false, ◌&&◌, some, List,
  ◌++◌, arith, ◌==◌, if◌then◌else◌, ==_refl, Bool-cases, length, values, le_bytes, ok, Result-cases,
}
use mathlib.Core.Path.{subst}
use key_value_db.BlobDb.{BlobDb, BlobReads}
use key_value_db.Kvhash.Bucket.{ent_spill}
use key_value_db.Kvhash.Find.{hash_fp}
use key_value_db.Kvhash.Hit.{KeyAt, ValAt}
use key_value_db.Kvhash.Ops.{fresh_id}
use key_value_db.Kvhash.Set.{Fresh, Old, kept_kid, bind_blob, bind_key, bind_val}

abbrev pub key_part : Bool → Fresh → ℕ → List ℕ
key_part spilled f kid = if spilled then le_bytes 4 f.fp ++ le_bytes 8 kid else f.key

abbrev pub val_part : Bool → Fresh → ℕ → List ℕ
val_part spilled f vid = if spilled then le_bytes 8 vid else f.val

module _ (db : BlobDb) (reads : BlobReads db) (crc32 : List ℕ → ℕ) (max_payload : ℕ) where
  open db use {
    Store, view, ceiling, alloc_id, update, update_ok, ceiling-update, view-alloc_id,
    ceiling-alloc_id, alloc_id_fresh, alloc_id-lt,
  }

  -- an id that was issued between two states
  pub record Issued (s s' : Store) (id : ℕ) : Type 0 where
    pub above : ceiling s ≤ id
    pub below : id < ceiling s'
    pub real : id ≢ 0
    pub fits : id < values 8

  -- a blob that was bound to a fresh id
  pub record BoundTo (s s' : Store) (id : ℕ) (p : List ℕ) : Type 0 where
    pub issued : Issued s s' id
    pub bound : view s' id ≡ some p

  bind_blob-ok :
      (p : List ℕ) (s : Store) (id : ℕ)
      → (bind_blob db max_payload p s).0 ≡ ok id
      → BoundTo s (bind_blob db max_payload p s).1 id p
  unfolding bind_blob fresh_id
  bind_blob-ok p s id h =
      let (i, s1) = alloc_id s in
      elim (Bool-cases (i == 0)) [
        | inl none_left ↦ absurd (let h' = rw none_left at h in cc)
        | inr given ↦ elim (Result-cases (update i p s1).0) [
          | inr (e, failed) ↦ absurd (let h' = rw (given, failed) at h in cc)
          | inl (u, done) ↦
              let same : i ≡ id = let h' = rw (given, done) at h in cc in
              let (_, above, below) = alloc_id_fresh s (ground arith) in
              rw (given, done)
                record {
                  issued = record {
                    above = omega (arith, above, same);
                    below = omega (arith, below, same, ceiling-update i p s1);
                    real = ground arith;
                    fits = omega (arith, alloc_id-lt s, same);
                  };
                  bound = update_ok i p s1 done id ∙ ground (arith, same, ==_refl i);
                }
        ]
      ]

  -- what the set asks of the new entry
  pub record IsFresh (f : Fresh) : Type 0 where
    pub key_fits : length f.key < ent_spill
    pub val_fits : length f.val < ent_spill
    pub fp : f.fp ≡ hash_fp crc32 (crc32 f.key)
    pub short : f.kspill ≡ true → length f.key ≤ max_payload

  -- where the key's blob comes from
  abbrev pub KidOf : Store → Store → Old → ℕ → Type 0
  KidOf s s' old kid = (kid ≡ 0) ⊎ (((kid ≡ old.kid) × (kid ≢ 0)) ⊎ Issued s s' kid)

  abbrev pub KeyFor : Store → Fresh → ℕ → Bool → Type 0
  KeyFor s f kid spilled =
      KeyAt db reads crc32 max_payload s spilled kid (key_part spilled f kid) f.key

  abbrev pub ValFor : Store → Fresh → ℕ → Bool → Type 0
  ValFor s f vid spilled =
      ValAt db reads crc32 max_payload s spilled vid (val_part spilled f vid) f.val

  kept_kid-cases : (f : Fresh) (old : Old) → (kept_kid f old ≡ 0) ⊎ (kept_kid f old ≡ old.kid)
  kept_kid-cases f old = elim (Bool-cases (f.kspill && old.kspill)) [
    | inl kept ↦ inr (rw kept refl)
    | inr dropped ↦ inl (rw dropped refl)
  ]

  spilled-KeyFor :
      (s : Store) (f : Fresh) (kid : ℕ)
      → IsFresh f
      → f.kspill ≡ true
      → kid ≢ 0
      → kid < values 8
      → view s kid ≡ some f.key
      → KeyFor s f kid f.kspill
  spilled-KeyFor s f kid fresh spilled real fits bound =
      subst (λ b. KeyFor s f kid b) (sym spilled)
        (real, fits, ap (λ x. le_bytes 4 x ++ le_bytes 8 kid) fresh.fp, bound, fresh.short spilled)

  kept-KeyFor :
      (s : Store) (f : Fresh) (old : Old)
      → IsFresh f
      → (old.kid ≢ 0 → (old.kid < values 8) × (view s old.kid ≡ some f.key))
      → (f.kspill && kept_kid f old == 0) ≡ false
      → KeyFor s f (kept_kid f old) f.kspill × KidOf s s old (kept_kid f old)
  kept-KeyFor s f old fresh kept given = elim (Bool-cases f.kspill) [
    | inr inline ↦
        let none_kept : kept_kid f old ≡ 0 = ground arith in
        (subst (λ b. KeyFor s f (kept_kid f old) b) (sym inline) refl, inl none_kept)
    | inl spilled ↦
        let real : kept_kid f old ≢ 0 = ground arith in
        elim (kept_kid-cases f old) [
          | inl nothing ↦ absurd (real nothing)
          | inr same ↦
              let (fits, bound) = kept (subst (λ (i : ℕ). i ≢ 0) same real) in
              (
                spilled-KeyFor s f (kept_kid f old) fresh spilled real (omega (arith, same, fits))
                    (ap (view s) same ∙ bound),
                inr (inl (same, real)),
              )
        ]
  ]

  pub bind_key-ok :
      (f : Fresh) (old : Old) (s : Store) (k : ℕ × ℕ)
      → IsFresh f
      → (old.kid ≢ 0 → (old.kid < values 8) × (view s old.kid ≡ some f.key))
      → (bind_key db max_payload f old s).0 ≡ ok k
      → KeyFor (bind_key db max_payload f old s).1 f k.0 f.kspill
        × KidOf s (bind_key db max_payload f old s).1 old k.0
  unfolding bind_key
  bind_key-ok f old s k fresh kept h = elim (Bool-cases (f.kspill && kept_kid f old == 0)) [
    | inr given ↦
        let same : (kept_kid f old, 0) ≡ k = let h' = rw given at h in cc in
        rw given (
          subst (λ (k : ℕ × ℕ). KeyFor s f k.0 f.kspill × KidOf s s old k.0) same
            (kept-KeyFor s f old fresh kept given))
    | inl spilled ↦ elim (Result-cases (bind_blob db max_payload f.key s).0) [
      | inr (e, failed) ↦ absurd (let h' = rw (spilled, failed) at h in cc)
      | inl (id, done) ↦
          let s1 = (bind_blob db max_payload f.key s).1 in
          let b = bind_blob-ok f.key s id done in
          let same : (id, id) ≡ k = let h' = rw (spilled, done) at h in cc in
          rw (spilled, done)
            (subst (λ (k : ℕ × ℕ). KeyFor s1 f k.0 f.kspill × KidOf s s1 old k.0) same
              (
                spilled-KeyFor s1 f id fresh (ground arith) b.issued.real b.issued.fits b.bound,
                inr (inr b.issued),
              ))
    ]
  ]

  pub bind_val-ok :
      (f : Fresh) (s : Store) (vid : ℕ)
      → (bind_val db max_payload f s).0 ≡ ok vid
      → ValFor (bind_val db max_payload f s).1 f vid f.vspill
        × ((vid ≡ 0) ⊎ Issued s (bind_val db max_payload f s).1 vid)
  unfolding bind_val
  bind_val-ok f s vid h = elim (Bool-cases f.vspill) [
    | inr inline ↦
        let same : ◌≡◌ {A = ℕ} 0 vid = let h' = rw inline at h in cc in
        rw inline (refl, inl (sym same))
    | inl spilled ↦
        let done : (bind_blob db max_payload f.val s).0 ≡ ok vid = rw spilled at h in
        let b = bind_blob-ok f.val s vid done in
        rw spilled ((b.issued.real, b.issued.fits, refl, b.bound), inr b.issued)
  ]
