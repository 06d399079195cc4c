-- ===== src/Kvhash/Steps.antt =====
-- kvhash_set when it succeeds on a bucket in use: the steps it has taken.
use key_value_db.Base.{
  ℕ, ◌+◌, ◌≤◌, ◌≡◌, refl, ◌∙◌, ◌≢◌, ◌⊎◌, inl, inr, false, List, ◌++◌, arith, ltb, ◌==◌, ltb→le,
  Bool-cases, length, ok, Result-cases,
}
use key_value_db.BlobDb.{BlobDb}
use key_value_db.Kvhash.Dir.{Leaf}
use key_value_db.Kvhash.Ops.{release_part}
use key_value_db.Kvhash.Atomic.{Wedged-release_part}
use key_value_db.Kvhash.Set.{
  Fresh, Old, image_with, need_of, bind_key, bind_val, commit_bucket, release_old, set_bound,
  set_entry_in,
}

module _ (db : BlobDb) (max_payload : ℕ) where
  open db use {Store, view, ceiling, Wedged, update, delete, delete_ok, delete_err, ceiling-update}

  record Bound (leaf : Leaf) (bid : ℕ) (bkt : List ℕ) (f : Fresh) (old : Old) (kid : ℕ) (s : Store)
      : Type 0 where
    vid : ℕ
    valued : (bind_val db max_payload f s).0 ≡ ok vid
    written : (update bid (bkt ++ image_with f kid vid) (bind_val db max_payload f s).1).0 ≡ ok tt
    result :
        (set_bound db max_payload leaf bid bkt f old kid s).1
        ≡ release_old db max_payload old kid
            (update bid (bkt ++ image_with f kid vid) (bind_val db max_payload f s).1).1

  set_bound-Bound :
      (leaf : Leaf) (bid : ℕ) (bkt : List ℕ) (f : Fresh) (old : Old) (kid : ℕ) (s : Store)
      → bid ≢ 0
      → (set_bound db max_payload leaf bid bkt f old kid s).0 ≡ ok tt
      → Bound leaf bid bkt f old kid s
  unfolding set_bound commit_bucket
  set_bound-Bound leaf bid bkt f old kid s real h =
      let in_use : (bid == 0) ≡ false = ground arith in
      let s' = (bind_val db max_payload f s).1 in
      elim (Result-cases (bind_val db max_payload f s).0) [
        | inr (e, failed) ↦ absurd (let h' = rw failed at h in cc)
        | inl (vid, valued) ↦ elim (Result-cases (update bid (bkt ++ image_with f kid vid) s').0) [
          | inr (e, failed) ↦ absurd (let h' = rw (valued, in_use, failed) at h in cc)
          | inl (tt, written) ↦ record {
            vid = vid;
            valued = valued;
            written = written;
            result = rw (valued, in_use, written) refl;
          }
        ]
      ]

  -- every step of a set that succeeds
  pub record Steps (bid : ℕ) (bkt : List ℕ) (f : Fresh) (old : Old) (s s' : Store) : Type 0 where
    pub k : ℕ × ℕ
    pub vid : ℕ
    pub room : length bkt + need_of f ≤ max_payload
    pub keyed : (bind_key db max_payload f old s).0 ≡ ok k
    pub valued : (bind_val db max_payload f (bind_key db max_payload f old s).1).0 ≡ ok vid
    pub written :
        (update bid
          (bkt ++ image_with f k.0 vid)
          (bind_val db max_payload f (bind_key db max_payload f old s).1).1).0
        ≡ ok tt
    pub result :
        s'
        ≡ release_old db max_payload old k.0
            (update bid
              (bkt ++ image_with f k.0 vid)
              (bind_val db max_payload f (bind_key db max_payload f old s).1).1).1

  pub set_entry_in-Steps :
      (leaf : Leaf) (bid : ℕ) (bkt : List ℕ) (f : Fresh) (old : Old) (s : Store)
      → bid ≢ 0
      → (set_entry_in db max_payload leaf bid bkt f old s).0 ≡ ok tt
      → Steps bid bkt f old s (set_entry_in db max_payload leaf bid bkt f old s).1
  unfolding set_entry_in
  set_entry_in-Steps leaf bid bkt f old s real h =
      let s1 = (bind_key db max_payload f old s).1 in
      elim (Bool-cases (ltb max_payload (length bkt + need_of f))) [
        | inl full ↦ absurd (let h' = rw full at h in cc)
        | inr room ↦ elim (Result-cases (bind_key db max_payload f old s).0) [
          | inr (e, failed) ↦ absurd (let h' = rw (room, failed) at h in cc)
          | inl (k, keyed) ↦
              elim (Result-cases (set_bound db max_payload leaf bid bkt f old k.0 s1).0) [
                | inr (e, failed) ↦ absurd (let h' = rw (room, keyed, failed) at h in cc)
                | inl (tt, done) ↦
                    let b = set_bound-Bound leaf bid bkt f old k.0 s1 real done in
                    record {
                      k = k;
                      vid = b.vid;
                      room = ltb→le max_payload (length bkt + need_of f) room;
                      keyed = keyed;
                      valued = b.valued;
                      written = b.written;
                      result = rw (room, keyed, done) b.result;
                    }
              ]
        ]
      ]

  pub release_part-others :
      (id j : ℕ) (s : Store)
      → ¬ Wedged (release_part db max_payload id s)
      → j ≢ id
      → view (release_part db max_payload id s) j ≡ view s j
  unfolding release_part
  release_part-others id j s = elim (Bool-cases (id == 0)) [
    | inl nothing ↦ rw nothing (λ sane other. refl)
    | inr real ↦ rw real (λ sane other. elim (Result-cases (delete id s).0) [
      | inl (u, e) ↦ delete_ok id s e j ∙ ground (arith, other)
      | inr (x, e) ↦ elim (delete_err id s x e j) [
        | inl (inl same) ↦ same
        | inl (inr (lost, wedged)) ↦ absurd (sane wedged)
        | inr (same, landed) ↦ absurd (other same)
      ]
    ])
  ]

  -- where the release does not wedge the store
  pub release_old-others :
      (old : Old) (kid j : ℕ) (s : Store)
      → ¬ Wedged (release_old db max_payload old kid s)
      → j ≢ old.vid
      → (old.kid ≡ kid) ⊎ (j ≢ old.kid)
      → view (release_old db max_payload old kid s) j ≡ view s j
  unfolding release_old
  release_old-others old kid j s = elim (Bool-cases (old.kid == kid)) [
    | inl same ↦ rw same (λ sane other kept. release_part-others old.vid j s sane other)
    | inr differ ↦ rw differ (λ sane other kept.
        release_part-others old.vid j (release_part db max_payload old.kid s) sane other
        ∙ release_part-others old.kid j s
            (λ w. sane (
              Wedged-release_part db 0 max_payload old.vid (release_part db max_payload old.kid s)
                w))
            (elim kept [ inl same ↦ absurd (ground arith) | inr apart ↦ apart ]))
  ]
