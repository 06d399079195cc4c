-- ===== src/Kvhash/Settle.antt =====
-- kvhash_set when it succeeds: from the steps to the bucket that they leave.
use key_value_db.Base.{
  ℕ, ◌≤◌, ◌<◌, ◌≡◌, refl, ◌∙◌, ◌≢◌, ◌⊎◌, inl, inr, some, List, [], ◌∷◌, arith, ◌==◌, ==_refl,
  Bool-cases, All, ok,
}
use key_value_db.BlobDb.{BlobDb, BlobReads}
use key_value_db.Kvhash.Hit.{Binding, Holds}
use key_value_db.Kvhash.Lookup.{HoldsAll}
use key_value_db.Kvhash.Apart.{Distinct, Foreign, Misses}
use key_value_db.Kvhash.Stage.{
  key_part, val_part, Issued, KidOf, KeyFor, ValFor, bind_key-ok, bind_val-ok,
}
use key_value_db.Kvhash.Steps.{release_old-others}
use key_value_db.Kvhash.SetErr.{
  bind_key-Safe, bind_val-Safe, ceiling-release_old, Wedged-release_old,
}
use key_value_db.Kvhash.Atomic.{Stays-same}
use key_value_db.Kvhash.Ids.{
  OwnId, NewId, NewId-Distinct, Fresh-Distinct, new-Untouched, fresh-Untouched, own-Untouched,
  Misses-both,
}
use key_value_db.Kvhash.Commit.{
  Own, Away, binding_new, part_fits, KeyAt-frame, ValAt-frame, Holds-frame, Ready,
}
use key_value_db.Kvhash.Set.{Fresh, Old, bind_key, bind_val, release_old}

module _ (db : BlobDb) (reads : BlobReads db) (crc32 : List ℕ → ℕ) (max_payload : ℕ) where
  open db use {Store, view, ceiling, Wedged, Wedged-update, update, update_ok, ceiling-update}

  module _ (s : Store) (bid : ℕ) (zs : List Binding) (f : Fresh) (old : Old)
      (r : Ready db reads crc32 max_payload s bid zs f old) (k : ℕ × ℕ) (vid : ℕ)
      (keyed : (bind_key db max_payload f old s).0 ≡ ok k)
      (valued : (bind_val db max_payload f (bind_key db max_payload f old s).1).0 ≡ ok vid)
      (bkt : List ℕ)
      (written : (update bid bkt
          (bind_val db max_payload f (bind_key db max_payload f old s).1).1).0
        ≡ ok tt)
      (sane : ¬ Wedged (
        release_old db max_payload old k.0
          (update bid bkt
            (bind_val db max_payload f (bind_key db max_payload f old s).1).1).1)) where
    abbrev pub c : ℕ
    c = ceiling s

    -- after the key's blob, the value's, the commit and the release
    abbrev pub s1 : Store
    s1 = (bind_key db max_payload f old s).1

    abbrev pub s2 : Store
    s2 = (bind_val db max_payload f s1).1

    abbrev pub s3 : Store
    s3 = (update bid bkt s2).1

    abbrev pub s4 : Store
    s4 = release_old db max_payload old k.0 s3

    -- a store that is wedged stays so, and at the end this one is not
    sane2 : ¬ Wedged s2
    sane2 w = sane (Wedged-release_old db max_payload c old k.0 s3 (Wedged-update bid bkt s2 w))

    pub raised : (c ≤ ceiling s1) × (ceiling s1 ≤ ceiling s2) × (ceiling s2 ≤ ceiling s4)
    raised =
        let (k1, gives1) = bind_key-Safe db max_payload c f old s (omega arith) in
        let (k2, gives2) = bind_val-Safe db max_payload (ceiling s1) f s1 (omega arith) in
        (
          k1.up,
          k2.up,
          omega (arith, ceiling-update bid bkt s2, ceiling-release_old db max_payload c old k.0 s3),
        )

    -- what the commit and the release leave
    pub settled_after :
        (j : ℕ) → j ≢ bid → j ≢ old.vid → (old.kid ≡ k.0) ⊎ (j ≢ old.kid) → view s4 j ≡ view s2 j
    settled_after j elsewhere other kept =
        release_old-others db max_payload old k.0 j s3 sane other kept
        ∙ update_ok bid bkt s2 written j
        ∙ ground (arith, elsewhere)

    pub settled_before : (j : ℕ) → j < c → view s2 j ≡ view s j
    settled_before j low =
        let (k1, gives1) = bind_key-Safe db max_payload c f old s (omega arith) in
        let (k2, gives2) = bind_val-Safe db max_payload c f s1 k1.up in
        Stays-same (Wedged s2) (view s1 j) (view s2 j) sane2 (k2.below j low)
        ∙ Stays-same (Wedged s1) (view s j) (view s1 j) (λ w. sane2 (k2.wedge w)) (k1.below j low)

    key_new :
        KeyFor db reads crc32 max_payload s1 f k.0 f.kspill
        × KidOf db reads crc32 max_payload s s1 old k.0
    key_new = bind_key-ok db reads crc32 max_payload f old s k r.fresh r.kept keyed

    val_new :
        ValFor db reads crc32 max_payload s2 f vid f.vspill
        × ((vid ≡ 0) ⊎ Issued db reads crc32 max_payload s1 s2 vid)
    val_new = bind_val-ok db reads crc32 max_payload f s1 vid valued

    kid_new : NewId c old.kid k.0
    kid_new = elim (key_new.1) [
      | inl nothing ↦ inl nothing
      | inr (inl kept) ↦ inr (inl kept)
      | inr (inr i) ↦ inr (inr (i.above, i.real))
    ]

    vid_new : (vid ≡ 0) ⊎ ((c ≤ vid) × (vid ≢ 0))
    vid_new = elim (val_new.1) [
      | inl nothing ↦ inl nothing
      | inr i ↦ inr (omega (arith, raised.0, i.above), i.real)
    ]

    kid_below : k.0 ≢ 0 → k.0 < ceiling s1
    kid_below real = elim (key_new.1) [
      | inl nothing ↦ absurd (real nothing)
      | inr (inl (same, some_id)) ↦ elim r.old_kid [
        | inl none_old ↦ absurd (real (same ∙ none_old))
        | inr (low, apart) ↦ omega (arith, same, low, raised.0)
      ]
      | inr (inr i) ↦ i.below
    ]

    kid_stays : k.0 ≢ 0 → view s4 k.0 ≡ view s1 k.0
    kid_stays real =
        let (elsewhere, other, kept) =
          new-Untouched c bid old.kid old.vid k.0 kid_new real r.issued r.old_kid r.old_vid
            r.old_apart in
        let (k2, gives2) = bind_val-Safe db max_payload (ceiling s1) f s1 (omega arith) in
        settled_after k.0 elsewhere other kept
        ∙ Stays-same (Wedged s2) (view s1 k.0) (view s2 k.0) sane2 (k2.below k.0 (kid_below real))

    vid_stays : vid ≢ 0 → view s4 vid ≡ view s2 vid
    vid_stays real =
        let high : c ≤ vid = elim vid_new [
          | inl nothing ↦ absurd (real nothing)
          | inr (high, some_id) ↦ high
        ] in
        let (elsewhere, other, kept) =
          fresh-Untouched c bid old.kid old.vid k.0 vid high real r.issued r.old_kid r.old_vid in
        settled_after vid elsewhere other kept

    pub bucket_bound : view s4 bid ≡ some bkt
    bucket_bound =
        let others : (bid ≢ old.vid) × (bid ≢ old.kid) =
          ground (arith, r.real, r.old_vid, r.old_kid) in
        release_old-others db max_payload old k.0 bid s3 sane (others.0) (inr (others.1))
        ∙ update_ok bid bkt s2 written bid
        ∙ ground (arith, ==_refl bid)

    stays_at :
        (id : ℕ)
        → OwnId c bid id
        → id ≢ 0
        → Distinct old.kid id
        → Distinct old.vid id
        → view s4 id ≡ view s id
    stays_at id own real kid_id vid_id =
        let (elsewhere, other, kept) =
          own-Untouched c bid old.kid old.vid k.0 id own real kid_id vid_id in
        let low : id < c = elim own [
          | inl nothing ↦ absurd (real nothing)
          | inr (low, apart) ↦ low
        ] in
        settled_after id elsewhere other kept ∙ settled_before id low

    stays :
        (z : Binding)
        → Own c bid z
        → Away old z
        → Holds db reads crc32 max_payload s z
        → Holds db reads crc32 max_payload s4 z
    stays z own away h =
        Holds-frame db reads crc32 max_payload s s4 z
          (λ real. stays_at z.kid own.kid real away.kids away.vid_kid)
          (λ real. stays_at z.vid own.vid real away.kid_vid away.vids) h

    abbrev pub new : Binding
    new = binding_new f k.0 vid

    pub kid_own : OwnId (ceiling s4) bid k.0
    kid_own = elim kid_new [
      | inl nothing ↦ inl nothing
      | inr some_kid ↦
          let real : k.0 ≢ 0 = ground (arith, some_kid) in
          let (elsewhere, other, kept) =
            new-Untouched c bid old.kid old.vid k.0 kid_new real r.issued r.old_kid r.old_vid
              r.old_apart in
          let (up1, up2, up4) = raised in inr (omega (arith, kid_below real, up2, up4), elsewhere)
    ]

    pub vid_own : OwnId (ceiling s4) bid vid × Distinct k.0 vid
    vid_own = elim (val_new.1) [
      | inl nothing ↦ (inl nothing, inr (inl nothing))
      | inr i ↦
          let (up1, up2, up4) = raised in
          let (elsewhere, other, kept) =
            fresh-Untouched c bid old.kid old.vid k.0 vid (omega (arith, up1, i.above)) i.real
              r.issued r.old_kid r.old_vid in
          (
            inr (omega (arith, i.below, up4), elsewhere),
            elim (Bool-cases (k.0 == 0)) [
              | inl none_key ↦ inl (ground arith)
              | inr real ↦
                  let low = kid_below (ground arith) in inr (inr (omega (arith, low, i.above)))
            ],
          )
    ]

    new-Foreign : (z : Binding) → Own c bid z → Away old z → Misses f.key z → Foreign new z
    new-Foreign z own away miss = record {
      keys = (Misses-both z.key f.key miss, miss);
      kids = NewId-Distinct c bid old.kid k.0 z.kid kid_new own.kid away.kids;
      vids = Fresh-Distinct c bid vid z.vid vid_new own.vid;
      kid_vid = NewId-Distinct c bid old.kid k.0 z.vid kid_new own.vid away.kid_vid;
      vid_kid = Fresh-Distinct c bid vid z.kid vid_new own.kid;
    }

    pub others_stay :
        (ys : List Binding)
        → All (Own c bid) ys
        → All (Away old) ys
        → All (Misses f.key) ys
        → HoldsAll db reads crc32 max_payload s ys
        → HoldsAll db reads crc32 max_payload s4 ys × All (Foreign new) ys
    others_stay [] own away miss holds = (tt, tt)
    others_stay (z ∷ ys) (o, own) (a, away) (m, miss) (h, holds) =
        let (held, foreign) = others_stay ys own away miss holds in
        ((stays z o a h, held), (new-Foreign z o a m, foreign))

    pub new-Holds : Holds db reads crc32 max_payload s4 new
    new-Holds = record {
      fits = part_fits f k.0 vid r.fresh.key_fits r.fresh.val_fits;
      klen = refl;
      vlen = refl;
      key_at =
          KeyAt-frame db reads crc32 max_payload s1 s4 f.kspill k.0 (key_part f.kspill f k.0) f.key
            kid_stays (key_new.0);
      val_at =
          ValAt-frame db reads crc32 max_payload s2 s4 f.vspill vid (val_part f.vspill f vid) f.val
            vid_stays (val_new.0);
    }

    pub Own-raised : (z : Binding) → Own c bid z → Own (ceiling s4) bid z
    Own-raised z own =
        let (up1, up2, up4) = raised in
        record { kid = ground (arith, own.kid); vid = ground (arith, own.vid); apart = own.apart }
