-- ===== src/Kvhash/DelOk.antt =====
-- kvhash_del when it succeeds: the bucket without the key.
use key_value_db.Base.{
  ℕ, ◌≤◌, ◌<◌, ◌≡◌, refl, sym, ap, ◌∙◌, ◌≢◌, inl, inr, false, Option, none, some, List, [], ◌∷◌,
  ◌++◌, arith, ◌==◌, if◌then◌else◌, ==_refl, Bool-cases, length, All, length-append, Result, ok,
  Result-cases,
}
use mathlib.Core.Path.{subst}
use key_value_db.BlobDb.{BlobDb, BlobReads}
use key_value_db.Kvhash.Walk.{image_of, packed}
use key_value_db.Kvhash.Dir.{Leaf, dir_child, resolve_leaf}
use key_value_db.Kvhash.Find.{Visit}
use key_value_db.Kvhash.Replace.{cut_entry, packed-append}
use key_value_db.Kvhash.Hit.{Binding, Holds, key_eq, key_eq-≡}
use key_value_db.Kvhash.Lookup.{
  entries, entries-append, HoldsAll, Hit, lookup, Finds, bkt_find-Finds,
}
use key_value_db.Kvhash.Get.{IsKey, searched, reported, locate-searched}
use key_value_db.Kvhash.Apart.{
  Foreign, Separate, Separate-without, All-without, All-map, Misses, lookup-Misses, lookup-without,
}
use key_value_db.Kvhash.Commit.{Own, Sound, Holds-frame}
use key_value_db.Kvhash.Steps.{release_old-others}
use key_value_db.Kvhash.SetErr.{ceiling-release_old}
use key_value_db.Kvhash.Old.{Named, cut, split, kid_named, vid-Named}
use key_value_db.Kvhash.InPlace.{Spares}
use key_value_db.Kvhash.Ops.{locate, release_part, del_at, kvhash_del}
use key_value_db.Kvhash.Set.{Old, old_of, release_old}

module _ (db : BlobDb) (reads : BlobReads db) (crc32 : List ℕ → ℕ) (max_payload : ℕ) where
  open db use {Store, view, ceiling, Wedged, update, update_ok, ceiling-update}

  -- a bucket from which a key was deleted
  pub record DelDone (s s' : Store) (bid : ℕ) (bs : List Binding) (key : List ℕ) : Type 0 where
    pub after : List Binding
    pub sound : Sound db reads crc32 max_payload s' bid after
    pub found : lookup bs key ≢ none
    pub mapped :
        (other : List ℕ) → lookup after other ≡ (if key_eq key other then none else lookup bs other)
    pub others :
        (j : ℕ) → j ≢ 0 → j < ceiling s → j ≢ bid → All (Spares j) bs → view s' j ≡ view s j

  module _ (s : Store) (bid : ℕ) (bs : List Binding) (key val : List ℕ) (v : Visit)
      (h : Hit db reads crc32 max_payload s (packed (entries bs)) bs key v val) (real : bid ≢ 0)
      (sound : Sound db reads crc32 max_payload s bid bs) where
    abbrev buf : List ℕ
    buf = packed (entries bs)

    abbrev old : Old
    old = old_of buf v.ent

    abbrev zs : List Binding
    zs = h.before ++ h.after

    -- the state after the release
    abbrev s' : Store
    s' = release_old db max_payload old 0 (update bid (cut_entry buf v.off v.ent) s).1

    kid-Named : Named old.kid h.found.kid
    kid-Named = elim (kid_named db reads crc32 max_payload s bid bs key val v h) [
      | inl nothing ↦ inl nothing
      | inr (read, fits, bound) ↦ inr read
    ]

    taken : (P : Binding → Type 0) → All P bs → P h.found × All P zs
    taken P all = All-without P h.before h.after h.found (subst (All P) h.whole all)

    shorter : length (packed (entries zs)) ≤ max_payload
    shorter =
        let front = packed (entries h.before) in
        let back = packed (entries h.after) in
        let image = image_of h.found.entry in
        omega (
          arith,
          sound.short,
          ap (λ (bs : List ℕ). length bs) (split db reads crc32 max_payload s bid bs key val v h),
          length-append front (image ++ back),
          length-append image back,
          ap (λ (bs : List ℕ). length bs)
              (ap packed (entries-append h.before h.after)
                ∙ packed-append (entries h.before) (entries h.after)),
          length-append front back,
        )

    -- what del_at leaves
    released :
        (update bid (cut_entry buf v.off v.ent) s).0 ≡ ok tt
        → del_at db reads crc32 max_payload bid buf v s ≡ (ok tt, s')
    unfolding del_at release_old release_part
    released done = elim (Bool-cases (old.kid == 0)) [
      | inl no_kid ↦ rw (done, no_kid) refl
      | inr some_kid ↦ rw (done, some_kid) refl
    ]

    parted : Separate zs × All (Foreign h.found) zs
    parted = Separate-without h.before h.after h.found (subst Separate h.whole sound.separate)

    module _ (done : (update bid (cut_entry buf v.off v.ent) s).0 ≡ ok tt)
        (sane : ¬ Wedged s') where
      after_at :
          (j : ℕ)
          → j ≢ old.kid
          → j ≢ old.vid
          → view s' j ≡ (if j == bid then some (cut_entry buf v.off v.ent) else view s j)
      after_at j not_kid not_vid =
          release_old-others db max_payload old 0 j (update bid (cut_entry buf v.off v.ent) s).1
            sane not_vid (inr not_kid)
          ∙ update_ok bid (cut_entry buf v.off v.ent) s done j

      other_at : (j : ℕ) → j ≢ bid → j ≢ old.kid → j ≢ old.vid → view s' j ≡ view s j
      other_at j elsewhere not_kid not_vid = after_at j not_kid not_vid ∙ ground (arith, elsewhere)

      raised : ceiling s ≤ ceiling s'
      raised = omega (
        arith,
        ceiling-update bid (cut_entry buf v.off v.ent) s,
        ceiling-release_old db max_payload 0 old 0 (update bid (cut_entry buf v.off v.ent) s).1,
      )

      stays :
          (z : Binding)
          → Own (ceiling s) bid z
          → Foreign h.found z
          → Holds db reads crc32 max_payload s z
          → Holds db reads crc32 max_payload s' z
      stays z own far =
          let kid = kid-Named in
          let vid = vid-Named db reads crc32 max_payload s bid bs key val v h in
          Holds-frame db reads crc32 max_payload s s' z
            (λ some_id.
              other_at z.kid (ground (arith, own.kid, some_id))
                (ground (arith, kid, far.kids, some_id))
                (ground (arith, vid, far.vid_kid, some_id)))
            (λ some_id.
              other_at z.vid (ground (arith, own.vid, some_id))
                (ground (arith, kid, far.kid_vid, some_id))
                (ground (arith, vid, far.vids, some_id)))

      all_stay :
          (ys : List Binding)
          → All (Own (ceiling s) bid) ys
          → All (Foreign h.found) ys
          → HoldsAll db reads crc32 max_payload s ys
          → HoldsAll db reads crc32 max_payload s' ys
      all_stay [] owns far holds = tt
      all_stay (z ∷ ys) (o, owns) (f, far) (held, holds) =
          (stays z o f held, all_stay ys owns far holds)

      Own-raised : (z : Binding) → Own (ceiling s) bid z → Own (ceiling s') bid z
      Own-raised z own =
          let up = raised in
          record { kid = ground (arith, own.kid); vid = ground (arith, own.vid); apart = own.apart }

      left-Sound : Sound db reads crc32 max_payload s' bid zs
      left-Sound =
          let (own, owns) = taken (Own (ceiling s) bid) sound.own in
          let (held, holds) = taken (Holds db reads crc32 max_payload s) sound.holds in
          let (separate, foreign) = parted in
          let kid = kid-Named in
          let vid = vid-Named db reads crc32 max_payload s bid bs key val v h in
          let whole = cut db reads crc32 max_payload s bid bs key val v h in
          record {
            issued = omega (arith, sound.issued, raised);
            own = All-map (Own (ceiling s) bid) (Own (ceiling s') bid) zs Own-raised owns;
            separate = separate;
            holds = all_stay zs owns foreign holds;
            bound =
                after_at bid (ground (arith, own.kid, kid, real))
                  (ground (arith, own.vid, vid, real))
                ∙ ground (arith, ==_refl bid)
                ∙ ap some whole;
            short = shorter;
          }

      left-lookup :
          (other : List ℕ) → lookup zs other ≡ (if key_eq key other then none else lookup bs other)
      left-lookup other =
          let found_key = key_eq-≡ h.found.key key h.matched in
          let missing : All (Misses key) zs =
            All-map (Foreign h.found) (Misses key) zs
              (λ z far. subst (λ k. key_eq z.key k ≡ false) found_key (far.keys.1)) (parted.1) in
          elim (Bool-cases (key_eq key other)) [
            | inl same ↦
                rw same
                  (ap (lookup zs) (sym (key_eq-≡ key other same)) ∙ lookup-Misses zs key missing)
            | inr differ ↦ rw differ (
                sym (
                  ap (λ bs. lookup bs other) h.whole
                  ∙ lookup-without h.before h.after h.found other
                      (subst (λ k. key_eq k other ≡ false) (sym found_key) differ)))
          ]

      left-DelDone : lookup bs key ≢ none → DelDone s s' bid bs key
      left-DelDone found = record {
        after = zs;
        sound = left-Sound;
        found = found;
        mapped = left-lookup;
        others = λ j some_id low elsewhere spares.
            let (spared, rest) = taken (Spares j) spares in
            let (not_kid, not_vid) = spared in
            let kid = kid-Named in
            let vid = vid-Named db reads crc32 max_payload s bid bs key val v h in
            other_at j elsewhere (ground (arith, kid, not_kid, some_id))
              (ground (arith, vid, not_vid, some_id));
      }

    del_at-DelDone :
        lookup bs key ≢ none
        → (del_at db reads crc32 max_payload bid (packed (entries bs)) v s).0 ≡ ok tt
        → ¬ Wedged (del_at db reads crc32 max_payload bid (packed (entries bs)) v s).1
        → DelDone s (del_at db reads crc32 max_payload bid (packed (entries bs)) v s).1 bid bs key
    unfolding del_at
    del_at-DelDone found done sane =
        elim (Result-cases (update bid (cut_entry buf v.off v.ent) s).0) [
          | inr (e, failed) ↦ absurd (let h = rw failed at done in cc)
          | inl (u, wrote) ↦
              subst (λ (r : Result (Unit {0}) × Store). DelDone s r.1 bid bs key)
                (sym (released wrote))
                (left-DelDone wrote
                  (subst (λ (r : Result (Unit {0}) × Store). ¬ Wedged r.1) (released wrote) sane)
                  found)
        ]

  located-DelDone :
      (s : Store) (bid : ℕ) (bs : List Binding) (key : List ℕ) (o : Option (List ℕ))
      (r : Result Visit)
      → bid ≢ 0
      → Sound db reads crc32 max_payload s bid bs
      → lookup bs key ≡ o
      → Finds db reads crc32 max_payload s (packed (entries bs)) bs key o r
      → (root : ℕ)
      → locate db reads crc32 max_payload s root (some key)
        ≡ reported db reads crc32 max_payload bid (packed (entries bs)) r
      → (kvhash_del db reads crc32 max_payload root (some key) s).0 ≡ ok tt
      → ¬ Wedged (kvhash_del db reads crc32 max_payload root (some key) s).1
      → DelDone s (kvhash_del db reads crc32 max_payload root (some key) s).1 bid bs key
  unfolding kvhash_del
  located-DelDone s bid bs key none r real sound at_key (inl absent) root located =
      rw (kvhash_del, located, absent) (λ done. absurd (cc done))
  located-DelDone s bid bs key none r real sound at_key (inr (inl io)) root located =
      rw (kvhash_del, located, io) (λ done. absurd (cc done))
  located-DelDone s bid bs key none r real sound at_key (inr (inr unmounted)) root located =
      rw (kvhash_del, located, unmounted) (λ done. absurd (cc done))
  located-DelDone s bid bs key (some val) r real sound at_key (inr (inl io)) root located =
      rw (kvhash_del, located, io) (λ done. absurd (cc done))
  located-DelDone s bid bs key (some val) r real sound at_key (inr (inr unmounted)) root located =
      rw (kvhash_del, located, unmounted) (λ done. absurd (cc done))
  located-DelDone s bid bs key (some val) r real sound at_key (inl (v, found, h)) root located =
      rw (kvhash_del, located, found)
        (del_at-DelDone s bid bs key val v h real sound
          (λ nothing. absurd (cc (sym at_key ∙ nothing))))

  -- For a key of 1 to 32767 bytes whose bucket is there and sound, a kvhash_del that succeeds found
  -- the key, leaves a sound bucket without it in which every other key has the value it had, and
  -- changes no other blob than the bucket and those of its bindings, unless the release of the
  -- entry's blobs behind it has wedged the store.
  pub kvhash_del-ok :
      (s : Store) (root : ℕ) (key : List ℕ) (leaf : Leaf) (bs : List Binding)
      → IsKey key
      → resolve_leaf db max_payload s root (crc32 key) ≡ ok leaf
      → dir_child leaf.dir.bytes leaf.idx ≢ 0
      → Sound db reads crc32 max_payload s (dir_child leaf.dir.bytes leaf.idx) bs
      → (kvhash_del db reads crc32 max_payload root (some key) s).0 ≡ ok tt
      → ¬ Wedged (kvhash_del db reads crc32 max_payload root (some key) s).1
      → DelDone s
          (kvhash_del db reads crc32 max_payload root (some key) s).1
          (dir_child leaf.dir.bytes leaf.idx)
          bs
          key
  unfolding kvhash_del
  kvhash_del-ok s root key leaf bs is_key resolved real sound =
      elim (locate-searched db reads crc32 max_payload s root key leaf bs is_key record {
        resolved = resolved;
        named = real;
        bound = sound.bound;
        short = sound.short;
        holds = sound.holds;
      }) [
        | inr (inl io) ↦ rw (kvhash_del, io) (λ done. absurd (cc done))
        | inr (inr unmounted) ↦ rw (kvhash_del, unmounted) (λ done. absurd (cc done))
        | inl located ↦
            located-DelDone s (dir_child leaf.dir.bytes leaf.idx) bs key (lookup bs key)
              (searched db reads crc32 max_payload s (packed (entries bs)) key) real sound refl
              (bkt_find-Finds db reads crc32 max_payload s bs key sound.holds) root located
      ]
