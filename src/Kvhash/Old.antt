-- ===== src/Kvhash/Old.antt =====
-- kvhash_set on a bucket that has the key: what the old entry names, and what it leaves.
use key_value_db.Base.{
  ℕ, ◌+◌, ◌<◌, ◌≡◌, refl, sym, ap, ◌∙◌, ◌≢◌, ◌⊎◌, inl, inr, Bool, true, false, some, List, ◌∷◌,
  ◌++◌, arith, Bool-cases, length, take, drop, All, drop-drop, values, le_bytes, of_le, int_at,
  int_at-le_bytes, drop-le_bytes,
}
use mathlib.Core.Path.{subst}
use mathlib.Core.List.{append_assoc}
use key_value_db.BlobDb.{BlobDb, BlobReads}
use key_value_db.Kvhash.Walk.{packed, image_of}
use key_value_db.Kvhash.Find.{Visit, hash_fp, ent_val_id}
use key_value_db.Kvhash.Replace.{cut_entry, packed-append, cut_entry-packed}
use key_value_db.Kvhash.Visits.{entry_of}
use key_value_db.Kvhash.Bucket.{Ent}
use key_value_db.Kvhash.Hit.{Binding, Holds, KeyAt, ValAt, key_eq, key_eq-≡, key_part_at}
use key_value_db.Kvhash.Lookup.{entries, entries-append, Hit}
use key_value_db.Kvhash.Apart.{
  Distinct, Foreign, Separate, Separate-without, All-without, All-map, Misses,
}
use key_value_db.Kvhash.Ids.{OwnId}
use key_value_db.Kvhash.Stage.{IsFresh}
use key_value_db.Kvhash.Commit.{Own, Away, Sound, Ready}
use key_value_db.Kvhash.Set.{Fresh, Old, old_of}

-- an id of the old entry: none, or the binding's
abbrev pub Named : ℕ → ℕ → Type 0
Named old id = (old ≡ 0) ⊎ (old ≡ id)

Named-OwnId : (c bid old id : ℕ) → Named old id → OwnId c bid id → OwnId c bid old
Named-OwnId c bid old id named own = ground arith

Named-Distinct : (old id i : ℕ) → Named old id → Distinct id i → Distinct old i
Named-Distinct old id i named apart = ground arith

Named-both :
    (old old' id id' : ℕ) → Named old id → Named old' id' → Distinct id id' → Distinct old old'
Named-both old old' id id' named named' apart = ground arith

module _ (db : BlobDb) (reads : BlobReads db) (crc32 : List ℕ → ℕ) (max_payload : ℕ) where
  open db use {Store, view, ceiling}

  module _ (s : Store) (bid : ℕ) (bs : List Binding) (key val : List ℕ) (v : Visit)
      (h : Hit db reads crc32 max_payload s (packed (entries bs)) bs key v val) where
    abbrev pub buf : List ℕ
    buf = packed (entries bs)

    abbrev pub zs : List Binding
    zs = h.before ++ h.after

    abbrev pub old : Old
    old = old_of buf v.ent

    pub split :
        buf ≡ packed (entries h.before) ++ (image_of h.found.entry ++ packed (entries h.after))
    unfolding packed
    split =
        ap (λ bs. packed (entries bs)) h.whole
        ∙ ap packed (entries-append h.before (h.found ∷ h.after))
        ∙ packed-append (entries h.before) (h.found.entry ∷ entries h.after)

    -- the bucket without the entry
    pub cut : cut_entry buf v.off v.ent ≡ packed (entries zs)
    cut =
        let p = h.found.entry in
        let ps = entries h.before in
        let qs = entries h.after in
        ap (λ bs. cut_entry (packed (entries bs)) v.off v.ent) h.whole
        ∙ ap (λ ps. cut_entry (packed ps) v.off v.ent) (entries-append h.before (h.found ∷ h.after))
        ∙ ap (cut_entry (packed (ps ++ p ∷ qs)) v.off) h.ent
        ∙ ap (λ (o : ℕ). cut_entry (packed (ps ++ p ∷ qs)) o (entry_of o p)) h.off
        ∙ cut_entry-packed ps qs p h.holds.fits
        ∙ ap packed (sym (entries-append h.before h.after))

    key_here :
        drop v.ent.kpos buf
        ≡ h.found.entry.kpart ++ (h.found.entry.vpart ++ packed (entries h.after))
    key_here =
        let p = h.found.entry in
        let front = packed (entries h.before) in
        ap (λ (e : Ent). drop e.kpos buf) h.ent
        ∙ ap (λ (o : ℕ). drop (entry_of o p).kpos buf) h.off
        ∙ ap (drop (entry_of (length front) p).kpos) split
        ∙ key_part_at p h.holds.fits front (packed (entries h.after))

    kid_by :
        (spilled : Bool)
        → v.ent.kspill ≡ spilled
        → KeyAt db reads crc32 max_payload s spilled h.found.kid h.found.entry.kpart h.found.key
        → (old.kid ≡ 0)
          ⊎ ((old.kid ≡ h.found.kid)
              × (h.found.kid < values 8)
              × (view s h.found.kid ≡ some h.found.key))
    kid_by false inline at_key = inl (rw inline refl)
    kid_by true spilled (real, fits, part, bound, short) =
        let fp = hash_fp crc32 (crc32 h.found.key) in
        let more = h.found.entry.vpart ++ packed (entries h.after) in
        let read : int_at 8 buf (v.ent.kpos + 4) ≡ h.found.kid =
          ap (λ bs. of_le (take 8 bs))
            (sym (drop-drop 4 v.ent.kpos buf)
              ∙ ap (drop 4) (
                  key_here
                  ∙ ap (λ bs. bs ++ more) part
                  ∙ append_assoc (le_bytes 4 fp) (le_bytes 8 h.found.kid) more)
              ∙ drop-le_bytes 4 fp (le_bytes 8 h.found.kid ++ more))
          ∙ int_at-le_bytes 8 h.found.kid more fits in
        inr (rw spilled read, fits, bound)

    pub kid_named :
        (old.kid ≡ 0)
        ⊎ ((old.kid ≡ h.found.kid)
            × (h.found.kid < values 8)
            × (view s h.found.kid ≡ some h.found.key))
    kid_named = kid_by h.found.entry.kspill (ap (λ (e : Ent). e.kspill) h.ent) h.holds.key_at

    pub vid_read :
        v.ent.vspill ≡ true
        → (h.found.vid ≢ 0)
          × (ent_val_id buf v.ent ≡ h.found.vid)
          × (h.found.vid < values 8)
          × (h.found.entry.vpart ≡ le_bytes 8 h.found.vid)
    vid_read spilled =
        let vs : h.found.entry.vspill ≡ true = sym (ap (λ (e : Ent). e.vspill) h.ent) ∙ spilled in
        let (real, fits, part, bound) =
          subst
            (λ b. ValAt db reads crc32 max_payload s b h.found.vid h.found.entry.vpart h.found.val)
            vs h.holds.val_at in
        let read : int_at 8 buf v.ent.vpos ≡ h.found.vid =
          ap (λ bs. of_le (take 8 bs)) (h.here ∙ ap (λ bs. bs ++ packed (entries h.after)) part)
          ∙ int_at-le_bytes 8 h.found.vid (packed (entries h.after)) fits in
        (real, rw spilled read, fits, part)

    pub vid-Named : Named old.vid h.found.vid
    vid-Named = elim (Bool-cases v.ent.vspill) [
      | inr inline ↦ inl (rw inline refl)
      | inl spilled ↦ let (real, read, fits, part) = vid_read spilled in inr read
    ]

    module _ (real : bid ≢ 0) (f : Fresh) (fresh : IsFresh db reads crc32 max_payload f)
        (same : f.key ≡ key) (sound : Sound db reads crc32 max_payload s bid bs) where
      pub parted : Separate zs × All (Foreign h.found) zs
      parted = Separate-without h.before h.after h.found (subst Separate h.whole sound.separate)

      -- what each of the others has, taken from all
      others_of : (P : Binding → Type 0) → All P bs → P h.found × All P zs
      others_of P all = All-without P h.before h.after h.found (subst (All P) h.whole all)

      pub found_key : h.found.key ≡ f.key
      found_key = key_eq-≡ h.found.key key h.matched ∙ sym same

      pub kid-Named : Named old.kid h.found.kid
      kid-Named = elim kid_named [ inl nothing ↦ inl nothing | inr (read, fits, bound) ↦ inr read ]

      pub ready : Ready db reads crc32 max_payload s bid zs f old
      ready =
          let (separate, foreign) = parted in
          let (own, owns) = others_of (Own (ceiling s) bid) sound.own in
          let (held, holds) = others_of (Holds db reads crc32 max_payload s) sound.holds in
          record {
            real = real;
            issued = sound.issued;
            own = owns;
            separate = separate;
            holds = holds;
            fresh = fresh;
            misses =
                All-map (Foreign h.found) (Misses f.key) zs
                  (λ z far. subst (λ k. key_eq z.key k ≡ false) found_key (far.keys.1)) foreign;
            old_kid = Named-OwnId (ceiling s) bid old.kid h.found.kid kid-Named own.kid;
            old_vid = Named-OwnId (ceiling s) bid old.vid h.found.vid vid-Named own.vid;
            old_apart =
                Named-both old.kid old.vid h.found.kid h.found.vid kid-Named vid-Named own.apart;
            away =
                All-map (Foreign h.found) (Away old) zs
                  (λ z far. record {
                    kids = Named-Distinct old.kid h.found.kid z.kid kid-Named far.kids;
                    vids = Named-Distinct old.vid h.found.vid z.vid vid-Named far.vids;
                    kid_vid = Named-Distinct old.kid h.found.kid z.vid kid-Named far.kid_vid;
                    vid_kid = Named-Distinct old.vid h.found.vid z.kid vid-Named far.vid_kid;
                  })
                  foreign;
            kept = λ some_id. elim kid_named [
              | inl nothing ↦ absurd (some_id nothing)
              | inr (read, fits, bound) ↦
                  (omega (arith, read, fits), ap (view s) read ∙ bound ∙ ap some found_key)
            ];
          }
