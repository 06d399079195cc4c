-- ===== src/Kvhash/InPlace.antt =====
-- kvhash_set when it succeeds by writing a value in a blob of its own over the old one.
use key_value_db.Base.{
  ℕ, ◌<◌, ◌≡◌, refl, sym, ap, ◌∙◌, ◌≢◌, inl, inr, true, some, List, [], ◌∷◌, ◌++◌, arith,
  if◌then◌else◌, ==_refl, Bool-cases, length, All, values, le_bytes, ok,
}
use mathlib.Core.Path.{subst}
use key_value_db.BlobDb.{BlobDb, BlobReads}
use key_value_db.Kvhash.Walk.{packed}
use key_value_db.Kvhash.Hit.{Binding, Holds, ValAt, key_eq}
use key_value_db.Kvhash.Lookup.{entries, entries-append, HoldsAll, lookup}
use key_value_db.Kvhash.Apart.{
  Foreign, Separate, Separate-insert, Separate-without, All-without, All-split, All-map, All-insert,
  Misses, lookup-insert, lookup-without,
}
use key_value_db.Kvhash.Commit.{Own, Sound, KeyAt-frame, Holds-frame}

-- the blobs of a binding are not this one
abbrev pub Spares : ℕ → Binding → Type 0
Spares j b = (j ≢ b.kid) × (j ≢ b.vid)

abbrev pub with_value : Binding → List ℕ → Binding
with_value b val = record { entry = b.entry; key = b.key; val = val; kid = b.kid; vid = b.vid }

module _ (db : BlobDb) (reads : BlobReads db) (crc32 : List ℕ → ℕ) (max_payload : ℕ) where
  open db use {Store, view, ceiling, update, update_ok, ceiling-update}

  -- A bucket on which a key was set: it is sound, the key is bound to the value and the others as
  -- before, and only blobs of the old bindings and the bucket have changed.
  pub record SetDone (s s' : Store) (bid : ℕ) (bs : List Binding) (key val : List ℕ) : Type 0 where
    pub after : List Binding
    pub sound : Sound db reads crc32 max_payload s' bid after
    pub mapped :
        (other : List ℕ)
        → lookup after other ≡ (if key_eq key other then some val else lookup bs other)
    pub others :
        (j : ℕ) → j ≢ 0 → j < ceiling s → j ≢ bid → All (Spares j) bs → view s' j ≡ view s j

  module _ (s : Store) (bid : ℕ) (xs ys : List Binding) (b : Binding) (val : List ℕ)
      (sound : Sound db reads crc32 max_payload s bid (xs ++ b ∷ ys)) (real : b.vid ≢ 0)
      (fits : b.vid < values 8) (part : b.entry.vpart ≡ le_bytes 8 b.vid)
      (spilled : b.entry.vspill ≡ true) (long : length val ≡ length b.val)
      (done : (update b.vid val s).0 ≡ ok tt) where
    abbrev s' : Store
    s' = (update b.vid val s).1

    abbrev b' : Binding
    b' = with_value b val

    separated : Separate (xs ++ ys) × All (Foreign b) (xs ++ ys)
    separated = Separate-without xs ys b sound.separate

    taken : (P : Binding → Type 0) → All P (xs ++ b ∷ ys) → P b × All P (xs ++ ys)
    taken P all = All-without P xs ys b all

    same_at : (j : ℕ) → j ≢ b.vid → view s' j ≡ view s j
    same_at j other = update_ok b.vid val s done j ∙ ground (arith, other)

    at_vid : view s' b.vid ≡ some val
    at_vid = update_ok b.vid val s done b.vid ∙ ground (arith, ==_refl b.vid)

    raised : (z : Binding) → Own (ceiling s) bid z → Own (ceiling s') bid z
    raised z own =
        let up : ceiling s' ≡ ceiling s = ceiling-update b.vid val s in
        record { kid = ground (arith, own.kid); vid = ground (arith, own.vid); apart = own.apart }

    stays :
        (z : Binding)
        → Holds db reads crc32 max_payload s z × Foreign b z
        → Holds db reads crc32 max_payload s' z
    stays z (h, far) =
        Holds-frame db reads crc32 max_payload s s' z
          (λ some_id. same_at z.kid (ground (arith, far.vid_kid, real)))
          (λ some_id. same_at z.vid (ground (arith, far.vids, real))) h

    all_stay :
        (zs : List Binding)
        → HoldsAll db reads crc32 max_payload s zs
        → All (Foreign b) zs
        → HoldsAll db reads crc32 max_payload s' zs
    all_stay [] holds far = tt
    all_stay (z ∷ zs) (h, holds) (f, far) = (stays z (h, f), all_stay zs holds far)

    rewritten-Holds :
        Own (ceiling s) bid b
        → Holds db reads crc32 max_payload s b
        → Holds db reads crc32 max_payload s' b'
    rewritten-Holds own h = record {
      fits = h.fits;
      klen = h.klen;
      vlen = h.vlen ∙ sym long;
      key_at =
          KeyAt-frame db reads crc32 max_payload s s' b.entry.kspill b.kid b.entry.kpart b.key
            (λ some_id. same_at b.kid (ground (arith, own.apart, real))) h.key_at;
      val_at =
          subst (λ spill. ValAt db reads crc32 max_payload s' spill b.vid b.entry.vpart val)
            (sym spilled) (real, fits, part, at_vid);
    }

    bytes : packed (entries (xs ++ b' ∷ ys)) ≡ packed (entries (xs ++ b ∷ ys))
    bytes = ap packed (entries-append xs (b' ∷ ys) ∙ sym (entries-append xs (b ∷ ys)))

    misses : All (Misses b.key) (xs ++ ys)
    misses = All-map (Foreign b) (Misses b.key) (xs ++ ys) (λ z far. far.keys.1) (separated.1)

    rewritten-Sound : Sound db reads crc32 max_payload s' bid (xs ++ b' ∷ ys)
    rewritten-Sound =
        let (own, owns) = taken (Own (ceiling s) bid) sound.own in
        let (held, holds) = taken (Holds db reads crc32 max_payload s) sound.holds in
        let (separate, foreign) = separated in
        record {
          issued = omega (arith, sound.issued, ceiling-update b.vid val s);
          own =
              All-insert (Own (ceiling s') bid) xs ys b'
                (let up = raised b own in record { kid = up.kid; vid = up.vid; apart = up.apart })
                (All-map (Own (ceiling s) bid) (Own (ceiling s') bid) (xs ++ ys) raised owns);
          separate = Separate-insert xs ys b' separate (
              All-map (Foreign b) (Foreign b') (xs ++ ys)
                (λ z far. record {
                  keys = far.keys;
                  kids = far.kids;
                  vids = far.vids;
                  kid_vid = far.kid_vid;
                  vid_kid = far.vid_kid;
                })
                foreign);
          holds =
              All-insert (Holds db reads crc32 max_payload s') xs ys b' (rewritten-Holds own held)
                (all_stay (xs ++ ys) holds foreign);
          bound = same_at bid (ground (arith, own.vid, real)) ∙ sound.bound ∙ ap some (sym bytes);
          short = omega (arith, ap (λ (bs : List ℕ). length bs) bytes, sound.short);
        }

    pub rewritten-SetDone : SetDone s s' bid (xs ++ b ∷ ys) b.key val
    rewritten-SetDone =
        let (misses_before, misses_after) = All-split (Misses b.key) xs ys misses in
        record {
          after = xs ++ b' ∷ ys;
          sound = rewritten-Sound;
          mapped = λ other.
              lookup-insert xs ys b' other misses_before ∙ elim (Bool-cases (key_eq b.key other)) [
                | inl same ↦ rw same refl
                | inr differ ↦ rw differ (sym (lookup-without xs ys b other differ))
              ];
          others = λ j some_id low elsewhere spares.
              let (spared, rest) = taken (Spares j) spares in same_at j (spared.1);
        }
