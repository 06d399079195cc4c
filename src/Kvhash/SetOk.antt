-- ===== src/Kvhash/SetOk.antt =====
-- kvhash_set when it succeeds, in a bucket that is there.
use key_value_db.Base.{
  ℕ, ◌<◌, ◌≡◌, refl, sym, ap, ◌∙◌, ◌≢◌, inl, inr, true, false, not, ◌&&◌, ◌||◌, Option, none, some,
  List, [], ◌∷◌, ◌++◌, arith, ltb, leb, ◌==◌, if◌then◌else◌, Bool-cases, length, All, Result, ok,
}
use mathlib.Core.Path.{subst}
use key_value_db.BlobDb.{BlobDb, BlobReads}
use key_value_db.Kvhash.Bucket.{Ent, ent_spill}
use key_value_db.Kvhash.Walk.{packed}
use key_value_db.Kvhash.Dir.{Leaf, dir_child, resolve_leaf}
use key_value_db.Kvhash.Find.{Visit, bkt_find, ent_val_id}
use key_value_db.Kvhash.Replace.{cut_entry}
use key_value_db.Kvhash.Hit.{Binding, key_eq, key_eq-≡}
use key_value_db.Kvhash.Lookup.{entries, Hit, lookup, Finds, bkt_find-Finds}
use key_value_db.Kvhash.Apart.{All-split, All-map, Misses-lookup, lookup-snoc, lookup-without}
use key_value_db.Kvhash.Stage.{IsFresh}
use key_value_db.Kvhash.Commit.{Own, Away, Sound, Ready, binding_new}
use key_value_db.Kvhash.Settled.{set_entry_in-Settled}
use key_value_db.Kvhash.Old.{Named, cut, vid_read, vid-Named, kid-Named, ready}
use key_value_db.Kvhash.InPlace.{Spares, SetDone, rewritten-SetDone}
use key_value_db.Kvhash.Set.{
  Fresh, no_old, old_of, set_entry_in, set_over, set_found, set_read, set_in, fresh_for, kvhash_set,
}

Named-other : (old id j : ℕ) → Named old id → j ≢ 0 → j ≢ id → j ≢ old
Named-other old id j named some_id other = ground (arith, named)

module _ (db : BlobDb) (reads : BlobReads db) (crc32 : List ℕ → ℕ) (max_payload : ℕ) where
  open db use {Store, view, Wedged, get, get_reply, ceiling, update}

  -- what a call leaves when it succeeds, unless the release behind it has wedged the store
  abbrev Sets : Store → ℕ → List Binding → List ℕ → List ℕ → Result (Unit {0}) × Store → Type 0
  Sets s bid bs key val r =
      r.0 ≡ ok tt → ¬ Wedged r.1 → SetDone db reads crc32 max_payload s r.1 bid bs key val

  module _ (leaf : Leaf) (s : Store) (bid : ℕ) (bs : List Binding) (f : Fresh) (real : bid ≢ 0)
      (fresh : IsFresh db reads crc32 max_payload f)
      (sound : Sound db reads crc32 max_payload s bid bs) where
    abbrev buf : List ℕ
    buf = packed (entries bs)

    absent-Ready : lookup bs f.key ≡ none → Ready db reads crc32 max_payload s bid bs f no_old
    absent-Ready absent = record {
      real = real;
      issued = sound.issued;
      own = sound.own;
      separate = sound.separate;
      holds = sound.holds;
      fresh = fresh;
      misses = Misses-lookup bs f.key absent;
      old_kid = inl refl;
      old_vid = inl refl;
      old_apart = inl refl;
      away =
          All-map (Own (ceiling s) bid) (Away no_old) bs
            (λ z own. record {
              kids = inl refl;
              vids = inl refl;
              kid_vid = inl refl;
              vid_kid = inl refl;
            })
            sound.own;
      kept = λ some_id. absurd (some_id refl);
    }

    absent-Sets :
        lookup bs f.key ≡ none
        → Sets s bid bs f.key f.val (set_entry_in db max_payload leaf bid buf f no_old s)
    absent-Sets absent done sane =
        let r = absent-Ready absent in
        let st =
          set_entry_in-Settled db reads crc32 max_payload leaf s bid bs f no_old r done sane in
        record {
          after = bs ++ binding_new f st.kid st.vid ∷ [];
          sound = st.sound;
          mapped = λ other. lookup-snoc bs (binding_new f st.kid st.vid) other r.misses;
          others = λ j some_id low elsewhere spares. st.others j low elsewhere some_id some_id;
        }

    module _ (val : List ℕ) (v : Visit)
        (h : Hit db reads crc32 max_payload s (packed (entries bs)) bs f.key v val) where
      abbrev zs : List Binding
      zs = h.before ++ h.after

      found_key : h.found.key ≡ f.key
      found_key = key_eq-≡ h.found.key f.key h.matched

      -- the other keys
      unfound : (other : List ℕ) → key_eq f.key other ≡ false → lookup zs other ≡ lookup bs other
      unfound other differ = sym (
          ap (λ bs. lookup bs other) h.whole
          ∙ lookup-without h.before h.after h.found other
              (subst (λ key. key_eq key other ≡ false) (sym found_key) differ))

      replaced-Sets :
          Sets s bid bs f.key f.val (
            set_entry_in db max_payload leaf bid (cut_entry buf v.off v.ent) f (old_of buf v.ent) s)
      replaced-Sets =
          let old = old_of buf v.ent in
          let r = ready db reads crc32 max_payload s bid bs f.key val v h real f fresh refl sound in
          subst
            (λ bytes.
              Sets s bid bs f.key f.val (set_entry_in db max_payload leaf bid bytes f old s))
            (sym (cut db reads crc32 max_payload s bid bs f.key val v h))
            (λ done sane.
              let st =
                set_entry_in-Settled db reads crc32 max_payload leaf s bid zs f old r done sane in
              record {
                after = zs ++ binding_new f st.kid st.vid ∷ [];
                sound = st.sound;
                mapped = λ other.
                    lookup-snoc zs (binding_new f st.kid st.vid) other r.misses
                    ∙ elim (Bool-cases (key_eq f.key other)) [
                      | inl same ↦ rw same refl
                      | inr differ ↦ rw differ (unfound other differ)
                    ];
                others = λ j some_id low elsewhere spares.
                    let (before, rest) =
                      All-split (Spares j) h.before (h.found ∷ h.after)
                        (subst (All (Spares j)) h.whole spares) in
                    let (not_kid, not_vid) = rest.0 in
                    st.others j low elsewhere
                      (Named-other old.kid h.found.kid j
                        (kid-Named db reads crc32 max_payload s bid bs f.key val v h real f fresh
                          refl sound)
                        some_id not_kid)
                      (Named-other old.vid h.found.vid j
                        (vid-Named db reads crc32 max_payload s bid bs f.key val v h) some_id
                        not_vid);
              })

      rewritten-Sets :
          v.ent.vspill ≡ true
          → v.ent.vl ≡ length f.val
          → (ent_val_id buf v.ent ≡ h.found.vid)
            × Sets s bid bs f.key f.val (update h.found.vid f.val s)
      rewritten-Sets spilled long =
          let (some_id, read, fits, part) =
            vid_read db reads crc32 max_payload s bid bs f.key val v h spilled in
          let at_length : length f.val ≡ length h.found.val =
            sym long ∙ ap (λ (e : Ent). e.vl) h.ent ∙ h.holds.vlen in
          (
            read,
            λ done sane.
                subst
                  (λ bs.
                    SetDone db reads crc32 max_payload s (update h.found.vid f.val s).1 bid bs f.key
                      f.val)
                  (sym h.whole)
                  (subst
                    (λ key.
                      SetDone db reads crc32 max_payload s (update h.found.vid f.val s).1 bid
                        (h.before ++ h.found ∷ h.after) key f.val)
                    found_key
                    (rewritten-SetDone db reads crc32 max_payload s bid h.before h.after h.found
                      f.val (subst (Sound db reads crc32 max_payload s bid) h.whole sound) some_id
                      fits part (sym (ap (λ (e : Ent). e.vspill) h.ent) ∙ spilled) at_length done)),
          )

      set_over-Sets : Sets s bid bs f.key f.val (set_over db max_payload leaf bid buf f v s)
      unfolding set_over
      set_over-Sets =
          elim (Bool-cases (
            (if v.ent.kspill then f.kspill else not f.kspill)
            && (v.ent.vspill && (f.vspill && v.ent.vl == length f.val)))) [
              | inr anew ↦ rw anew replaced-Sets
              | inl over ↦
                  let spilled : v.ent.vspill ≡ true = ground (arith, over) in
                  let long : v.ent.vl ≡ length f.val = ground (arith, over) in
                  let (read, sets) = rewritten-Sets spilled long in
                  let (some_id, at_id, fits, part) =
                    vid_read db reads crc32 max_payload s bid bs f.key val v h spilled in
                  let real : (h.found.vid == 0) ≡ false = ground (arith, some_id) in
                  rw (over, read, real) sets
            ]

    set_found-Sets :
        (o : Option (List ℕ)) (r : Result Visit)
        → lookup bs f.key ≡ o
        → Finds db reads crc32 max_payload s (packed (entries bs)) bs f.key o r
        → Sets s bid bs f.key f.val
            (set_found db reads crc32 max_payload leaf bid (packed (entries bs)) f r s)
    set_found-Sets none r at_key (inl absent) = rw absent (absent-Sets at_key)
    set_found-Sets none r at_key (inr (inl io)) = rw io (λ done. absurd (cc done))
    set_found-Sets none r at_key (inr (inr unmounted)) = rw unmounted (λ done. absurd (cc done))
    set_found-Sets (some val) r at_key (inl (v, found, h)) = rw found (set_over-Sets val v h)
    set_found-Sets (some val) r at_key (inr (inl io)) = rw io (λ done. absurd (cc done))
    set_found-Sets (some val) r at_key (inr (inr unmounted)) =
        rw unmounted (λ done. absurd (cc done))

    searched :
        Finds db reads crc32 max_payload s
          (packed (entries bs))
          bs
          f.key
          (lookup bs f.key)
          (bkt_find db reads max_payload s (packed (entries bs)) f.key f.fp)
    searched =
        subst
          (λ (fp : ℕ).
            Finds db reads crc32 max_payload s (packed (entries bs)) bs f.key (lookup bs f.key)
              (bkt_find db reads max_payload s (packed (entries bs)) f.key fp))
          (sym fresh.fp) (bkt_find-Finds db reads crc32 max_payload s bs f.key sound.holds)

    set_read-Sets :
        Sets s bid bs f.key f.val
          (set_read db reads crc32 max_payload leaf bid f (get s bid max_payload) s)
    set_read-Sets = elim (get_reply s bid max_payload) [
      | inr (inl io) ↦ rw io (λ done. absurd (cc done))
      | inr (inr unmounted) ↦ rw unmounted (λ done. absurd (cc done))
      | inl answered ↦
          let short : leb (length (packed (entries bs))) max_payload ≡ true =
            ground (arith, sound.short) in
          rw (answered, sound.bound, short)
            (set_found-Sets (lookup bs f.key)
              (bkt_find db reads max_payload s (packed (entries bs)) f.key f.fp) refl searched)
    ]

  set_in-Sets :
      (key_max val_max : ℕ) (key val : List ℕ) (s : Store) (leaf : Leaf) (bs : List Binding)
      → dir_child leaf.dir.bytes leaf.idx ≢ 0
      → Sound db reads crc32 max_payload s (dir_child leaf.dir.bytes leaf.idx) bs
      → length key < ent_spill
      → length val < ent_spill
      → Sets s (dir_child leaf.dir.bytes leaf.idx) bs key val (
          set_in db reads crc32 max_payload leaf
            (fresh_for db reads crc32 max_payload key_max val_max leaf key val)
            s)
  unfolding set_in fresh_for
  set_in-Sets key_max val_max key val s leaf bs real sound key_fits val_fits =
      let f = fresh_for db reads crc32 max_payload key_max val_max leaf key val in
      let bucket : (dir_child leaf.dir.bytes leaf.idx == 0) ≡ false = ground (arith, real) in
      elim (Bool-cases (f.kspill && ltb max_payload (length f.key))) [
        | inl long ↦ rw long (λ done. absurd (cc done))
        | inr short ↦
            rw (short, bucket)
              (set_read-Sets leaf s (dir_child leaf.dir.bytes leaf.idx) bs f real
                record {
                  key_fits = key_fits;
                  val_fits = val_fits;
                  fp = refl;
                  short = λ spilled. ground (arith, spilled, short);
                }
                sound)
      ]

  -- For a key whose bucket is there and sound, a kvhash_set that succeeds leaves a sound bucket, in
  -- which the key has the new value and every other key the value it had, and changes no other blob
  -- than the bucket and those of its bindings, whether it appends the entry, replaces one or writes
  -- a value over the old one, unless the release of the old blobs behind it has wedged the store.
  pub kvhash_set-ok :
      (key_max val_max root : ℕ) (key val : List ℕ) (s : Store) (leaf : Leaf) (bs : List Binding)
      → resolve_leaf db max_payload s root (crc32 key) ≡ ok leaf
      → dir_child leaf.dir.bytes leaf.idx ≢ 0
      → Sound db reads crc32 max_payload s (dir_child leaf.dir.bytes leaf.idx) bs
      → (kvhash_set db reads crc32 max_payload key_max val_max root (some key) (some val) s).0
        ≡ ok tt
      → ¬ Wedged
          (kvhash_set db reads crc32 max_payload key_max val_max root (some key) (some val) s).1
      → SetDone db reads crc32 max_payload s
          (kvhash_set db reads crc32 max_payload key_max val_max root (some key) (some val) s).1
          (dir_child leaf.dir.bytes leaf.idx)
          bs
          key
          val
  unfolding kvhash_set
  kvhash_set-ok key_max val_max root key val s leaf bs resolved real sound =
      elim (Bool-cases (length key == 0 || (ltb 0xffff (length key) || ltb 0xffff (length val)))) [
        | inl bad ↦ rw (kvhash_set, bad) (λ done. absurd (cc done))
        | inr counted ↦
            elim (Bool-cases (leb ent_spill (length key) || leb ent_spill (length val))) [
              | inl long ↦ rw (kvhash_set, counted, long) (λ done. absurd (cc done))
              | inr fit ↦
                  rw (kvhash_set, counted, fit, resolved)
                    (set_in-Sets key_max val_max key val s leaf bs real sound (ground (arith, fit))
                      (ground (arith, fit)))
            ]
      ]
