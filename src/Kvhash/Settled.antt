-- ===== src/Kvhash/Settled.antt =====
-- kvhash_set when it succeeds: the bucket with the new entry is sound.
use key_value_db.Base.{
  ℕ, ◌≤◌, ◌≡◌, sym, ap, ◌∙◌, inr, some, List, [], ◌∷◌, ◌++◌, arith, length, length-append, ok,
}
use mathlib.Core.Path.{subst}
use mathlib.Core.List.{append-nil}
use key_value_db.BlobDb.{BlobDb, BlobReads}
use key_value_db.Kvhash.Dir.{Leaf}
use key_value_db.Kvhash.Walk.{image_of, packed}
use key_value_db.Kvhash.Replace.{packed-append}
use key_value_db.Kvhash.Visits.{length-image_of}
use key_value_db.Kvhash.Hit.{Binding, Holds}
use key_value_db.Kvhash.Lookup.{entries, entries-append}
use key_value_db.Kvhash.Apart.{Separate-snoc, All-append, All-map}
use key_value_db.Kvhash.Steps.{Steps, set_entry_in-Steps}
use key_value_db.Kvhash.Set.{Fresh, Old, image_with, set_entry_in}
use key_value_db.Kvhash.Commit.{
  Own, packed_new, binding_new, part_fits, image_with-packed, Ready, Settled,
}
use key_value_db.Kvhash.Settle.{
  s4, raised, settled_after, settled_before, bucket_bound, kid_own, vid_own, others_stay, new-Holds,
  Own-raised,
}

module _ (db : BlobDb) (reads : BlobReads db) (crc32 : List ℕ → ℕ) (max_payload : ℕ) where
  open db use {Store, view, ceiling, Wedged}

  -- the bytes of the bucket with the new entry
  appended :
      (zs : List Binding) (f : Fresh) (kid vid : ℕ)
      → packed (entries (zs ++ binding_new f kid vid ∷ []))
        ≡ packed (entries zs) ++ image_with f kid vid
  unfolding packed
  appended zs f kid vid =
      ap packed (entries-append zs (binding_new f kid vid ∷ []))
      ∙ packed-append (entries zs) (packed_new f kid vid ∷ [])
      ∙ ap (λ bytes. packed (entries zs) ++ bytes)
          (append-nil (image_of (packed_new f kid vid)) ∙ sym (image_with-packed f kid vid))

  settled :
      (s s' : Store) (bid : ℕ) (zs : List Binding) (f : Fresh) (old : Old)
      → Ready db reads crc32 max_payload s bid zs f old
      → Steps db max_payload bid (packed (entries zs)) f old s s'
      → ¬ Wedged s'
      → Settled db reads crc32 max_payload s s' bid zs f old
  settled s s' bid zs f old r st sane =
      let sane4 = subst (λ s'. ¬ Wedged s') st.result sane in
      let kid = st.k.0 in
      let vid = st.vid in
      let bkt = packed (entries zs) ++ image_with f kid vid in
      let new = binding_new f kid vid in
      let after =
        s4 db reads crc32 max_payload s bid zs f old r st.k vid st.keyed st.valued bkt st.written
          sane4 in
      let (up1, up2, up4) =
        raised db reads crc32 max_payload s bid zs f old r st.k vid st.keyed st.valued bkt
          st.written sane4 in
      let (vid_owned, apart) =
        vid_own db reads crc32 max_payload s bid zs f old r st.k vid st.keyed st.valued bkt
          st.written sane4 in
      let (held, foreign) =
        others_stay db reads crc32 max_payload s bid zs f old r st.k vid st.keyed st.valued bkt
          st.written sane4 zs r.own r.away r.misses r.holds in
      let fits = part_fits f kid vid r.fresh.key_fits r.fresh.val_fits in
      let long : length (packed (entries (zs ++ new ∷ []))) ≤ max_payload = omega (
        arith,
        st.room,
        ap (λ (bytes : List ℕ). length bytes) (appended zs f kid vid),
        length-append (packed (entries zs)) (image_with f kid vid),
        ap (λ (bytes : List ℕ). length bytes) (image_with-packed f kid vid),
        length-image_of (packed_new f kid vid) fits 0,
      ) in
      subst (λ s'. Settled db reads crc32 max_payload s s' bid zs f old) (sym st.result)
        record {
          kid = kid;
          vid = vid;
          sound = record {
            issued = omega (arith, r.issued, up1, up2, up4);
            own =
                All-append (Own (ceiling after) bid) zs (new ∷ [])
                  (All-map (Own (ceiling s) bid) (Own (ceiling after) bid) zs
                    (Own-raised db reads crc32 max_payload s bid zs f old r st.k vid st.keyed
                      st.valued bkt st.written sane4)
                    r.own)
                  (
                    record {
                      kid =
                          kid_own db reads crc32 max_payload s bid zs f old r st.k vid st.keyed
                            st.valued bkt st.written sane4;
                      vid = vid_owned;
                      apart = apart;
                    },
                    tt,
                  );
            separate = Separate-snoc zs new r.separate foreign;
            holds = All-append (Holds db reads crc32 max_payload after) zs (new ∷ []) held (
              new-Holds db reads crc32 max_payload s bid zs f old r st.k vid st.keyed st.valued bkt
                  st.written sane4,
              tt,
            );
            bound =
                bucket_bound db reads crc32 max_payload s bid zs f old r st.k vid st.keyed st.valued
                  bkt st.written sane4
                ∙ ap some (sym (appended zs f kid vid));
            short = long;
          };
          others = λ j low elsewhere not_kid not_vid.
              settled_after db reads crc32 max_payload s bid zs f old r st.k vid st.keyed st.valued
                bkt st.written sane4 j elsewhere not_vid (inr not_kid)
              ∙ settled_before db reads crc32 max_payload s bid zs f old r st.k vid st.keyed
                  st.valued bkt st.written sane4 j low;
        }

  -- A set that writes an entry leaves a sound bucket, with the new binding behind the others.
  pub set_entry_in-Settled :
      (leaf : Leaf) (s : Store) (bid : ℕ) (zs : List Binding) (f : Fresh) (old : Old)
      → Ready db reads crc32 max_payload s bid zs f old
      → (set_entry_in db max_payload leaf bid (packed (entries zs)) f old s).0 ≡ ok tt
      → ¬ Wedged (set_entry_in db max_payload leaf bid (packed (entries zs)) f old s).1
      → Settled db reads crc32 max_payload s
          (set_entry_in db max_payload leaf bid (packed (entries zs)) f old s).1
          bid
          zs
          f
          old
  set_entry_in-Settled leaf s bid zs f old r done sane =
      settled s (set_entry_in db max_payload leaf bid (packed (entries zs)) f old s).1 bid zs f old
        r (set_entry_in-Steps db max_payload leaf bid (packed (entries zs)) f old s r.real done)
        sane
