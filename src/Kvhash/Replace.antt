-- ===== src/Kvhash/Replace.antt =====
-- lib/containers/kvhash/kvhash.c: how kvhash_set and kvhash_del take the old entry out of a bucket.
use key_value_db.Base.{
  ℕ, ◌+◌, ◌≡◌, refl, sym, ap, ap₂, ◌∙◌, List, [], ◌∷◌, ◌++◌, arith, length, take, drop,
  length-append, take-append_self, drop-append_self,
}
use key_value_db.Kvhash.Bucket.{Ent, entry_at, length-entry_image}
use key_value_db.Kvhash.Walk.{Packed, Fits, image_of, packed}
use mathlib.Core.List.{append_assoc}

unfoldable pub cut_entry : List ℕ → ℕ → Ent → List ℕ
cut_entry buf off old = take off buf ++ drop (off + old.len) buf

pub packed-append : (ps qs : List Packed) → packed (ps ++ qs) ≡ packed ps ++ packed qs
unfolding packed
packed-append [] qs = refl
packed-append (p ∷ ps) qs =
    ap (λ bs. image_of p ++ bs) (packed-append ps qs)
    ∙ sym (append_assoc (image_of p) (packed ps) (packed qs))

-- where the entry behind these stands, and what it is
abbrev pub place : List Packed → ℕ
place ps = length (packed ps)

abbrev pub old_entry : List Packed → Packed → Ent
old_entry ps p = entry_at p.klen p.vlen p.kspill p.vspill (place ps)

module _ (ps qs : List Packed) (p : Packed) (fits : Fits p) where
  bucket-packed : packed (ps ++ p ∷ qs) ≡ packed ps ++ (image_of p ++ packed qs)
  unfolding packed
  bucket-packed = packed-append ps (p ∷ qs)

  pub cut_entry-packed :
      cut_entry (packed (ps ++ p ∷ qs)) (place ps) (old_entry ps p) ≡ packed (ps ++ qs)
  unfolding cut_entry
  cut_entry-packed =
      let (kfits, vfits, klong, vlong) = fits in
      let past : place ps + (old_entry ps p).len ≡ length (packed ps ++ image_of p) = omega (
        arith,
        length-append (packed ps) (image_of p),
        length-entry_image p.klen p.vlen p.kspill p.vspill [] [] p.kpart p.vpart kfits vfits klong
            vlong,
      ) in
      let front =
        ap (take (place ps)) bucket-packed
        ∙ take-append_self (packed ps) (image_of p ++ packed qs) (place ps) refl in
      let back =
        ap (drop ((place ps) + (old_entry ps p).len))
          (bucket-packed ∙ sym (append_assoc (packed ps) (image_of p) (packed qs)))
        ∙ drop-append_self (packed ps ++ image_of p) (packed qs) ((place ps) + (old_entry ps p).len)
            past in
      ap₂ (λ xs ys. xs ++ ys) front back ∙ sym (packed-append ps qs)
