-- ===== src/Kvhash/Visits.antt =====
-- The walk over a bucket: its rounds suffice for any bytes, and in a bucket of packed entries it
-- visits each of them.
use key_value_db.Base.{
  ℕ, zero, suc, ◌+◌, ◌≤◌, ◌<◌, ◌≡◌, refl, sym, ap, ◌∙◌, inl, inr, some, List, [], ◌∷◌, ◌++◌, arith,
  Option-cases, length, All, length-append,
}
use mathlib.Core.List.{append_assoc}
use key_value_db.Kvhash.Bucket.{
  entry_hdr_len, Ent, bkt_entry, entry_at, bkt_entry-entry_image, length-entry_image,
}
use key_value_db.Kvhash.Walk.{
  entries_from, bkt_entries, Packed, Fits, image_of, packed, bkt_entry-short, length-packed,
}
use key_value_db.Kvhash.Find.{Visit, visits_from, visits}

-- an entry lies in the bucket, and is not empty
bkt_entry-bounds :
    (buf : List ℕ) (off : ℕ) (e : Ent)
    → bkt_entry buf off ≡ some e
    → (entry_hdr_len ≤ e.len) × (off + e.len ≤ length buf)
unfolding bkt_entry
bkt_entry-bounds buf off e h = ground arith

entries_from-visits :
    (rounds : ℕ) (buf : List ℕ) (off n : ℕ)
    → off ≤ length buf
    → length buf < off + rounds
    → entries_from rounds buf off n ≡ some (length (visits_from rounds buf off) + n)
unfolding entries_from visits_from
entries_from-visits zero buf off n inside enough = absurd (omega arith)
entries_from-visits (suc rounds) buf off n inside enough = elim (Option-cases (bkt_entry buf off)) [
  | inl end ↦ rw (entries_from, visits_from, end) (ap some {x = n} {y = 0 + n} (omega arith))
  | inr (e, hit) ↦
      let (long, within) = bkt_entry-bounds buf off e hit in
      rw (entries_from, visits_from, hit)
        (entries_from-visits rounds buf (off + e.len) (suc n) within (omega arith)
          ∙ ap some {x = length (visits_from rounds buf (off + e.len)) + suc n}
              {y = suc (length (visits_from rounds buf (off + e.len))) + n} (omega arith))
]

-- The loop of bkt_entries ends on any bytes, damaged ones included, and counts the entries that
-- every other walk over these bytes visits.
pub bkt_entries-visits : (buf : List ℕ) → bkt_entries buf ≡ some (length (visits buf))
unfolding bkt_entries visits
bkt_entries-visits buf =
    let count = length (visits_from (suc (length buf)) buf 0) in
    entries_from-visits (suc (length buf)) buf 0 0 (omega arith) (omega arith)
    ∙ ap some {x = count + 0} {y = count} (omega arith)

abbrev pub entry_of : ℕ → Packed → Ent
entry_of off p = entry_at p.klen p.vlen p.kspill p.vspill off

-- where packed entries stand, the first at `off`
abbrev pub places : ℕ → List Packed → List Visit
places off [] = []
places off (p ∷ ps) =
    record { off = off; ent = entry_of off p } ∷ places (off + (entry_of off p).len) ps

pub length-places : (off : ℕ) (ps : List Packed) → length (places off ps) ≡ length ps
length-places off [] = refl
length-places off (p ∷ ps) = ap suc (length-places (off + (entry_of off p).len) ps)

module _ (p : Packed) (fits : Fits p) where
  pub length-image_of : (off : ℕ) → length (image_of p) ≡ (entry_of off p).len
  length-image_of off =
      let (kfits, vfits, klong, vlong) = fits in
      length-entry_image p.klen p.vlen p.kspill p.vspill [] [] p.kpart p.vpart kfits vfits klong
        vlong

  pub bkt_entry-image_of :
      (front rest : List ℕ)
      → bkt_entry (front ++ (image_of p ++ rest)) (length front) ≡ some (entry_of (length front) p)
  bkt_entry-image_of front rest =
      let (kfits, vfits, klong, vlong) = fits in
      bkt_entry-entry_image p.klen p.vlen p.kspill p.vspill front rest p.kpart p.vpart kfits vfits
        klong vlong

visits_from-packed :
    (ps : List Packed) (rounds : ℕ) (front tail : List ℕ)
    → All Fits ps
    → length tail < entry_hdr_len
    → length ps < rounds
    → visits_from rounds (front ++ (packed ps ++ tail)) (length front) ≡ places (length front) ps
unfolding visits_from packed
visits_from-packed ps zero front tail fits short enough = absurd (omega (arith, enough))
visits_from-packed [] (suc rounds) front tail fits short enough =
    rw
      (
        visits_from,
        bkt_entry-short (front ++ tail) (length front)
            (omega (arith, short, length-append front tail)),
      )
      refl
visits_from-packed (p ∷ ps) (suc rounds) front tail fits short enough =
    let (own, others) = fits in
    let rest = packed ps ++ tail in
    let image = image_of p in
    let off = length front in
    let past : off + (entry_of off p).len ≡ length (front ++ image) =
      omega (arith, length-append front image, length-image_of p own off) in
    let after : visits_from rounds (front ++ (image ++ rest)) (off + (entry_of off p).len)
        ≡ places (off + (entry_of off p).len) ps =
      ap (λ bs. visits_from rounds bs (off + (entry_of off p).len))
        (sym (append_assoc front image rest))
      ∙ ap (visits_from rounds (front ++ image ++ rest)) past
      ∙ visits_from-packed ps rounds (front ++ image) tail others short (omega arith)
      ∙ ap (λ (k : ℕ). places k ps) (sym past) in
    let step : visits_from (suc rounds) (front ++ (image ++ rest)) off ≡ places off (p ∷ ps) =
      rw (visits_from, bkt_entry-image_of p own front rest)
        (ap (λ vs. record { off = off; ent = entry_of off p } ∷ vs) after) in
    ap (λ bs. visits_from (suc rounds) (front ++ bs) off) (append_assoc image (packed ps) tail)
    ∙ step

pub visits-packed :
    (ps : List Packed) (tail : List ℕ)
    → All Fits ps
    → length tail < entry_hdr_len
    → visits (packed ps ++ tail) ≡ places 0 ps
unfolding visits
visits-packed ps tail fits short =
    visits_from-packed ps (suc (length (packed ps ++ tail))) [] tail fits short
      (omega (arith, length-append (packed ps) tail, length-packed ps fits))

-- A bucket of entries that kvhash_set packed one behind the other, their lengths below the flag of a
-- spilled part and their parts of the lengths that the flags give, and of fewer bytes than the header
-- of an entry behind them, is walked to its end, and the entries are all counted, each once.
pub bkt_entries-packed :
    (ps : List Packed) (tail : List ℕ)
    → All Fits ps
    → length tail < entry_hdr_len
    → bkt_entries (packed ps ++ tail) ≡ some (length ps)
bkt_entries-packed ps tail fits short =
    bkt_entries-visits (packed ps ++ tail)
    ∙ ap (λ vs. some (length vs)) (visits-packed ps tail fits short)
    ∙ ap some (length-places 0 ps)
