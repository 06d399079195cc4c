-- ===== src/Kvhash/Walk.antt =====
-- lib/containers/kvhash/kvhash.c: bkt_entries, the walk over the entries of a packed bucket.
use key_value_db.Base.{
  ℕ, zero, suc, ◌+◌, ◌≤◌, ◌<◌, ◌≡◌, refl, Bool, true, Option, none, some, List, [], ◌∷◌, ◌++◌,
  arith, ltb, length, All, length-append,
}
use key_value_db.Kvhash.Bucket.{
  entry_hdr_len, ent_spill, key_part_len, val_part_len, bkt_entry, entry_image, length-entry_image,
}

-- the loop from `off` on, `n` entries counted; none when the rounds run out
unfoldable pub entries_from : ℕ → List ℕ → ℕ → ℕ → Option ℕ
entries_from zero buf off n = none
entries_from (suc rounds) buf off n = elim (bkt_entry buf off) [
  | none ↦ some n
  | some e ↦ entries_from rounds buf (off + e.len) (suc n)
]

-- an entry has a byte at least
unfoldable pub bkt_entries : List ℕ → Option ℕ
bkt_entries buf = entries_from (suc (length buf)) buf 0 0

-- what kvhash_set packs into a bucket
pub record Packed : Type 0 where
  pub klen : ℕ
  pub vlen : ℕ
  pub kspill : Bool
  pub vspill : Bool
  pub kpart : List ℕ
  pub vpart : List ℕ

abbrev pub Fits : Packed → Type 0
Fits p =
    (p.klen < ent_spill)
    × (p.vlen < ent_spill)
    × (length p.kpart ≡ key_part_len p.kspill p.klen)
    × (length p.vpart ≡ val_part_len p.vspill p.vlen)

abbrev pub image_of : Packed → List ℕ
image_of p = entry_image p.klen p.vlen p.kspill p.vspill p.kpart p.vpart

unfoldable pub packed : List Packed → List ℕ
packed [] = []
packed (p ∷ ps) = image_of p ++ packed ps

pub bkt_entry-short :
    (buf : List ℕ) (off : ℕ) → length buf < off + entry_hdr_len → bkt_entry buf off ≡ none
unfolding bkt_entry
bkt_entry-short buf off short =
    let past : ltb (length buf) (off + entry_hdr_len) ≡ true = ground arith in rw past refl

pub length-packed : (ps : List Packed) → All Fits ps → length ps ≤ length (packed ps)
unfolding packed
length-packed [] fits = omega arith
length-packed (p ∷ ps) fits =
    let (own, others) = fits in
    let (kfits, vfits, klong, vlong) = own in
    omega (
      arith,
      length-append (image_of p) (packed ps),
      length-packed ps others,
      length-entry_image p.klen p.vlen p.kspill p.vspill [] [] p.kpart p.vpart kfits vfits klong
          vlong,
    )
