-- ===== src/Kvhash/Bucket.antt =====
-- lib/containers/kvhash/kvhash.c: one entry of a packed bucket, as kvhash_set writes it and as
-- bkt_entry, the only parser, reads it.
use key_value_db.Base.{
  ℕ, ◌+◌, ◌%◌, ◌^◌, ◌≤◌, ◌<◌, ◌≡◌, refl, sym, ap, ◌∙◌, Bool, true, false, Option, none, some, List,
  ◌++◌, arith, ltb, leb, if◌then◌else◌, length, take, length-append, drop-append_self, le_bytes,
  of_le, int_at, length-le_bytes, of_le-le_bytes, take-le_bytes,
}
use mathlib.Core.List.{append_assoc}

abbrev pub entry_hdr_len : ℕ
entry_hdr_len = 4

-- ENT_SPILL
abbrev pub ent_spill : ℕ
ent_spill = 0x8000

-- the stored length of a key part, of a value part: KEY_REF_LEN and VAL_REF_LEN where it is spilled
abbrev pub key_part_len : Bool → ℕ → ℕ
key_part_len kspill kl = if kspill then 12 else kl

abbrev pub val_part_len : Bool → ℕ → ℕ
val_part_len vspill vl = if vspill then 8 else vl

-- struct ent
pub record Ent : Type 0 where
  pub len : ℕ
  pub kl : ℕ
  pub vl : ℕ
  pub kspill : Bool
  pub vspill : Bool
  pub kpos : ℕ
  pub vpos : ℕ

-- `buf` is the `used` bytes of the bucket; `leb ent_spill` is the flag of a field of 16 bits
unfoldable pub bkt_entry : List ℕ → ℕ → Option Ent
bkt_entry buf off =
    let kf = int_at 2 buf off in
    let vf = int_at 2 buf (off + 2) in
    let kspill = leb ent_spill kf in
    let vspill = leb ent_spill vf in
    let kl = kf % ent_spill in
    let vl = vf % ent_spill in
    let len = entry_hdr_len + key_part_len kspill kl + val_part_len vspill vl in
    if ltb (length buf) (off + entry_hdr_len)
    then none
    else if ltb (length buf) (off + len)
    then none
    else some record {
      len = len;
      kl = kl;
      vl = vl;
      kspill = kspill;
      vspill = vspill;
      kpos = off + entry_hdr_len;
      vpos = off + entry_hdr_len + key_part_len kspill kl;
    }

-- what kvhash_set appends: `kpart` and `vpart` are the bytes, or the references to their blobs; a
-- length is below the flag
unfoldable pub entry_image : ℕ → ℕ → Bool → Bool → List ℕ → List ℕ → List ℕ
entry_image klen vlen kspill vspill kpart vpart =
    le_bytes 2 (klen + (if kspill then ent_spill else 0))
    ++ (le_bytes 2 (vlen + (if vspill then ent_spill else 0)) ++ (kpart ++ vpart))

flagged :
    (n : ℕ) (spill : Bool)
    → n < ent_spill
    → (n + (if spill then ent_spill else 0) < 2 ^ 16)
      × ((n + (if spill then ent_spill else 0)) % ent_spill ≡ n)
      × (leb ent_spill (n + (if spill then ent_spill else 0)) ≡ spill)
flagged n true h = (omega arith, omega arith, ground arith)
flagged n false h = (omega arith, omega arith, ground arith)

int_at-front :
    (front rest : List ℕ) (v off : ℕ)
    → off ≡ length front
    → v < 2 ^ 16
    → int_at 2 (front ++ (le_bytes 2 v ++ rest)) off ≡ v
int_at-front front rest v off here small =
    ap (λ bs. of_le (take 2 bs)) (drop-append_self front (le_bytes 2 v ++ rest) off here)
    ∙ ap of_le (take-le_bytes 2 v rest)
    ∙ of_le-le_bytes 2 v (omega arith)

module _ (klen vlen : ℕ) (kspill vspill : Bool) where
  -- the entry at `off` of these lengths and flags
  abbrev pub entry_at : ℕ → Ent
  entry_at off = record {
    len = entry_hdr_len + key_part_len kspill klen + val_part_len vspill vlen;
    kl = klen;
    vl = vlen;
    kspill = kspill;
    vspill = vspill;
    kpos = off + entry_hdr_len;
    vpos = off + entry_hdr_len + key_part_len kspill klen;
  }

  bkt_entry-fields :
      (buf : List ℕ) (off kf vf : ℕ)
      → int_at 2 buf off ≡ kf
      → int_at 2 buf (off + 2) ≡ vf
      → kf % ent_spill ≡ klen
      → leb ent_spill kf ≡ kspill
      → vf % ent_spill ≡ vlen
      → leb ent_spill vf ≡ vspill
      → off + (entry_hdr_len + key_part_len kspill klen + val_part_len vspill vlen) ≤ length buf
      → bkt_entry buf off ≡ some (entry_at off)
  unfolding bkt_entry
  bkt_entry-fields buf off kf vf at_k at_v km kb vm vb room =
      let whole : ltb (length buf)
            (off + (entry_hdr_len + key_part_len kspill klen + val_part_len vspill vlen))
          ≡ false =
        ground arith in
      let head : ltb (length buf) (off + entry_hdr_len) ≡ false = ground arith in
      rw (at_k, at_v, km, kb, vm, vb, head, whole) refl

  module _ (front rest kpart vpart : List ℕ) (kfits : klen < ent_spill) (vfits : vlen < ent_spill)
      (klong : length kpart ≡ key_part_len kspill klen)
      (vlong : length vpart ≡ val_part_len vspill vlen) where
    abbrev image : List ℕ
    image = entry_image klen vlen kspill vspill kpart vpart

    pub length-entry_image :
        length image ≡ entry_hdr_len + key_part_len kspill klen + val_part_len vspill vlen
    unfolding entry_image
    length-entry_image =
        let kf = klen + (if kspill then ent_spill else 0) in
        let vf = vlen + (if vspill then ent_spill else 0) in
        omega (
          arith,
          klong,
          vlong,
          length-append (le_bytes 2 kf) (le_bytes 2 vf ++ (kpart ++ vpart)),
          length-le_bytes 2 kf,
          length-append (le_bytes 2 vf) (kpart ++ vpart),
          length-le_bytes 2 vf,
          length-append kpart vpart,
        )

    -- An entry that kvhash_set writes behind any bytes of a bucket, its lengths below the flag of a
    -- spilled part and its parts of the lengths that the flags give, is read back by bkt_entry with its
    -- lengths and its flags, whatever bytes follow it.
    pub bkt_entry-entry_image :
        bkt_entry (front ++ (image ++ rest)) (length front) ≡ some (entry_at (length front))
    unfolding entry_image
    bkt_entry-entry_image =
        let (ks, km, kb) = flagged klen kspill kfits in
        let (vs, vm, vb) = flagged vlen vspill vfits in
        let kf = klen + (if kspill then ent_spill else 0) in
        let vf = vlen + (if vspill then ent_spill else 0) in
        let parts = kpart ++ vpart in
        let first =
          ap (λ bs. front ++ bs) (append_assoc (le_bytes 2 kf) (le_bytes 2 vf ++ parts) rest) in
        let second =
          sym (append_assoc front (le_bytes 2 kf) (le_bytes 2 vf ++ parts ++ rest))
          ∙ ap (λ bs. front ++ le_bytes 2 kf ++ bs) (append_assoc (le_bytes 2 vf) parts rest) in
        let at_k =
          ap (λ bs. int_at 2 bs (length front)) first
          ∙ int_at-front front (le_bytes 2 vf ++ parts ++ rest) kf (length front) refl ks in
        let past : length front + 2 ≡ length (front ++ le_bytes 2 kf) =
          omega (arith, length-append front (le_bytes 2 kf), length-le_bytes 2 kf) in
        let at_v =
          ap (λ bs. int_at 2 bs (length front + 2)) (first ∙ second)
          ∙ int_at-front (front ++ le_bytes 2 kf) (parts ++ rest) vf (length front + 2) past vs in
        let room : length front
              + (entry_hdr_len + key_part_len kspill klen + val_part_len vspill vlen)
            ≤ length (front ++ (image ++ rest)) =
          omega (
            arith,
            length-append front (image ++ rest),
            length-append image rest,
            length-entry_image,
          ) in
        bkt_entry-fields (front ++ (image ++ rest)) (length front) kf vf at_k at_v km kb vm vb room
