-- ===== src/Kvhash/Hit.antt =====
-- The bindings that a bucket of kvhash.c holds, and whether an entry is a key's.
use key_value_db.Base.{
  ℕ, ◌+◌, ◌≤◌, ◌<◌, ◌≡◌, refl, sym, ap, ◌∙◌, ◌≢◌, ◌⊎◌, inl, inr, Bool, true, false, ◌&&◌, some,
  List, [], ◌∷◌, ◌++◌, arith, leb, ◌==◌, if◌then◌else◌, ==_refl, Bool-cases, length, take, drop,
  length-append, take-append_self, drop-append_self, take_self, drop-drop, values, le_bytes, of_le,
  int_at, length-le_bytes, int_at-le_bytes, drop-le_bytes, ok,
}
use mathlib.Core.List.{append_assoc}
use key_value_db.BlobDb.{BlobDb, BlobReads, IsFault}
use key_value_db.Kvhash.Bucket.{Ent, ent_spill, entry_hdr_len, entry_image, key_part_len}
use key_value_db.Kvhash.Walk.{Packed, Fits, image_of}
use key_value_db.Kvhash.Find.{
  in_ram, in_blob, memcmp, is_eq, hash_fp, key_chunk, key_cmp_bytes, is_hit,
}
use key_value_db.Kvhash.Visits.{entry_of}

-- a binding, the entry that packs it, and the ids of its blobs
pub record Binding : Type 0 where
  pub entry : Packed
  pub key : List ℕ
  pub val : List ℕ
  pub kid : ℕ
  pub vid : ℕ

-- two keys of the same bytes
abbrev pub key_eq : List ℕ → List ℕ → Bool
key_eq xs ys = length xs == length ys && is_eq (memcmp xs ys)

memcmp-eq : (xs ys : List ℕ) → length xs ≡ length ys → is_eq (memcmp xs ys) ≡ true → xs ≡ ys
unfolding memcmp
memcmp-eq [] [] long h = refl
memcmp-eq [] (y ∷ ys) long h = absurd (omega (arith, long))
memcmp-eq (x ∷ xs) [] long h = absurd (omega (arith, long))
memcmp-eq (x ∷ xs) (y ∷ ys) long h = ground (arith, memcmp-eq xs ys)

pub key_eq-≡ : (xs ys : List ℕ) → key_eq xs ys ≡ true → xs ≡ ys
key_eq-≡ xs ys h = memcmp-eq xs ys (ground arith) (ground arith)

-- keys of different fingerprints differ
fp_tells :
    (crc32 : List ℕ → ℕ) (key want : List ℕ)
    → length key ≡ length want
    → (hash_fp crc32 (crc32 key) == hash_fp crc32 (crc32 want)) ≡ false
    → is_eq (memcmp key want) ≡ false
fp_tells crc32 key want lens differ = elim (Bool-cases (is_eq (memcmp key want))) [
  | inr other ↦ other
  | inl same ↦
      let key_want = memcmp-eq key want lens same in
      let alike : (hash_fp crc32 (crc32 want) == hash_fp crc32 (crc32 want)) ≡ false =
        rw key_want at differ in
      absurd (let yes' = ==_refl (hash_fp crc32 (crc32 want)) in cc)
]

-- where the parts of an entry stand
module _ (p : Packed) (fits : Fits p) (front rest : List ℕ) where
  abbrev bucket : List ℕ
  bucket = front ++ (image_of p ++ rest)

  flattened :
      (kf vf : List ℕ)
      → front ++ ((kf ++ (vf ++ (p.kpart ++ p.vpart))) ++ rest)
        ≡ (front ++ (kf ++ vf)) ++ (p.kpart ++ (p.vpart ++ rest))
  flattened kf vf = simp append_assoc refl

  pub key_part_at : drop (entry_of (length front) p).kpos bucket ≡ p.kpart ++ (p.vpart ++ rest)
  unfolding entry_image
  key_part_at =
      let kf = le_bytes 2 (p.klen + (if p.kspill then ent_spill else 0)) in
      let vf = le_bytes 2 (p.vlen + (if p.vspill then ent_spill else 0)) in
      ap (drop (length front + entry_hdr_len)) (flattened kf vf)
      ∙ drop-append_self (front ++ (kf ++ vf)) (p.kpart ++ (p.vpart ++ rest))
          (length front + entry_hdr_len)
          (omega (
            arith,
            length-append front (kf ++ vf),
            length-append kf vf,
            length-le_bytes 2 (p.klen + (if p.kspill then ent_spill else 0)),
            length-le_bytes 2 (p.vlen + (if p.vspill then ent_spill else 0)),
          ))

  pub val_part_at : drop (entry_of (length front) p).vpos bucket ≡ p.vpart ++ rest
  val_part_at =
      let (kfits, vfits, klong, vlong) = fits in
      let kpl = key_part_len p.kspill p.klen in
      sym (drop-drop kpl (length front + entry_hdr_len) bucket)
      ∙ ap (drop kpl) key_part_at
      ∙ drop-append_self p.kpart (p.vpart ++ rest) kpl (sym klong)

module _ (db : BlobDb) (reads : BlobReads db) (crc32 : List ℕ → ℕ) (max_payload : ℕ) where
  open db use {Store, view}
  open reads use {read, read_window}

  -- a key or a value in its entry, or in a blob of its own
  abbrev pub KeyAt : Store → Bool → ℕ → List ℕ → List ℕ → Type 0
  KeyAt s false id part key = part ≡ key
  KeyAt s true id part key =
      (id ≢ 0)
      × (id < values 8)
      × (part ≡ le_bytes 4 (hash_fp crc32 (crc32 key)) ++ le_bytes 8 id)
      × (view s id ≡ some key)
      × (length key ≤ max_payload)

  abbrev pub ValAt : Store → Bool → ℕ → List ℕ → List ℕ → Type 0
  ValAt s false id part val = part ≡ val
  ValAt s true id part val =
      (id ≢ 0) × (id < values 8) × (part ≡ le_bytes 8 id) × (view s id ≡ some val)

  -- an entry that binds the key to the value
  pub record Holds (s : Store) (b : Binding) : Type 0 where
    pub fits : Fits b.entry
    pub klen : b.entry.klen ≡ length b.key
    pub vlen : b.entry.vlen ≡ length b.val
    pub key_at : KeyAt s b.entry.kspill b.kid b.entry.kpart b.key
    pub val_at : ValAt s b.entry.vspill b.vid b.entry.vpart b.val

  -- the blob of a spilled key, read in one piece
  chunk-blob :
      (s : Store) (id : ℕ) (key : List ℕ)
      → id ≢ 0
      → view s id ≡ some key
      → (key_chunk db reads max_payload s (in_blob id) 0 (length key) ≡ ok key)
        ⊎ IsFault (key_chunk db reads max_payload s (in_blob id) 0 (length key))
  unfolding key_chunk
  chunk-blob s id key real bound =
      let some_id : (id == 0) ≡ false = ground arith in
      elim (read_window s id 0 (length key)) [
        | inl answered ↦ inl (
            rw
              (
                some_id,
                answered,
                bound,
                take_self key (length key) (omega arith),
                ==_refl (length key),
              )
              refl)
        | inr (inl io) ↦ inr (rw (some_id, io) (inl refl))
        | inr (inr unmounted) ↦ inr (rw (some_id, unmounted) (inr refl))
      ]

  blob_same :
      (s : Store) (id : ℕ) (key want : List ℕ)
      → id ≢ 0
      → view s id ≡ some key
      → length key ≤ max_payload
      → length want ≡ length key
      → (key_cmp_bytes db reads max_payload s (in_blob id) (in_ram want) (length want) true
          ≡ ok (memcmp key want))
        ⊎ IsFault
            (key_cmp_bytes db reads max_payload s (in_blob id) (in_ram want) (length want) true)
  unfolding key_cmp_bytes
  blob_same s id key want real bound short lens =
      let whole : leb (length key) max_payload ≡ true = ground arith in
      elim (chunk-blob s id key real bound) [
        | inl got ↦
            inl (rw (lens, whole, got, take_self want (length key) (omega (arith, lens))) refl)
        | inr (inl io) ↦ inr (rw (lens, whole, io) (inl refl))
        | inr (inr unmounted) ↦ inr (rw (lens, whole, unmounted) (inr refl))
      ]

  module _ (s : Store) (buf more : List ℕ) (e : Ent) (key want : List ℕ) where
    -- an entry of the key, whose part stands at its place in the bucket
    abbrev pub Answers : Type 0
    Answers =
        (is_hit db reads max_payload s buf want (hash_fp crc32 (crc32 want)) e
          ≡ ok (key_eq key want))
        ⊎ IsFault (is_hit db reads max_payload s buf want (hash_fp crc32 (crc32 want)) e)

    inline-Answers : e.kl ≡ length key → e.kspill ≡ false → drop e.kpos buf ≡ key ++ more → Answers
    unfolding is_hit
    inline-Answers long inline here = elim (Bool-cases (length key == length want)) [
      | inr other ↦ inl (rw (long, other) refl)
      | inl same ↦
          let lens : length want ≡ length key = ground arith in
          inl (rw (long, same, inline, here, take-append_self key more (length want) lens) refl)
    ]

    spilled-Answers :
        (id : ℕ)
        → e.kl ≡ length key
        → e.kspill ≡ true
        → drop e.kpos buf ≡ (le_bytes 4 (hash_fp crc32 (crc32 key)) ++ le_bytes 8 id) ++ more
        → id ≢ 0
        → id < values 8
        → view s id ≡ some key
        → length key ≤ max_payload
        → Answers
    unfolding is_hit key_cmp_bytes
    spilled-Answers id long spilled here real fits bound short =
        let fp = hash_fp crc32 (crc32 key) in
        let parts = append_assoc (le_bytes 4 fp) (le_bytes 8 id) more in
        let at_fp : int_at 4 buf e.kpos ≡ fp =
          ap (λ bs. of_le (take 4 bs)) (here ∙ parts)
          ∙ int_at-le_bytes 4 fp (le_bytes 8 id ++ more) (omega arith) in
        let at_id : int_at 8 buf (e.kpos + 4) ≡ id =
          ap (λ bs. of_le (take 8 bs))
            (sym (drop-drop 4 e.kpos buf)
              ∙ ap (drop 4) (here ∙ parts)
              ∙ drop-le_bytes 4 fp (le_bytes 8 id ++ more))
          ∙ int_at-le_bytes 8 id more fits in
        elim (Bool-cases (length key == length want)) [
          | inr other ↦ inl (rw (long, other) refl)
          | inl same ↦
              let lens : length want ≡ length key = ground arith in
              elim (Bool-cases (fp == hash_fp crc32 (crc32 want))) [
                | inr differ ↦ inl (
                    rw (long, same, spilled, at_fp, differ)
                      (ap ok (sym (fp_tells crc32 key want (sym lens) differ))))
                | inl alike ↦ elim (blob_same s id key want real bound short lens) [
                  | inl got ↦ inl (rw (long, same, spilled, at_fp, alike, at_id, got) refl)
                  | inr (inl io) ↦
                      inr (rw (long, same, spilled, at_fp, alike, at_id, io) (inl refl))
                  | inr (inr unmounted) ↦
                      inr (rw (long, same, spilled, at_fp, alike, at_id, unmounted) (inr refl))
                ]
              ]
        ]

  hit_by :
      (s : Store) (p : Packed) (id : ℕ) (key want front rest : List ℕ) (spilled : Bool)
      → p.kspill ≡ spilled
      → Fits p
      → p.klen ≡ length key
      → KeyAt s spilled id p.kpart key
      → Answers s
          (front ++ (image_of p ++ rest))
          (p.vpart ++ rest)
          (entry_of (length front) p)
          key
          want
  hit_by s p id key want front rest false inline fits long part =
      inline-Answers s (front ++ (image_of p ++ rest)) (p.vpart ++ rest) (entry_of (length front) p)
        key want long inline
        (key_part_at p fits front rest ∙ ap (λ bs. bs ++ (p.vpart ++ rest)) part)
  hit_by s p id key want front rest true spilled fits long (real, idfits, part, bound, short) =
      spilled-Answers s (front ++ (image_of p ++ rest)) (p.vpart ++ rest)
        (entry_of (length front) p) key want id long spilled
        (key_part_at p fits front rest ∙ ap (λ bs. bs ++ (p.vpart ++ rest)) part) real idfits bound
        short

  -- What bkt_find tests says whether the entry is the key's, unless its blob cannot be read.
  pub is_hit-key_eq :
      (s : Store) (b : Binding) (want front rest : List ℕ)
      → Holds s b
      → Answers s
          (front ++ (image_of b.entry ++ rest))
          (b.entry.vpart ++ rest)
          (entry_of (length front) b.entry)
          b.key
          want
  is_hit-key_eq s b want front rest h =
      hit_by s b.entry b.kid b.key want front rest b.entry.kspill refl h.fits h.klen h.key_at
