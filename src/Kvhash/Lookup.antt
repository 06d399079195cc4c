-- ===== src/Kvhash/Lookup.antt =====
-- kvhash_get of a key whose bucket holds packed bindings.
use key_value_db.Base.{
  ℕ, ◌+◌, ◌≤◌, ◌≡◌, refl, sym, ap, ◌∙◌, ◌≢◌, ◌⊎◌, inl, inr, Bool, true, false, Option, none, some,
  List, [], ◌∷◌, ◌++◌, arith, ltb, leb, ◌==◌, if◌then◌else◌, ==_refl, Bool-cases, length, take,
  drop, All, length-append, take-append_self, of_le, int_at, int_at-le_bytes, enoent, enomem,
  Result, ok, err,
}
use mathlib.Core.List.{append_assoc, append-nil}
use mathlib.Core.Path.{subst}
use key_value_db.BlobDb.{BlobDb, BlobReads, IsFault}
use key_value_db.Kvhash.Bucket.{Ent}
use key_value_db.Kvhash.Walk.{Packed, Fits, image_of, packed}
use key_value_db.Kvhash.Dir.{Leaf, dir_child, resolve_leaf}
use key_value_db.Kvhash.Find.{Visit, visits, hash_fp, is_hit, find_in, bkt_find, ent_value}
use key_value_db.Kvhash.Visits.{entry_of, places, visits-packed, length-image_of}
use key_value_db.Kvhash.Replace.{packed-append}
use key_value_db.Kvhash.Hit.{Binding, Holds, ValAt, key_eq, is_hit-key_eq, val_part_at}

abbrev pub entries : List Binding → List Packed
entries [] = []
entries (b ∷ bs) = b.entry ∷ entries bs

pub entries-append : (xs ys : List Binding) → entries (xs ++ ys) ≡ entries xs ++ entries ys
entries-append [] ys = refl
entries-append (b ∷ xs) ys = ap (λ ps. b.entry ∷ ps) (entries-append xs ys)

-- the value of a key
abbrev pub lookup : List Binding → List ℕ → Option (List ℕ)
lookup [] want = none
lookup (b ∷ bs) want = if key_eq b.key want then some b.val else lookup bs want

-- kvhash_get into a buffer of `size` bytes
abbrev pub answer : Option (List ℕ) → ℕ → Result (List ℕ)
answer none size = err enoent
answer (some val) size = if ltb size (length val) then err enomem else ok val

module _ (db : BlobDb) (reads : BlobReads db) (crc32 : List ℕ → ℕ) (max_payload : ℕ) where
  open db use {Store, view, get, get_reply}

  abbrev pub HoldsAll : Store → List Binding → Type 0
  HoldsAll s = All (Holds db reads crc32 max_payload s)

  -- an entry of the bucket that binds the key
  pub record Hit (s : Store) (buf : List ℕ) (total : List Binding) (want : List ℕ) (v : Visit)
      (val : List ℕ) : Type 0 where
    pub before : List Binding
    pub found : Binding
    pub after : List Binding
    pub whole : total ≡ before ++ found ∷ after
    pub off : v.off ≡ length (packed (entries before))
    pub ent : v.ent ≡ entry_of v.off found.entry
    pub here : drop v.ent.vpos buf ≡ found.entry.vpart ++ packed (entries after)
    pub holds : Holds db reads crc32 max_payload s found
    pub matched : key_eq found.key want ≡ true
    pub value : found.val ≡ val

  -- what a search says, where the bindings give `o` for the key
  abbrev pub Finds :
      Store → List ℕ → List Binding → List ℕ → Option (List ℕ) → Result Visit → Type 0
  Finds s buf total want none r = (r ≡ err enoent) ⊎ IsFault r
  Finds s buf total want (some val) r =
      ((v : Visit) × (r ≡ ok v) × Hit s buf total want v val) ⊎ IsFault r

  fault-Finds :
      (s : Store) (buf : List ℕ) (total : List Binding) (want : List ℕ) (o : Option (List ℕ))
      (r : Result Visit)
      → IsFault r
      → Finds s buf total want o r
  fault-Finds s buf total want none r fault = inr fault
  fault-Finds s buf total want (some val) r fault = inr fault

  find_in-Finds :
      (s : Store) (bs before total : List Binding) (want buf : List ℕ)
      → HoldsAll s bs
      → total ≡ before ++ bs
      → buf ≡ packed (entries before) ++ packed (entries bs)
      → Finds s buf total want (lookup bs want) (
          find_in db reads max_payload s buf want
            (hash_fp crc32 (crc32 want))
            (places (length (packed (entries before))) (entries bs)))
  unfolding find_in packed
  find_in-Finds s [] before total want buf holds whole split = inl refl
  find_in-Finds s (b ∷ bs) before total want buf holds whole split =
      let (own, others) = holds in
      let p = b.entry in
      let rest = packed (entries bs) in
      let front = packed (entries before) in
      let off = length front in
      let fp = hash_fp crc32 (crc32 want) in
      let grown : packed (entries (before ++ b ∷ [])) ≡ front ++ image_of p =
        ap packed (entries-append before (b ∷ []))
        ∙ packed-append (entries before) (p ∷ [])
        ∙ ap (λ bytes. front ++ bytes) (append-nil (image_of p)) in
      let longer : length (front ++ image_of p) ≡ off + (entry_of off p).len =
        omega (arith, length-append front (image_of p), length-image_of p own.fits off) in
      let past = ap (λ (bytes : List ℕ). length bytes) grown ∙ longer in
      let tried : (is_hit db reads max_payload s buf want fp (entry_of off p)
            ≡ ok (key_eq b.key want))
          ⊎ IsFault (is_hit db reads max_payload s buf want fp (entry_of off p)) =
        subst
          (λ bytes.
            (is_hit db reads max_payload s bytes want fp (entry_of off p) ≡ ok (key_eq b.key want))
            ⊎ IsFault (is_hit db reads max_payload s bytes want fp (entry_of off p)))
          (sym split) (is_hit-key_eq db reads crc32 max_payload s b want front rest own) in
      let later =
        subst
          (λ (k : ℕ).
            Finds s buf total want (lookup bs want)
              (find_in db reads max_payload s buf want fp (places k (entries bs))))
          past
          (find_in-Finds s bs (before ++ b ∷ []) total want buf others
            (whole ∙ sym (append_assoc before (b ∷ []) bs))
            (split
              ∙ sym (append_assoc front (image_of p) rest)
              ∙ ap (λ bytes. bytes ++ rest) (sym grown))) in
      elim tried [
        | inr (inl io) ↦
            fault-Finds s buf total want (lookup (b ∷ bs) want)
              (find_in db reads max_payload s buf want fp (places off (entries (b ∷ bs))))
              (rw (find_in, io) (inl refl))
        | inr (inr unmounted) ↦
            fault-Finds s buf total want (lookup (b ∷ bs) want)
              (find_in db reads max_payload s buf want fp (places off (entries (b ∷ bs))))
              (rw (find_in, unmounted) (inr refl))
        | inl said ↦ elim (Bool-cases (key_eq b.key want)) [
          | inr other ↦ rw (find_in, said, other) later
          | inl same ↦
              rw (find_in, said, same)
                (inl (
                  record { off = off; ent = entry_of off p },
                  refl,
                  record {
                    before = before;
                    found = b;
                    after = bs;
                    whole = whole;
                    off = refl;
                    ent = refl;
                    here =
                        ap (drop (entry_of off p).vpos) split ∙ val_part_at p own.fits front rest;
                    holds = own;
                    matched = same;
                    value = refl;
                  },
                ))
        ]
      ]

  value-answer :
      (s : Store) (buf rest part val : List ℕ) (e : Ent) (id : ℕ) (spilled : Bool) (size : ℕ)
      → e.vl ≡ length val
      → e.vspill ≡ spilled
      → drop e.vpos buf ≡ part ++ rest
      → ValAt db reads crc32 max_payload s spilled id part val
      → (ent_value db reads max_payload s buf e size ≡ answer (some val) size)
        ⊎ IsFault (ent_value db reads max_payload s buf e size)
  unfolding ent_value
  value-answer s buf rest part val e id false size long inline here at_val = inl (
      rw
        (
          long,
          inline,
          here,
          take-append_self part rest (length val) (ap (λ (bs : List ℕ). length bs) (sym at_val)),
        )
        (ap (λ v. if ltb size (length val) then err enomem else ok v) at_val))
  value-answer s buf rest part val e id true size long spilled here (real, fits, at_val, bound) =
      let at_id : int_at 8 buf e.vpos ≡ id =
        ap (λ bs. of_le (take 8 bs)) (here ∙ ap (λ bs. bs ++ rest) at_val)
        ∙ int_at-le_bytes 8 id rest fits in
      let some_id : (id == 0) ≡ false = ground arith in
      elim (Bool-cases (ltb size (length val))) [
        | inl small ↦ inl (rw (long, small) refl)
        | inr room ↦
            let whole : leb (length val) size ≡ true = ground arith in
            elim (get_reply s id size) [
              | inl answered ↦ inl (
                  rw
                    (
                      long,
                      room,
                      spilled,
                      at_id,
                      some_id,
                      answered,
                      bound,
                      whole,
                      ==_refl (length val),
                    )
                    refl)
              | inr (inl io) ↦ inr (rw (long, room, spilled, at_id, some_id, io) (inl refl))
              | inr (inr unmounted) ↦
                  inr (rw (long, room, spilled, at_id, some_id, unmounted) (inr refl))
            ]
      ]

  pub Hit-answer :
      (s : Store) (buf want val : List ℕ) (total : List Binding) (v : Visit) (size : ℕ)
      → Hit s buf total want v val
      → (ent_value db reads max_payload s buf v.ent size ≡ answer (some val) size)
        ⊎ IsFault (ent_value db reads max_payload s buf v.ent size)
  Hit-answer s buf want val total v size h =
      let b = h.found in
      subst
        (λ bytes.
          (ent_value db reads max_payload s buf v.ent size ≡ answer (some bytes) size)
          ⊎ IsFault (ent_value db reads max_payload s buf v.ent size))
        h.value
        (value-answer s buf (packed (entries h.after)) b.entry.vpart b.val v.ent b.vid
          b.entry.vspill size (ap (λ (e : Ent). e.vl) h.ent ∙ h.holds.vlen)
          (ap (λ (e : Ent). e.vspill) h.ent) h.here h.holds.val_at)

  -- the bucket of a key, with its bindings
  pub record IsBucket (s : Store) (root : ℕ) (key : List ℕ) (leaf : Leaf) (bs : List Binding)
      : Type 0 where
    pub resolved : resolve_leaf db max_payload s root (crc32 key) ≡ ok leaf
    pub named : dir_child leaf.dir.bytes leaf.idx ≢ 0
    pub bound : view s (dir_child leaf.dir.bytes leaf.idx) ≡ some (packed (entries bs))
    pub short : length (packed (entries bs)) ≤ max_payload
    pub holds : HoldsAll s bs

  fits_all : (s : Store) (bs : List Binding) → HoldsAll s bs → All Fits (entries bs)
  fits_all s [] holds = tt
  fits_all s (b ∷ bs) holds = let (own, others) = holds in (own.fits, fits_all s bs others)

  pub bkt_find-Finds :
      (s : Store) (bs : List Binding) (want : List ℕ)
      → HoldsAll s bs
      → Finds s
          (packed (entries bs))
          bs
          want
          (lookup bs want)
          (bkt_find db reads max_payload s (packed (entries bs)) want (hash_fp crc32 (crc32 want)))
  unfolding bkt_find packed
  bkt_find-Finds s bs want holds =
      let buf = packed (entries bs) in
      let walked : visits buf ≡ places 0 (entries bs) =
        ap visits (sym (append-nil buf))
        ∙ visits-packed (entries bs) [] (fits_all s bs holds) (omega arith) in
      rw walked (find_in-Finds s bs [] bs want buf holds refl refl)
