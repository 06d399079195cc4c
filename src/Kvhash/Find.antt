-- ===== src/Kvhash/Find.antt =====
-- lib/containers/kvhash/kvhash.c: the entries that a walk over a bucket visits, the keys and values
-- wherever they live, and bkt_find. `crc32` is Zephyr's crc32_ieee, and FP_MASK is 0xffffffff, as
-- without test hooks.
use key_value_db.Base.{
  ℕ, zero, suc, ◌+◌, ◌-◌, ◌/◌, ◌%◌, ◌^◌, min, Bool, true, false, not, ◌&&◌, none, some, List, [],
  ◌∷◌, ltb, leb, ◌==◌, if◌then◌else◌, length, take, drop, int_at, enoent, eio, enomem, Result, ok,
  err, is_enoent,
}
use Prim.Native.Nat.{compare, Ordering}
use key_value_db.BlobDb.{BlobDb, BlobReads}
use key_value_db.Kvhash.Bucket.{Ent, bkt_entry}

-- where an entry stands, and what it is
pub record Visit : Type 0 where
  pub off : ℕ
  pub ent : Ent

-- the rounds of `for (off = 0; bkt_entry(buf, used, off, &e); off += e.len)` from `off` on
unfoldable pub visits_from : ℕ → List ℕ → ℕ → List Visit
visits_from zero buf off = []
visits_from (suc rounds) buf off = elim (bkt_entry buf off) [
  | none ↦ []
  | some e ↦ record { off = off; ent = e } ∷ visits_from rounds buf (off + e.len)
]

-- an entry has a byte at least
unfoldable pub visits : List ℕ → List Visit
visits buf = visits_from (suc (length buf)) buf 0

-- struct key_src: the bytes at `p`, or the id of their blob
pub data KeySrc : Type 0 where
  in_ram : List ℕ → KeySrc
  in_blob : ℕ → KeySrc

-- the sign of memcmp over as many bytes as both have
unfoldable pub memcmp : List ℕ → List ℕ → Ordering
memcmp [] ys = Ordering.eq
memcmp (x ∷ xs) [] = Ordering.eq
memcmp (x ∷ xs) (y ∷ ys) = elim (compare x y) [
  | Ordering.lt ↦ Ordering.lt
  | Ordering.eq ↦ memcmp xs ys
  | Ordering.gt ↦ Ordering.gt
]

abbrev pub is_eq : Ordering → Bool
is_eq Ordering.lt = false
is_eq Ordering.eq = true
is_eq Ordering.gt = false

abbrev pub ent_key_id : List ℕ → Ent → ℕ
ent_key_id buf e = if e.kspill then int_at 8 buf (e.kpos + 4) else 0

abbrev pub ent_val_id : List ℕ → Ent → ℕ
ent_val_id buf e = if e.vspill then int_at 8 buf e.vpos else 0

abbrev pub ent_key : List ℕ → Ent → KeySrc
ent_key buf e = if e.kspill then in_blob (int_at 8 buf (e.kpos + 4)) else in_ram (drop e.kpos buf)

module _ (crc32 : List ℕ → ℕ) where
  abbrev pub hash_fp : ℕ → ℕ
  hash_fp h = h % 2 ^ 32

  abbrev pub ent_fp : List ℕ → Ent → ℕ
  ent_fp buf e =
      if e.kspill then int_at 4 buf e.kpos else hash_fp (crc32 (take e.kl (drop e.kpos buf)))

-- what a read of a blob that an entry names says: a blob that is gone, or shorter, is a damaged map
abbrev pub whole_chunk : ℕ → Result (List ℕ) → Result (List ℕ)
whole_chunk n (err e) = err (if is_enoent e then eio else e)
whole_chunk n (ok bs) = if length bs == n then ok bs else err eio

abbrev pub compare_with : Result (List ℕ) → List ℕ → Result Ordering
compare_with (err e) bs = err e
compare_with (ok xs) bs = ok (memcmp xs bs)

abbrev pub compare_to : List ℕ → Result (List ℕ) → Result Ordering
compare_to xs (err e) = err e
compare_to xs (ok bs) = ok (memcmp xs bs)

-- the chunks, the first read before the second
abbrev pub compare_both : Result (List ℕ) → Result (List ℕ) → Result Ordering
compare_both (err e) r = err e
compare_both (ok xs) r = compare_to xs r

module _ (db : BlobDb) (reads : BlobReads db) (max_payload : ℕ) where
  open db use {Store, get}
  open reads use {read}

  unfoldable pub key_chunk : Store → KeySrc → ℕ → ℕ → Result (List ℕ)
  key_chunk s (in_ram p) pos n = ok (take n (drop pos p))
  key_chunk s (in_blob id) pos n = if id == 0 then err eio else whole_chunk n (read s id pos n)

  -- the rounds of 64 bytes, KEY_CHUNK, that are left
  unfoldable pub compare_chunks : ℕ → Store → KeySrc → KeySrc → ℕ → ℕ → Result Ordering
  compare_chunks zero s a b len pos = ok Ordering.eq
  compare_chunks (suc k) s a b len pos =
      let n = min 64 (len - pos) in
      elim (compare_both (key_chunk s a pos n) (key_chunk s b pos n)) [
        | err e ↦ err e
        | ok Ordering.lt ↦ ok Ordering.lt
        | ok Ordering.gt ↦ ok Ordering.gt
        | ok Ordering.eq ↦ compare_chunks k s a b len (pos + 64)
      ]

  -- `scratch` says whether there is one
  unfoldable pub key_cmp_bytes : Store → KeySrc → KeySrc → ℕ → Bool → Result Ordering
  key_cmp_bytes s (in_ram p) (in_ram q) len scratch = ok (memcmp (take len p) (take len q))
  key_cmp_bytes s (in_ram p) (in_blob j) len scratch =
      if scratch && leb len max_payload
      then compare_to (take len p) (key_chunk s (in_blob j) 0 len)
      else compare_chunks ((len + 63) / 64) s (in_ram p) (in_blob j) len 0
  key_cmp_bytes s (in_blob i) (in_ram q) len scratch =
      if scratch && leb len max_payload
      then compare_with (key_chunk s (in_blob i) 0 len) (take len q)
      else compare_chunks ((len + 63) / 64) s (in_blob i) (in_ram q) len 0
  key_cmp_bytes s (in_blob i) (in_blob j) len scratch =
      compare_chunks ((len + 63) / 64) s (in_blob i) (in_blob j) len 0

  abbrev same : Result Ordering → Result Bool
  same (err e) = err e
  same (ok o) = ok (is_eq o)

  -- whether an entry is the key's, whose fingerprint is `fp`
  unfoldable pub is_hit : Store → List ℕ → List ℕ → ℕ → Ent → Result Bool
  is_hit s buf key fp e =
      if not (e.kl == length key)
      then ok false
      else if not e.kspill
      then ok (is_eq (memcmp (take (length key) (drop e.kpos buf)) key))
      else if not (int_at 4 buf e.kpos == fp)
      then ok false
      else same (key_cmp_bytes s (ent_key buf e) (in_ram key) (length key) true)

  unfoldable pub find_in : Store → List ℕ → List ℕ → ℕ → List Visit → Result Visit
  find_in s buf key fp [] = err enoent
  find_in s buf key fp (v ∷ vs) = elim (is_hit s buf key fp v.ent) [
    | err e ↦ err e
    | ok true ↦ ok v
    | ok false ↦ find_in s buf key fp vs
  ]

  unfoldable pub bkt_find : Store → List ℕ → List ℕ → ℕ → Result Visit
  bkt_find s buf key fp = find_in s buf key fp (visits buf)

  abbrev pub whole_value : ℕ → Result (List ℕ) → Result (List ℕ)
  whole_value vl (err enoent) = err eio
  whole_value vl (err enomem) = err eio
  whole_value vl (err e) = err e
  whole_value vl (ok bs) = if length bs == vl then ok bs else err eio

  -- `*out_len` is e.vl on every branch
  unfoldable pub ent_value : Store → List ℕ → Ent → ℕ → Result (List ℕ)
  ent_value s buf e out_sz =
      let vid = ent_val_id buf e in
      if ltb out_sz e.vl
      then err enomem
      else if not e.vspill
      then ok (take e.vl (drop e.vpos buf))
      else if vid == 0
      then err eio
      else whole_value e.vl (get s vid out_sz)
