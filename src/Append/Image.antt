-- ===== src/Append/Image.antt =====
-- The walk reads an appended slot back.
use key_value_db.Base.{
  ℕ, ◌+◌, ◌/◌, ◌%◌, ◌^◌, ◌≤◌, ◌<◌, ◌≡◌, refl, sym, ap, ◌∙◌, true, false, some, List, [], ◌∷◌, ◌++◌,
  arith, ltb, ◌==◌, ==_refl, length, take, drop, take-append_self, drop-append_self, drop-drop,
  le_bytes, of_le, int_at, of_le-le_bytes, take-le_bytes, drop-le_bytes,
}
use key_value_db.BucketLog.{Geometry, slot_overhead, slot_size_for, slot_crc16, slot_at, erased}
use key_value_db.BucketLog.Parse.{slot_size-ge}
use key_value_db.Append.{sealed_flags, slot_head}

-- what the walk reads of a whole slot
slot_at-fields :
    (g : Geometry) (off : ℕ) (bs : List ℕ) (f n i : ℕ)
    → int_at 1 bs 0 ≡ f
    → int_at 2 bs 2 ≡ n
    → int_at 8 bs 4 ≡ i
    → slot_crc16 g (take 4 bs) (take 8 (drop 4 bs)) (take n (drop 12 bs)) ≡ int_at 2 bs (12 + n)
    → f < 4
    → f % 2 ≡ 1
    → n ≤ g.max_payload
    → off + slot_size_for g n ≤ g.peb_size
    → slot_at g off bs
      ≡ some (record { id = i; flags = f; val_len = n; total_size = slot_size_for g n }, true)
unfolding slot_at
slot_at-fields g off bs f n i hf hn hi hc known sealed cap fits =
    let size = slot_size-ge g n in
    let c = ==_refl (int_at 2 bs (12 + n)) in
    let room : ltb g.peb_size (off + slot_overhead) ≡ false = ground arith in
    let whole : ltb g.peb_size (off + slot_size_for g n) ≡ false = ground arith in
    let short : ltb g.max_payload n ≡ false = ground arith in
    let programmed : (f == erased) ≡ false = ground arith in
    let s : (f % 2 == 1) ≡ true = ground arith in
    let k : (f / 4 == 0) ≡ true = ground arith in
    rw (hf, hn, hi, hc, room, programmed, s, k, short, whole, c) refl

module _ (g : Geometry) (id extra : ℕ) (val rest : List ℕ) (id_fits : id < 2 ^ 64)
    (val_fits : length val < 2 ^ 16) where
  abbrev crc : ℕ
  crc = slot_crc16 g (slot_head g extra (length val)) (le_bytes 8 id) val

  abbrev behind_id : List ℕ
  behind_id = val ++ (le_bytes 2 crc ++ rest)

  abbrev bs : List ℕ
  bs = slot_head g extra (length val) ++ (le_bytes 8 id ++ behind_id)

  flag_read : take 1 bs ≡ sealed_flags extra ∷ []
  flag_read = refl

  of_le-byte : (b : ℕ) → of_le (b ∷ []) ≡ b
  unfolding of_le
  of_le-byte b = omega arith

  val_len_read : int_at 2 bs 2 ≡ length val
  val_len_read =
      ap of_le (take-le_bytes 2 (length val) (le_bytes 8 id ++ behind_id))
      ∙ of_le-le_bytes 2 (length val) (omega arith)

  head_read : take 4 bs ≡ slot_head g extra (length val)
  head_read =
      ap (λ l. sealed_flags extra ∷ 0 ∷ l)
        (take-le_bytes 2 (length val) (le_bytes 8 id ++ behind_id))

  past_head : drop 4 bs ≡ le_bytes 8 id ++ behind_id
  past_head = drop-le_bytes 2 (length val) (le_bytes 8 id ++ behind_id)

  id_read : take 8 (drop 4 bs) ≡ le_bytes 8 id
  id_read = ap (take 8) past_head ∙ take-le_bytes 8 id behind_id

  past_id : drop 12 bs ≡ behind_id
  past_id = sym (drop-drop 8 4 bs) ∙ ap (drop 8) past_head ∙ drop-le_bytes 8 id behind_id

  pub val_read : take (length val) (drop 12 bs) ≡ val
  val_read =
      ap (take (length val)) past_id
      ∙ take-append_self val (le_bytes 2 crc ++ rest) (length val) refl

  crc_read : crc < 2 ^ 16 → int_at 2 bs (12 + length val) ≡ crc
  crc_read h =
      ap (λ l. of_le (take 2 l))
        (sym (drop-drop (length val) 12 bs)
          ∙ ap (drop (length val)) past_id
          ∙ drop-append_self val (le_bytes 2 crc ++ rest) (length val) refl)
      ∙ ap of_le (take-le_bytes 2 crc rest)
      ∙ of_le-le_bytes 2 crc (omega arith)

  -- A slot of known flags that fits is read back, intact.
  pub slot_at-bytes :
      (off : ℕ)
      → crc < 2 ^ 16
      → extra < 4
      → length val ≤ g.max_payload
      → off + slot_size_for g (length val) ≤ g.peb_size
      → slot_at g off bs
        ≡ some (
          record {
            id = id;
            flags = sealed_flags extra;
            val_len = length val;
            total_size = slot_size_for g (length val);
          },
          true,
        )
  slot_at-bytes off crc_fits known cap fits =
      slot_at-fields g off bs (sealed_flags extra) (length val) id
        (ap of_le flag_read ∙ of_le-byte (sealed_flags extra)) val_len_read
        (ap of_le id_read ∙ of_le-le_bytes 8 id (omega arith))
        (rw (head_read, id_read, val_read) (sym (crc_read crc_fits))) (omega arith) (omega arith)
        cap fits
