-- ===== src/Append/Live.antt =====
-- What an append changes: the binding of its id, and of no other.
use key_value_db.Base.{
  ℕ, zero, suc, ◌+◌, ◌-◌, ◌^◌, ◌≤◌, ◌<◌, ◌≡◌, refl, sym, ap, ◌∙◌, inl, inr, true, none, some, List,
  [], ◌∷◌, ◌++◌, arith, ltb, ◌==◌, if◌then◌else◌, Bool-cases, length, take, drop, replicate,
  length-append, length-take, length-drop, length-replicate, take-append_self, drop-append_self,
  drop-drop, le_bytes, length-le_bytes,
}
use mathlib.Core.List.{append_assoc}
use key_value_db.BucketLog.{
  Geometry, slot_overhead, slot_size_for, slot_crc16, slot_at, walk_end, erased, bucket_data_off,
  is_tombstone,
}
use key_value_db.BucketLog.Parse.{slot_size-ge}
use key_value_db.BucketLog.Walk.{At, Log, newest, is_for, payload_of, live, parse, parse-fuel}
use key_value_db.BucketLog.Reparse.{parse-none, slot_at-erased}
use key_value_db.BucketLog.Rebuild.{log}
use key_value_db.Append.{sealed_flags, slot_head, slot_image}
use key_value_db.Append.Image.{slot_at-bytes, val_read}
use key_value_db.Append.Extend.{parse-extend}

newest-append :
    (xs : Log) (a : At) (id : ℕ)
    → newest (xs ++ (a ∷ [])) id ≡ (if is_for a id then some a else newest xs id)
newest-append [] a id = refl
newest-append (b ∷ xs) a id = ground (arith, newest-append xs a id)

pub drop-replicate : (n m : ℕ) (a : ℕ) → drop n (replicate m a) ≡ replicate (m - n) a
drop-replicate zero m a = ap (λ (k : ℕ). replicate k a) {x = m} {y = m - 0} (omega arith)
drop-replicate (suc n) zero a = ap (λ (k : ℕ). replicate k a) {x = 0} {y = 0 - suc n} (omega arith)
drop-replicate (suc n) (suc m) a =
    drop-replicate n m a
    ∙ ap (λ (k : ℕ). replicate k a) {x = m - n} {y = suc m - suc n} (omega arith)

-- a sector after `bytes` are programmed at `off`
abbrev pub program : ℕ → List ℕ → List ℕ → List ℕ
program off bytes buf = take off buf ++ (bytes ++ drop (off + length bytes) buf)

module _ (g : Geometry) (id extra : ℕ) (val : List ℕ) where
  pub length-slot_image : length (slot_image g id extra val) ≡ slot_size_for g (length val)
  unfolding slot_image
  length-slot_image =
      let pad = slot_size_for g (length val) - (slot_overhead + length val) in
      let crc = slot_crc16 g (slot_head g extra (length val)) (le_bytes 8 id) val in
      let size = slot_size-ge g (length val) in
      omega (
        arith,
        length-append (slot_head g extra (length val))
            (le_bytes 8 id ++ (val ++ (le_bytes 2 crc ++ replicate pad erased))),
        length-le_bytes 2 (length val),
        length-append (le_bytes 8 id) (val ++ (le_bytes 2 crc ++ replicate pad erased)),
        length-le_bytes 8 id,
        length-append val (le_bytes 2 crc ++ replicate pad erased),
        length-append (le_bytes 2 crc) (replicate pad erased),
        length-le_bytes 2 crc,
        length-replicate pad erased,
      )

  module _ (id_fits : id < 2 ^ 64) (known : extra < 4) (cap : length val ≤ g.max_payload)
      (cap_fits : g.max_payload < 2 ^ 16)
      (crc_fits : (c : ℕ) (bs : List ℕ) → c < 2 ^ 16 → g.crc16 c bs < 2 ^ 16) where
    crc16_fits : (hdr idb : List ℕ) → slot_crc16 g hdr idb val < 2 ^ 16
    unfolding slot_crc16
    crc16_fits hdr idb =
        let head = crc_fits 0xffff hdr (omega arith) in
        let id_crc = crc_fits (g.crc16 0xffff hdr) idb head in
        elim (Bool-cases (ltb 0 (length val))) [
          | inl e ↦ rw e (crc_fits (g.crc16 (g.crc16 0xffff hdr) idb) val id_crc)
          | inr e ↦ rw e id_crc
        ]

    abbrev appended : ℕ → At
    appended off = record {
      off = off;
      sv = record {
        id = id;
        flags = sealed_flags extra;
        val_len = length val;
        total_size = slot_size_for g (length val);
      };
      intact = true;
      bytes = slot_image g id extra val;
    }

    slot_at-slot_image :
        (off : ℕ) (tail : List ℕ)
        → off + slot_size_for g (length val) ≤ g.peb_size
        → slot_at g off (slot_image g id extra val ++ tail) ≡ some ((appended off).sv, true)
    unfolding slot_image
    slot_at-slot_image off tail fits =
        let n = length val in
        let crc = slot_crc16 g (slot_head g extra n) (le_bytes 8 id) val in
        let pad = replicate (slot_size_for g n - (slot_overhead + n)) erased in
        rw
          (
            append_assoc (le_bytes 2 n) (le_bytes 8 id ++ (val ++ (le_bytes 2 crc ++ pad))) tail,
            append_assoc (le_bytes 8 id) (val ++ (le_bytes 2 crc ++ pad)) tail,
            append_assoc val (le_bytes 2 crc ++ pad) tail,
            append_assoc (le_bytes 2 crc) pad tail,
          )
          (slot_at-bytes g id extra val (pad ++ tail) id_fits (omega arith) off
            (crc16_fits (slot_head g extra n) (le_bytes 8 id)) known cap fits)

    payload_of-appended :
        (off : ℕ)
        → payload_of (some (appended off))
          ≡ (if is_tombstone (sealed_flags extra) then none else some val)
    unfolding slot_image
    payload_of-appended off =
        let pad = replicate (slot_size_for g (length val) - (slot_overhead + length val)) erased in
        ap (λ p. if is_tombstone (sealed_flags extra) then none else some p)
          (val_read g id extra val pad id_fits (omega arith))

    module _ (buf : List ℕ) (full : length buf ≡ g.peb_size)
        (room : bucket_data_off ≤ g.peb_size) where
      abbrev pub log_end : ℕ
      log_end = walk_end g g.peb_size buf bucket_data_off

      abbrev pub sector : List ℕ
      sector = program log_end (slot_image g id extra val) buf

      module _ (fits : log_end + slot_size_for g (length val) ≤ g.peb_size)
          (clean : drop log_end buf ≡ replicate (g.peb_size - log_end) erased) where
        abbrev tail : List ℕ
        tail = drop (log_end + length (slot_image g id extra val)) buf

        front : length (take log_end buf) ≡ log_end
        front = omega (arith, length-take log_end buf)

        behind : drop log_end sector ≡ slot_image g id extra val ++ tail
        behind =
            drop-append_self (take log_end buf) (slot_image g id extra val ++ tail) log_end
              (sym front)

        before : take log_end sector ≡ take log_end buf
        before =
            take-append_self (take log_end buf) (slot_image g id extra val ++ tail) log_end
              (sym front)

        length-sector : length sector ≡ g.peb_size
        length-sector = omega (
          arith,
          length-append (take log_end buf) (slot_image g id extra val ++ tail),
          length-append (slot_image g id extra val) tail,
          front,
          length-slot_image,
          length-drop (log_end + length (slot_image g id extra val)) buf,
        )

        tail-erased :
            tail ≡ replicate (g.peb_size - log_end - length (slot_image g id extra val)) erased
        tail-erased =
            sym (drop-drop (length (slot_image g id extra val)) log_end buf)
            ∙ ap (drop (length (slot_image g id extra val))) clean
            ∙ drop-replicate (length (slot_image g id extra val)) (g.peb_size - log_end) erased

        -- nothing can be sized in what is left
        no_more : (n : ℕ) → slot_at g n tail ≡ none
        no_more n =
            ap (slot_at g n) tail-erased
            ∙ slot_at-erased g (g.peb_size - log_end - length (slot_image g id extra val)) n

        first :
            parse g (suc g.peb_size) log_end (slot_image g id extra val ++ tail)
            ≡ appended log_end ∷ []
        unfolding parse
        first =
            let size = slot_size_for g (length val) in
            let whole = sym length-slot_image in
            rw
              (
                parse,
                slot_at-slot_image log_end tail fits,
                take-append_self (slot_image g id extra val) tail size whole,
                drop-append_self (slot_image g id extra val) tail size whole,
                parse-none g g.peb_size (log_end + size) tail no_more,
              )
              refl

        one_slot :
            parse g g.peb_size log_end (slot_image g id extra val ++ tail) ≡ appended log_end ∷ []
        one_slot =
            parse-fuel g g.peb_size (suc g.peb_size) log_end (slot_image g id extra val ++ tail)
              (omega arith) (omega arith)
            ∙ first

        log-sector : log g sector ≡ log g buf ++ (appended log_end ∷ [])
        log-sector =
            parse-extend g g.peb_size bucket_data_off buf sector (omega arith) full length-sector
              room before
            ∙ ap (λ l. log g buf ++ l) (ap (parse g g.peb_size log_end) behind ∙ one_slot)

        -- After the append the id is bound to the payload, or to nothing by a tombstone, and every
        -- other id is bound as before.
        pub append-live :
            (j : ℕ)
            → live (log g sector) j ≡ (
                if id == j
                then if is_tombstone (sealed_flags extra) then none else some val
                else live (log g buf) j)
        append-live j =
            ap (λ l. live l j) log-sector
            ∙ ap payload_of (newest-append (log g buf) (appended log_end) j)
            ∙ elim (Bool-cases (id == j)) [
              | inl e ↦ rw (e, payload_of-appended log_end) refl
              | inr e ↦ rw e refl
            ]
