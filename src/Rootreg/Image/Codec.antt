-- ===== src/Rootreg/Image/Codec.antt =====
-- What rr_load reads is what rr_store wrote: the bytes of an image decode to it.
use key_value_db.Base.{
  ℕ, ◌+◌, ◌*◌, ◌<◌, ◌≡◌, refl, sym, ap₂, List, [], ◌∷◌, ◌++◌, arith, length, drop, All,
  length-append, drop-append_self, take_self, values, le_bytes, length-le_bytes, of_le-le_bytes,
  take-le_bytes, drop-le_bytes,
}
use mathlib.Core.List.{append_assoc}
use key_value_db.Rootreg.Image.{
  Entry, rr_version, header_len, entry_len, encode_entry, encode_entries, encode, decode_entry,
  decode_entries, image_of, image, IsEntry,
}

length-encode_entry : (x : Entry) → length (encode_entry x) ≡ entry_len
unfolding encode_entry
length-encode_entry x = omega (
  arith,
  length-append (le_bytes 8 x.key) (le_bytes 8 x.root_id),
  length-le_bytes 8 x.key,
  length-le_bytes 8 x.root_id,
)

pub length-encode_entries : (xs : List Entry) → length (encode_entries xs) ≡ length xs * entry_len
unfolding encode_entries
length-encode_entries [] = refl
length-encode_entries (x ∷ xs) = omega (
  arith,
  length-append (encode_entry x) (encode_entries xs),
  length-encode_entry x,
  length-encode_entries xs,
)

decode_entry-encode_entry :
    (x : Entry) (rest : List ℕ) → IsEntry x → decode_entry (encode_entry x ++ rest) ≡ x
unfolding decode_entry encode_entry
decode_entry-encode_entry x rest h =
    ap₂ (λ k r. record { key = k; root_id = r })
      (rw (append_assoc (le_bytes 8 x.key) (le_bytes 8 x.root_id) rest, take-le_bytes 8)
        (of_le-le_bytes 8 x.key h.0))
      (rw
        (
          append_assoc (le_bytes 8 x.key) (le_bytes 8 x.root_id) rest,
          drop-le_bytes 8,
          take-le_bytes 8,
        )
        (of_le-le_bytes 8 x.root_id h.1))

pub decode_entries-encode_entries :
    (xs : List Entry) → All IsEntry xs → decode_entries (length xs) (encode_entries xs) ≡ xs
unfolding decode_entries encode_entries
decode_entries-encode_entries [] h = refl
decode_entries-encode_entries (x ∷ xs) h =
    ap₂ ◌∷◌ (decode_entry-encode_entry x (encode_entries xs) h.0) (
      rw
        (drop-append_self (encode_entry x) (encode_entries xs) entry_len
          (sym (length-encode_entry x)))
        (decode_entries-encode_entries xs h.1))

drop-header : (a b : ℕ) (rest : List ℕ) → drop 4 (le_bytes 2 a ++ (le_bytes 2 b ++ rest)) ≡ rest
unfolding le_bytes
drop-header a b rest = refl

-- The image that is read back is the one that was written.
pub image_of-encode :
    (es : List Entry)
    → All IsEntry es
    → length es < values 2
    → image_of (encode (image es)) ≡ image es
unfolding image_of encode
image_of-encode es h fits = rw (
  take-le_bytes 2,
  drop-le_bytes 2,
  take-le_bytes 2,
  drop-header,
  of_le-le_bytes 2 rr_version (omega arith),
  of_le-le_bytes 2 (length es) fits,
  take_self es (length es) (omega arith),
  decode_entries-encode_entries es h,
)

pub length-encode :
    (es : List Entry) → length (encode (image es)) ≡ header_len + length es * entry_len
unfolding encode
length-encode es = rw (take_self es (length es) (omega arith)) (
    omega (
      arith,
      length-append (le_bytes 2 rr_version) (le_bytes 2 (length es) ++ encode_entries es),
      length-append (le_bytes 2 (length es)) (encode_entries es),
      length-le_bytes 2 rr_version,
      length-le_bytes 2 (length es),
      length-encode_entries es,
    ))
