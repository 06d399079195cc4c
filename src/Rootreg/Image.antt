-- ===== src/Rootreg/Image.antt =====
-- The registry image of lib/rootreg/rootreg.c, in RAM and as the bytes bound to id 1.
pub mod Codec
use key_value_db.Base.{
  ℕ, zero, suc, ◌+◌, ◌-◌, ◌*◌, ◌/◌, ◌%◌, ◌^◌, ◌≤◌, ◌<◌, min, ◌≡◌, refl, sym, ap, ap₂, ◌∙◌, ◌≢◌, ◌↔◌,
  ◌⊎◌, inl, inr, Bool, true, false, not, ◌&&◌, ◌||◌, Option, none, some, List, [], ◌∷◌, ◌++◌, map,
  arith, ltb, leb, ◌==◌, if◌then◌else◌, ltb→lt, ltb→le, leb→le, ==_iff, ==_refl, Bool-cases,
  Option-cases, length, get_or, set, take, drop, replicate, All, length-append, length-set,
  length-take, length-drop, length-replicate, get_or-set_self, get_or-set_ne, take-append_self,
  drop-append_self, take_self, values, le_bytes, of_le, int_at, length-le_bytes, of_le-le_bytes,
  int_at-le_bytes, Errno, enoent, eio, enomem, eexist, einval, enospc, enotsup, enodev, emsgsize,
  estale, enodata, code, Result, ok, err, is_enoent, is_enospc, Exec, continue, ◌>>=◌, ◌>>◌, return,
  fail, lift, Result-cases,
}

-- struct rr_entry
pub record Entry : Type 0 where
  pub key : ℕ
  pub root_id : ℕ

-- struct rr_image. `e` holds the slots of the array that have been filled.
pub record Image : Type 0 where
  pub magic : List ℕ
  pub version : ℕ
  pub count : ℕ
  pub e : List Entry

abbrev pub rr_magic : List ℕ
rr_magic = b'R' ∷ b'R' ∷ b'E' ∷ b'G' ∷ []

abbrev pub rr_version : ℕ
rr_version = 1

abbrev pub header_len : ℕ
header_len = 8

abbrev pub entry_len : ℕ
entry_len = 16

-- RR_IMAGE_MAX
abbrev pub image_max : ℕ → ℕ
image_max max_roots = header_len + max_roots * entry_len

encode_entry : Entry → List ℕ
encode_entry x = le_bytes 8 x.key ++ le_bytes 8 x.root_id

pub encode_entries : List Entry → List ℕ
unfolding encode_entry
encode_entries [] = []
encode_entries (x ∷ xs) = encode_entry x ++ encode_entries xs

-- the first 8 + 16 * count bytes of the struct
unfoldable pub encode : Image → List ℕ
unfolding encode_entries
encode img =
    img.magic
    ++ (le_bytes 2 img.version ++ (le_bytes 2 img.count ++ encode_entries (take img.count img.e)))

decode_entry : List ℕ → Entry
decode_entry bs = record { key = int_at 8 bs 0; root_id = int_at 8 bs 8 }

pub decode_entries : ℕ → List ℕ → List Entry
unfolding decode_entry
decode_entries zero bs = []
decode_entries (suc n) bs = decode_entry bs ∷ decode_entries n (drop entry_len bs)

-- The struct that `blob_db_get` has filled from these bytes.
unfoldable pub image_of : List ℕ → Image
unfolding decode_entries
image_of bs = record {
  magic = take 4 bs;
  version = int_at 2 bs 4;
  count = int_at 2 bs 6;
  e = decode_entries (int_at 2 bs 6) (drop header_len bs);
}

-- memcmp(a, b, n) == 0, over the n bytes of each
unfoldable pub bytes_eq : List ℕ → List ℕ → Bool
bytes_eq [] [] = true
bytes_eq (x ∷ xs) (y ∷ ys) = x == y && bytes_eq xs ys
bytes_eq _ _ = false

-- The image of a registry that holds these entries.
abbrev pub image : List Entry → Image
image es = record { magic = rr_magic; version = rr_version; count = length es; e = es }

-- uint64_t fields
abbrev pub IsEntry : Entry → Type 0
IsEntry x = (x.key < values 8) × (x.root_id < values 8)
