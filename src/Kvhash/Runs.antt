-- ===== src/Kvhash/Runs.antt =====
-- Runs of kvhash.c over a store in RAM: a flat map of two buckets, one of them in use.
use key_value_db.Base.{
  ℕ, ◌+◌, ◌%◌, ◌^◌, ◌≡◌, refl, if◌then◌else◌, ◌⊎◌, inl, inr, true, false, some, List, [], ◌∷◌,
  arith, replicate, le_bytes, of_le, Result, ok,
}
use key_value_db.BlobDb.{reference, reference_reads, RefStore, IsFault}
use key_value_db.Kvhash.Bucket.{bkt_entry, entry_image}
use key_value_db.Kvhash.Walk.{packed}
use key_value_db.Kvhash.Dir.{
  Leaf, dir_format, dir_set_child, check_dir, dir_load_raw, dir_load, resolve_leaf,
}
use key_value_db.Kvhash.Find.{visits_from, visits, memcmp, is_hit, find_in, bkt_find}
use key_value_db.Kvhash.Replace.{cut_entry}
use key_value_db.Kvhash.Lookup
use key_value_db.Kvhash.Hit.{Binding, key_eq}
use key_value_db.Kvhash.Lookup.{entries, answer, IsBucket}
use key_value_db.Kvhash.Get.{kvhash_get-lookup}
use key_value_db.Kvhash.Ops.{fresh_id, release_part, kvhash_get}
use key_value_db.Kvhash.Set.{
  image_with, bind_blob, bind_key, bind_val, commit_bucket, release_old, set_bound, set_entry_in,
  set_over, set_in, fresh_for, kvhash_set,
}
use key_value_db.Kvhash.Commit.{Sound}
use key_value_db.Kvhash.InPlace.{SetDone}
use key_value_db.Kvhash.SetOk.{kvhash_set-ok}
use key_value_db.Kvhash.SetGet.{Clear, kvhash_get-kvhash_set}
use key_value_db.Kvhash.Destroy.{
  kvhash_destroy, stamped, release_ids, release_bucket, release_buckets, release_all,
}

-- a checksum of 32 bits
abbrev pub sum32 : List ℕ → ℕ
sum32 [] = 0
sum32 (b ∷ bs) = (b + sum32 bs) % 2 ^ 32

abbrev short_value : Binding
short_value = record {
  entry = record {
    klen = 1;
    vlen = 2;
    kspill = false;
    vspill = false;
    kpart = 65 ∷ [];
    vpart = 8 ∷ 9 ∷ [];
  };
  key = 65 ∷ [];
  val = 8 ∷ 9 ∷ [];
  kid = 0;
  vid = 0;
}

abbrev spilled_value : Binding
spilled_value = record {
  entry = record {
    klen = 1;
    vlen = 3;
    kspill = false;
    vspill = true;
    kpart = 67 ∷ [];
    vpart = le_bytes 8 7;
  };
  key = 67 ∷ [];
  val = 1 ∷ 2 ∷ 3 ∷ [];
  kid = 0;
  vid = 7;
}

abbrev pub bindings : List Binding
bindings = short_value ∷ spilled_value ∷ []

abbrev pub dir : List ℕ
dir = dir_set_child (dir_format 2 1) 1 6

-- with `room` more writes
abbrev pub store : ℕ → RefStore
store room = record {
  cells = (5, some dir) ∷ (6, some (packed (entries bindings))) ∷ (7, some (1 ∷ 2 ∷ 3 ∷ [])) ∷ [];
  next = 8;
  room = room;
}

abbrev pub leaf : Leaf
leaf = record { root = 5; dir = record { bytes = dir; n = 2; depth = 1; dying = false }; idx = 1 }

pub in_bucket : IsBucket reference reference_reads sum32 64 (store 9) 5 (67 ∷ []) leaf bindings
unfolding resolve_leaf dir_load dir_load_raw check_dir dir_format dir_set_child packed entry_image
    le_bytes of_le
in_bucket = record {
  resolved = refl;
  named = omega arith;
  bound = refl;
  short = omega arith;
  holds = (
    record {
      fits = (omega arith, omega arith, refl, refl);
      klen = refl;
      vlen = refl;
      key_at = refl;
      val_at = refl;
    },
    (
      record {
        fits = (omega arith, omega arith, refl, refl);
        klen = refl;
        vlen = refl;
        key_at = refl;
        val_at = (omega arith, omega arith, refl, refl);
      },
      tt,
    ),
  );
}

kvhash_get-lookup_example :
    (kvhash_get reference reference_reads sum32 64 (store 9) 5 (some (67 ∷ [])) 16
      ≡ answer (Lookup.lookup bindings (67 ∷ [])) 16)
    ⊎ IsFault (kvhash_get reference reference_reads sum32 64 (store 9) 5 (some (67 ∷ [])) 16)
kvhash_get-lookup_example =
    kvhash_get-lookup reference reference_reads sum32 64 (store 9) 5 16 (67 ∷ []) leaf bindings
      (omega arith, omega arith) in_bucket

-- a value of 30 bytes in a blob, in a store with room for that write only
abbrev full_set : Result (Unit {0}) × RefStore
full_set =
    kvhash_set reference reference_reads sum32 64 16 20 5 (some (65 ∷ [])) (some (replicate 30 4))
      (store 1)

resolved_by : resolve_leaf reference 64 (store 9) 5 (sum32 (65 ∷ [])) ≡ ok leaf
unfolding resolve_leaf dir_load dir_load_raw check_dir dir_format dir_set_child le_bytes of_le
resolved_by = refl

pub bound_bucket : Sound reference reference_reads sum32 64 (store 9) 6 bindings
unfolding memcmp packed entry_image le_bytes
bound_bucket = record {
  issued = omega arith;
  own = (
    record { kid = inl refl; vid = inl refl; apart = inl refl },
    (record { kid = inl refl; vid = inr (omega arith, omega arith); apart = inl refl }, tt),
  );
  separate = (
    (
      record {
        keys = (refl, refl);
        kids = inl refl;
        vids = inl refl;
        kid_vid = inl refl;
        vid_kid = inl refl;
      },
      tt,
    ),
    (tt, tt),
  );
  holds = in_bucket.holds;
  bound = refl;
  short = omega arith;
}

-- the same with room for the writes
abbrev set_done : Result (Unit {0}) × RefStore
set_done =
    kvhash_set reference reference_reads sum32 64 16 20 5 (some (65 ∷ [])) (some (replicate 30 4))
      (store 9)

set_succeeds : set_done.0 ≡ ok tt
unfolding kvhash_set set_in fresh_for bkt_find find_in is_hit visits visits_from bkt_entry memcmp
    set_over set_entry_in bind_blob bind_key set_bound bind_val commit_bucket fresh_id release_part
    release_old image_with cut_entry resolve_leaf dir_load dir_load_raw check_dir dir_format
    dir_set_child packed entry_image le_bytes of_le
set_succeeds = refl

kvhash_set-ok_example :
    SetDone reference reference_reads sum32 64
      (store 9)
      set_done.1
      6
      bindings
      (65 ∷ [])
      (replicate 30 4)
unfolding dir_format dir_set_child le_bytes of_le
kvhash_set-ok_example =
    kvhash_set-ok reference reference_reads sum32 64 16 20 5 (65 ∷ []) (replicate 30 4) (store 9)
      leaf bindings resolved_by in_bucket.named bound_bucket set_succeeds (λ w. w)

Clear-store : Clear reference reference_reads sum32 64 (store 9) 6 bindings 5
Clear-store = record {
  real = omega arith;
  issued = omega arith;
  apart = omega arith;
  spares = ((omega arith, omega arith), ((omega arith, omega arith), tt));
}

kvhash_get-kvhash_set_example :
    (kvhash_get reference reference_reads sum32 64 set_done.1 5 (some (67 ∷ [])) 16
      ≡ answer
          (if key_eq (65 ∷ []) (67 ∷ [])
            then some (replicate 30 4)
            else Lookup.lookup bindings (67 ∷ []))
          16)
    ⊎ IsFault (kvhash_get reference reference_reads sum32 64 set_done.1 5 (some (67 ∷ [])) 16)
unfolding dir_format dir_set_child le_bytes of_le
kvhash_get-kvhash_set_example =
    kvhash_get-kvhash_set reference reference_reads sum32 64 16 20 5 16 (65 ∷ []) (replicate 30 4)
      (67 ∷ []) (store 9) leaf bindings resolved_by in_bucket.resolved in_bucket.named bound_bucket
      Clear-store Clear-store (omega arith, omega arith) set_succeeds (λ w. w)

destroyed : (kvhash_destroy reference 64 5 (store 9)).0 ≡ ok tt
unfolding kvhash_destroy dir_load_raw check_dir stamped release_all release_buckets release_bucket
    release_ids visits visits_from bkt_entry dir_format dir_set_child packed entry_image le_bytes
    of_le
destroyed = refl
