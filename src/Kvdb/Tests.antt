-- ===== src/Kvdb/Tests.antt =====
-- A run of kvdb over a store in RAM and a container that creates nothing.
use key_value_db.Base.{
  ℕ, ◌≡◌, refl, ◌⊎◌, none, List, [], ◌∷◌, arith, le_bytes, enoent, enospc, Result, ok, err,
}
use key_value_db.BlobDb.{reference, RefStore, formatted, IsFault}
use key_value_db.Kvdb.{Kvdb, MapOps, build, create_instance, encode_meta, attach}
use key_value_db.Kvdb.Reopen.{create_instance-attach}

abbrev no_map : MapOps RefStore
no_map = record {
  create = λ root cfg s. (ok tt, s);
  set = λ root key val s. (err enospc, s);
  get = λ s root key size. err enoent;
  del = λ root key s. (err enoent, s);
}

abbrev made : Result Kvdb × RefStore
made = create_instance reference no_map 1 7 (b'd' ∷ b'b' ∷ []) none formatted

create_runs : made.0 ≡ ok record { root = 2 }
unfolding create_instance build encode_meta le_bytes
create_runs = refl

create_instance-attach_example :
    ((bs : List ℕ) × (reference.get made.1 7 32 ≡ ok bs)
      × (attach (b'd' ∷ b'b' ∷ []) bs ≡ ok record { root = 2 }))
    ⊎ IsFault (reference.get made.1 7 32)
create_instance-attach_example =
    create_instance-attach reference no_map 1 7 (b'd' ∷ b'b' ∷ []) none formatted
      record { root = 2 } (omega arith) create_runs
