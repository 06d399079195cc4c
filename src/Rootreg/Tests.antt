-- ===== src/Rootreg/Tests.antt =====
-- Runs of the registry over the reference store, and the theorems at them.
use key_value_db.Base.{
  ℕ, ◌≡◌, refl, ◌⊎◌, true, none, some, List, [], ◌∷◌, arith, ◌==◌, if◌then◌else◌, replicate,
  le_bytes, of_le, enomem, eexist, ok, err,
}
use key_value_db.BlobDb.{RefStore, reference, formatted, root_id, IsFault}
use key_value_db.Rootreg.Image.{encode, image_of, image}
use key_value_db.Rootreg.Image.Codec.{image_of-encode}
use key_value_db.Rootreg.{
  Slots, rr_find, rr_load, rr_store, push_entry, drop_entry, rootreg_init, rootreg_get,
  rootreg_get_or_create, rootreg_set, rootreg_unregister,
}
use key_value_db.Rootreg.Map.{lookup}
use key_value_db.Rootreg.Load.{IsRegistry}
use key_value_db.Rootreg.Lookup.{get-lookup}
use key_value_db.Rootreg.Change.{Becomes, FailsOn}
use key_value_db.Rootreg.Set.{set-ok, set-err}
use key_value_db.Rootreg.Create.{Created, create-ok}
use key_value_db.Rootreg.Unregister.{unregister-ok}
use key_value_db.Rootreg.Boot.{init-keeps, init-oversized, init-empty}

abbrev slots : Slots
slots = record { key = 7; root_id = 5 } ∷ record { key = 9; root_id = 6 } ∷ []

abbrev holding : List ℕ → RefStore
holding p = record { cells = (root_id, some p) ∷ []; next = 10; room = 9 }

abbrev store : RefStore
store = holding (encode (image slots))

registry : IsRegistry reference 4 store slots
registry = record {
  bound = refl;
  fits = omega arith;
  entries = omega arith;
  distinct = (refl, (refl, tt));
}

set_runs : (rootreg_set reference 4 3 4 store).0 ≡ ok tt
unfolding rootreg_set rr_load rr_store push_entry image_of encode rr_find le_bytes of_le
set_runs = refl

image_of-encode_example : image_of (encode (image slots)) ≡ image slots
image_of-encode_example = image_of-encode slots (omega arith) (omega arith)

get-lookup_example :
    (rootreg_get reference 4 9 true store ≡ ok 6) ⊎ IsFault (rootreg_get reference 4 9 true store)
get-lookup_example = get-lookup reference 4 (omega arith) store slots 9 registry (omega arith)

set-ok_example :
    (lookup slots 3 ≡ none)
    × Becomes reference 4 store
        (rootreg_set reference 4 3 4 store).1
        (λ j. if 3 == j then some 4 else lookup slots j)
set-ok_example =
    set-ok reference 4 (omega arith) store slots 3 4 registry (omega arith) (omega arith)
      (omega arith) set_runs

set_fails : (rootreg_set reference 4 7 4 store).0 ≡ err eexist
unfolding rootreg_set rr_load rr_store push_entry image_of encode rr_find le_bytes of_le
set_fails = refl

set-err_example :
    FailsOn reference 4 (push_entry (image slots) 7 4) store (rootreg_set reference 4 7 4 store).1
set-err_example =
    set-err reference 4 (omega arith) store slots 7 4 eexist registry (omega arith) (omega arith)
      set_fails

create_runs : (rootreg_get_or_create reference 4 8 true store).0 ≡ ok 10
unfolding rootreg_get_or_create rootreg_get rr_load rr_store push_entry image_of encode rr_find
    le_bytes of_le
create_runs = refl

create-ok_example :
    Created reference 4
      (omega arith)
      store
      slots
      8
      10
      (rootreg_get_or_create reference 4 8 true store).1
create-ok_example =
    create-ok reference 4 (omega arith) store slots 8 10 registry (omega arith) (omega arith)
      create_runs

full : RefStore
full = record { cells = (root_id, some (encode (image slots))) ∷ []; next = 10; room = 0 }

unregister_runs : (rootreg_unregister reference 4 7 store).0 ≡ ok tt
unfolding rootreg_unregister rr_load rr_store drop_entry image_of encode rr_find le_bytes of_le
unregister_runs = refl

unregister-ok_example :
    Becomes reference 4 store
      (rootreg_unregister reference 4 7 store).1
      (λ j. if j == 7 then none else lookup slots j)
unregister-ok_example =
    unregister-ok reference 4 (omega arith) store slots 7 registry (omega arith) unregister_runs

init-keeps_example : (rootreg_init reference 4 (holding (1 ∷ 2 ∷ []))).1 ≡ holding (1 ∷ 2 ∷ [])
init-keeps_example = init-keeps reference 4 (holding (1 ∷ 2 ∷ [])) (λ e. cc)

init_runs : (rootreg_init reference 4 formatted).0 ≡ ok tt
unfolding rootreg_init rr_load rr_store image_of encode le_bytes of_le
init_runs = refl

init-empty_example :
    Becomes reference 4 formatted (rootreg_init reference 4 formatted).1 (λ j. none)
init-empty_example = init-empty reference 4 formatted refl init_runs

init-oversized_example :
    ((rootreg_init reference 4 (holding (replicate 100 0))).0 ≡ err enomem)
    ⊎ IsFault (rootreg_init reference 4 (holding (replicate 100 0))).0
init-oversized_example =
    init-oversized reference 4 (holding (replicate 100 0)) (replicate 100 0) refl (omega arith)
