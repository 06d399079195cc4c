-- ===== src/Kvhash/Walks.antt =====
-- More runs of kvhash.c over the map of Runs: its keys in their order, their number, and a delete.
use key_value_db.Base.{
  ℕ, ◌%◌, ◌^◌, ◌≡◌, refl, inl, inr, true, some, List, [], ◌∷◌, arith, le_bytes, of_le, enodata,
  Result, ok, err,
}
use key_value_db.BlobDb.{RefStore, reference, reference_reads}
use key_value_db.Kvhash.Bucket.{bkt_entry, entry_image}
use key_value_db.Kvhash.Walk.{packed}
use key_value_db.Kvhash.Dir.{dir_format, dir_set_child, check_dir, dir_load_raw, dir_load}
use key_value_db.Kvhash.Find.{visits_from, visits, memcmp, key_cmp_bytes, key_chunk, ent_value}
use key_value_db.Kvhash.Lookup.{entries}
use key_value_db.Kvhash.Next.{okey_cmp, first_in, bkt_first_after, leaf_first_after, kvhash_next}
use key_value_db.Kvhash.Count.{kvhash_count}
use key_value_db.Kvhash.Counted.{in_maps, Adds, kvhash_count-in_maps}
use key_value_db.Kvhash.Replace.{cut_entry}
use key_value_db.Kvhash.Dir.{resolve_leaf}
use key_value_db.Kvhash.Find.{is_hit, find_in, bkt_find}
use key_value_db.Kvhash.Ops.{release_part, locate, del_at, kvhash_del}
use key_value_db.Kvhash.DelOk.{DelDone, kvhash_del-ok}
use key_value_db.Kvhash.Runs.{sum32, bindings, store, leaf, in_bucket, bound_bucket}

abbrev next_of : List ℕ → Result (List ℕ × List ℕ)
next_of key =
    kvhash_next reference reference_reads sum32 64 (store 9) 5 (some key) (some 8) (some 16)

first_key : next_of [] ≡ ok (65 ∷ [], 8 ∷ 9 ∷ [])
unfolding kvhash_next dir_load dir_load_raw check_dir leaf_first_after bkt_first_after first_in
    okey_cmp visits visits_from bkt_entry key_chunk ent_value dir_format dir_set_child packed
    entry_image le_bytes of_le
first_key = refl

next_key : next_of (65 ∷ []) ≡ ok (67 ∷ [], 1 ∷ 2 ∷ 3 ∷ [])
unfolding kvhash_next dir_load dir_load_raw check_dir leaf_first_after bkt_first_after first_in
    okey_cmp visits visits_from bkt_entry key_chunk ent_value dir_format dir_set_child packed
    entry_image le_bytes of_le key_cmp_bytes memcmp
next_key = refl

last_key : next_of (67 ∷ []) ≡ err enodata
unfolding kvhash_next dir_load dir_load_raw check_dir leaf_first_after bkt_first_after first_in
    okey_cmp visits visits_from bkt_entry key_chunk ent_value dir_format dir_set_child packed
    entry_image le_bytes of_le key_cmp_bytes memcmp
last_key = refl

kvhash_count-in_maps_example :
    Adds reference 64
      (kvhash_count reference 64 (store 9) 5 true)
      (in_maps (([] ∷ entries bindings ∷ []) ∷ []) % 2 ^ 32)
unfolding dir_load dir_load_raw check_dir dir_format dir_set_child packed entry_image le_bytes of_le
kvhash_count-in_maps_example =
    kvhash_count-in_maps reference 64 (store 9) 5 (([] ∷ entries bindings ∷ []) ∷ []) (
      inl (
        [] ∷ entries bindings ∷ [],
        refl,
        record {
          dir = leaf.dir;
          loaded = refl;
          depth = refl;
          n = refl;
          held = (
            inl (refl, refl),
            (
              inr (
                omega arith,
                refl,
                omega arith,
                (
                  (omega arith, omega arith, refl, refl),
                  ((omega arith, omega arith, refl, refl), tt),
                ),
              ),
              tt,
            ),
          );
        },
      ))

-- the key with the spilled value
abbrev del_done : Result (Unit {0}) × RefStore
del_done = kvhash_del reference reference_reads sum32 64 5 (some (67 ∷ [])) (store 9)

del_succeeds : del_done.0 ≡ ok tt
unfolding kvhash_del locate del_at bkt_find find_in is_hit visits visits_from bkt_entry memcmp
    release_part cut_entry resolve_leaf dir_load dir_load_raw check_dir dir_format dir_set_child
    packed entry_image le_bytes of_le
del_succeeds = refl

kvhash_del-ok_example :
    DelDone reference reference_reads sum32 64 (store 9) del_done.1 6 bindings (67 ∷ [])
unfolding dir_format dir_set_child le_bytes of_le
kvhash_del-ok_example =
    kvhash_del-ok reference reference_reads sum32 64 (store 9) 5 (67 ∷ []) leaf bindings
      (omega arith, omega arith) in_bucket.resolved in_bucket.named bound_bucket del_succeeds
      (λ w. w)
