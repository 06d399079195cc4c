-- ===== src/Kvhash/Tests.antt =====
-- Geometries of concrete populations, with a size_t of 32 bits and payloads of 2016 bytes.
use key_value_db.Base.{ℕ, ◌≡◌, refl, some, arith, einval, ok, err, Gives}
use key_value_db.Kvdb.{MapConfig}
use key_value_db.Kvhash.{load_for, want_for, buckets_for, side_from, two_levels, derive_geometry}
use key_value_db.Kvhash.Geometry.{Answer, derive_geometry_lem}

abbrev config : ℕ → ℕ → ℕ → MapConfig
config n typical largest = record {
  expected_entries = n;
  typical_entry_bytes = typical;
  max_entry_bytes = largest;
}

small_map :
    derive_geometry 32 2016 (config 100 0 0) ≡ some (ok record { depth = 1; n_top = 25; n_sub = 0 })
unfolding derive_geometry load_for want_for buckets_for side_from two_levels
small_map = refl

large_map :
    derive_geometry 32 2016 (config 40000 64 200)
    ≡ some (ok record { depth = 2; n_top = 25; n_sub = 25 })
unfolding derive_geometry load_for want_for buckets_for side_from two_levels
large_map = refl

mean_above_largest : derive_geometry 32 2016 (config 100 64 32) ≡ some (err einval)
unfolding derive_geometry load_for want_for buckets_for side_from two_levels
mean_above_largest = refl

-- a population whose bytes wrap a size_t of 32 bits
wrapped :
    derive_geometry 32 2016 (config 1048576 4096 0)
    ≡ some (ok record { depth = 2; n_top = 16; n_sub = 16 })
unfolding derive_geometry load_for want_for buckets_for side_from two_levels
wrapped = refl

derive_geometry_example :
    Gives (derive_geometry 32 2016 (config 40000 64 200)) (Answer 32 2016 (config 40000 64 200))
derive_geometry_example =
    derive_geometry_lem 32 2016 (config 40000 64 200) 200 (omega arith) (omega arith) (omega arith)
      (omega arith) (omega arith) (omega arith) (omega arith)
