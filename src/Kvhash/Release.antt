-- ===== src/Kvhash/Release.antt =====
-- kvhash_destroy: what is released, and what a reader finds of the map afterwards.
use key_value_db.Base.{
  ℕ, zero, suc, ◌≡◌, refl, ◌∙◌, ◌⊎◌, inl, inr, Option, none, some, List, [], ◌∷◌, arith, leb, ◌==◌,
  ==_refl, Bool-cases, Errno, Result, ok, err, Result-cases,
}
use key_value_db.BlobDb.{BlobDb}
use key_value_db.Kvhash.Dir.{Dir, dir_child, dir_load_raw}
use key_value_db.Kvhash.Find.{visits}
use key_value_db.Kvhash.Destroy.{
  first_err, spilled_ids, release_id, release_ids, release_rest, release_read, release_bucket,
  release_buckets, release_sub_dir, release_child, release_subs, release_all, release_root,
  destroy_committed,
}

module _ (db : BlobDb) (max_payload : ℕ) where
  open db use {
    Store, view, get, update, delete, get_reply, update_ok, update_err, delete_ok, delete_err,
  }

  -- every id is bound as before, or gone
  abbrev pub Fewer : Store → Store → Type 0
  Fewer s s' = (j : ℕ) → (view s' j ≡ view s j) ⊎ (view s' j ≡ none)

  Fewer-trans : (s s' s'' : Store) → Fewer s s' → Fewer s' s'' → Fewer s s''
  Fewer-trans s s' s'' f g j = elim (g j) [
    | inr gone ↦ inr gone
    | inl same ↦ elim (f j) [ inr gone ↦ inr (same ∙ gone) | inl before ↦ inl (same ∙ before) ]
  ]

  Fewer-refl : (s : Store) → Fewer s s
  Fewer-refl s j = inl refl

  delete-Fewer : (id : ℕ) (s : Store) → Fewer s (delete id s).1
  delete-Fewer id s j = elim (Result-cases (delete id s).0) [
    | inl (tt, e) ↦ elim (Bool-cases (j == id)) [
      | inl same ↦ inr (delete_ok id s e j ∙ ground arith)
      | inr other ↦ inl (delete_ok id s e j ∙ ground arith)
    ]
    | inr (x, e) ↦ elim (delete_err id s x e j) [
      | inl (inl same) ↦ inl same
      | inl (inr (lost, wedged)) ↦ inr lost
      | inr (same, landed) ↦ inr landed
    ]
  ]

  release_id-Fewer : (id : ℕ) (s : Store) → Fewer s (release_id db max_payload id s).1
  release_id-Fewer id s = elim (Bool-cases (id == 0)) [
    | inl nothing ↦ rw nothing (Fewer-refl s)
    | inr real ↦ rw real (delete-Fewer id s)
  ]

  release_ids-Fewer :
      (ids : List ℕ) (first : Option Errno) (s : Store)
      → Fewer s (release_ids db max_payload ids first s).1
  unfolding release_ids
  release_ids-Fewer [] first s = Fewer-refl s
  release_ids-Fewer (id ∷ ids) first s =
      let out = release_id db max_payload id s in
      Fewer-trans s out.1 (release_ids db max_payload ids (first_err first out.0) out.1).1
        (release_id-Fewer id s) (release_ids-Fewer ids (first_err first out.0) out.1)

  release_rest-Fewer :
      (bid : ℕ) (e : Option Errno) (s : Store) → Fewer s (release_rest db max_payload bid e s).1
  release_rest-Fewer bid (some e) s = Fewer-refl s
  release_rest-Fewer bid none s = delete-Fewer bid s

  release_read-Fewer :
      (bid : ℕ) (r : Result (List ℕ)) (s : Store) → Fewer s (release_read db max_payload bid r s).1
  release_read-Fewer bid (err e) s = Fewer-refl s
  release_read-Fewer bid (ok buf) s =
      let out = release_ids db max_payload (spilled_ids buf (visits buf)) none s in
      Fewer-trans s out.1 (release_rest db max_payload bid out.0 out.1).1
        (release_ids-Fewer (spilled_ids buf (visits buf)) none s)
        (release_rest-Fewer bid out.0 out.1)

  release_bucket-Fewer : (bid : ℕ) (s : Store) → Fewer s (release_bucket db max_payload bid s).1
  unfolding release_bucket
  release_bucket-Fewer bid s = elim (Bool-cases (bid == 0)) [
    | inl nothing ↦ rw nothing (Fewer-refl s)
    | inr real ↦ rw real (release_read-Fewer bid (get s bid max_payload) s)
  ]

  release_buckets-Fewer :
      (k i : ℕ) (dir : List ℕ) (first : Option Errno) (s : Store)
      → Fewer s (release_buckets db max_payload k i dir first s).1
  unfolding release_buckets
  release_buckets-Fewer zero i dir first s = Fewer-refl s
  release_buckets-Fewer (suc k) i dir first s =
      let out = release_bucket db max_payload (dir_child dir i) s in
      Fewer-trans s out.1
        (release_buckets db max_payload k (suc i) dir (first_err first out.0) out.1).1
        (release_bucket-Fewer (dir_child dir i) s)
        (release_buckets-Fewer k (suc i) dir (first_err first out.0) out.1)

  release_sub_dir-Fewer :
      (sub : ℕ) (r : Result Dir) (s : Store) → Fewer s (release_sub_dir db max_payload sub r s).1
  release_sub_dir-Fewer sub (err e) s = Fewer-refl s
  release_sub_dir-Fewer sub (ok d) s =
      let out = release_buckets db max_payload d.n 0 d.bytes none s in
      Fewer-trans s out.1 (release_rest db max_payload sub out.0 out.1).1
        (release_buckets-Fewer d.n 0 d.bytes none s) (release_rest-Fewer sub out.0 out.1)

  release_child-Fewer :
      (i : ℕ) (r : Result Dir) (s : Store) → Fewer s (release_child db max_payload i r s).1
  release_child-Fewer i (err e) s = Fewer-refl s
  release_child-Fewer i (ok top) s =
      let sub = dir_child top.bytes i in
      elim (Bool-cases (leb top.n i)) [
        | inl past ↦ rw past (Fewer-refl s)
        | inr within ↦ elim (Bool-cases (sub == 0)) [
          | inl nothing ↦ rw (within, nothing) (Fewer-refl s)
          | inr real ↦
              rw (within, real) (release_sub_dir-Fewer sub (dir_load_raw db max_payload s sub) s)
        ]
      ]

  release_subs-Fewer :
      (root k i : ℕ) (first : Option Errno) (s : Store)
      → Fewer s (release_subs db max_payload root k i first s).1
  unfolding release_subs
  release_subs-Fewer root zero i first s = Fewer-refl s
  release_subs-Fewer root (suc k) i first s =
      let out = release_child db max_payload i (dir_load_raw db max_payload s root) s in
      Fewer-trans s out.1
        (release_subs db max_payload root k (suc i) (first_err first out.0) out.1).1
        (release_child-Fewer i (dir_load_raw db max_payload s root) s)
        (release_subs-Fewer root k (suc i) (first_err first out.0) out.1)

  release_all-Fewer :
      (root : ℕ) (d : Dir) (s : Store) → Fewer s (release_all db max_payload root d s).1
  unfolding release_all
  release_all-Fewer root d s = elim (Bool-cases (d.depth == 1)) [
    | inl flat ↦ rw flat (release_buckets-Fewer d.n 0 d.bytes none s)
    | inr deep ↦ rw deep (release_subs-Fewer root d.n 0 none s)
  ]

  release_root-Fewer :
      (root : ℕ) (e : Option Errno) (s : Store)
      → Fewer s (release_root db max_payload root (e, s)).1
  release_root-Fewer root (some e) s = Fewer-refl s
  release_root-Fewer root none s = delete-Fewer root s

  -- with the map out of view
  pub destroy_committed-Fewer :
      (root : ℕ) (d : Dir) (s : Store) → Fewer s (destroy_committed db max_payload root d s).1
  destroy_committed-Fewer root d s =
      let out = release_all db max_payload root d s in
      Fewer-trans s out.1 (release_root db max_payload root out).1 (release_all-Fewer root d s)
        (release_root-Fewer root out.0 out.1)

  release_root-ok :
      (root : ℕ) (e : Option Errno) (s : Store)
      → (release_root db max_payload root (e, s)).0 ≡ ok tt
      → view (release_root db max_payload root (e, s)).1 root ≡ none
  release_root-ok root (some e) s done = absurd (cc)
  release_root-ok root none s done = delete_ok root s done root ∙ ground (arith, ==_refl root)

  pub destroy_committed-ok :
      (root : ℕ) (d : Dir) (s : Store)
      → (destroy_committed db max_payload root d s).0 ≡ ok tt
      → view (destroy_committed db max_payload root d s).1 root ≡ none
  destroy_committed-ok root d s done =
      let out = release_all db max_payload root d s in release_root-ok root out.0 out.1 done
