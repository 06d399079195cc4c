-- ===== src/Iterate/Visit.antt =====
-- The blobs that a visit of a bucket reports, against the log of the bucket.
use key_value_db.Base.{
  ℕ, zero, suc, ◌+◌, ◌≤◌, ◌≡◌, refl, sym, ap, ◌∙◌, inl, inr, true, false, not, Option, none, some,
  List, [], ◌∷◌, ◌++◌, arith, ◌==◌, if◌then◌else◌, Bool-cases, Option-cases, length, take, drop,
  length-append, length-drop, drop-drop, Result, ok, err, Exec, continue, Result-cases,
}
use key_value_db.BucketLog.{
  Geometry, slot_walk_at, kept, bucket_data_off, bucket_image_ends_foreign,
}
use key_value_db.BucketLog.Header.{bucket_hdr_valid}
use key_value_db.BucketLog.Parse.{slot_at-bounds, slot_at-payload}
use key_value_db.BucketLog.Walk.{
  Log, newest, live, keep, parse, Slot-cases, later-newest, none-later,
}
use key_value_db.BucketLog.Compact.{kept-keep}
use key_value_db.BucketLog.Rebuild.{log}
use key_value_db.Iterate.{
  Visitor, count_visitor, for_each_from, for_each_live_slot, count_bucket, count_from, count_impl,
  iterate_bucket, iterate_from, iterate_impl,
}

-- the id and the payload of each slot
abbrev pub bindings : Log → List (ℕ × List ℕ)
bindings [] = []
bindings (a ∷ xs) = (a.sv.id, take a.sv.val_len (drop 12 a.bytes)) ∷ bindings xs

-- the blobs that a bucket holds
abbrev pub blobs : Geometry → List ℕ → List (ℕ × List ℕ)
blobs g buf = bindings (keep (log g buf))

abbrev pub find_blob : ℕ → List (ℕ × List ℕ) → Option (List ℕ)
find_blob j [] = none
find_blob j ((id, p) ∷ xs) = if id == j then some p else find_blob j xs

abbrev pub visit_all : {U : Type 0} → Visitor U → List (ℕ × List ℕ) → Exec U (Unit {0})
visit_all cb [] u = (ok tt, u)
visit_all cb ((id, p) ∷ xs) u = let (r, u') = cb id p u in continue r (λ _. visit_all cb xs) u'

-- The kept slots hold the payload that the log has for an id, and nothing else.
pub find_blob-live :
    (g : Geometry) (xs : Log) (j : ℕ) → find_blob j (bindings (keep xs)) ≡ live xs j
find_blob-live g [] j = refl
find_blob-live g (a ∷ xs) j = elim (Option-cases (newest xs j)) [
  | inl e ↦ ground (arith, find_blob-live g xs j, none-later g xs j e)
  | inr (b, e) ↦ ground (arith, find_blob-live g xs j, later-newest g xs j)
]

-- the rest of a loop, behind a callback that may end it
next_round :
    {U : Type 0} {f h : Exec U (Unit {0})} (r : Result (Unit {0}) × U)
    → ((v : U) → f v ≡ h v)
    → continue r.0 (λ _. f) r.1 ≡ continue r.0 (λ _. h) r.1
next_round (ok tt, v) e = e v
next_round (err c, v) e = refl

continue_assoc :
    {U : Type 0} (f h : Exec U (Unit {0})) (r : Result (Unit {0}) × U)
    → continue r.0 (λ _ v. continue (f v).0 (λ _. h) (f v).1) r.1
      ≡ continue (continue r.0 (λ _. f) r.1).0 (λ _. h) (continue r.0 (λ _. f) r.1).1
continue_assoc f h (ok tt, v) = refl
continue_assoc f h (err c, v) = refl

module _ (g : Geometry) where
  for_each_from-visit :
      {U : Type 0} (cb : Visitor U) (k : ℕ) (buf : List ℕ) (cur : ℕ) (u : U)
      → length buf ≡ g.peb_size
      → g.peb_size ≤ cur + k
      → for_each_from g cb k buf cur u
        ≡ visit_all cb (bindings (keep (parse g k cur (drop cur buf)))) u
  unfolding for_each_from parse slot_walk_at
  for_each_from-visit cb zero buf cur u l h = refl
  for_each_from-visit cb (suc k) buf cur u l h = elim (Slot-cases g cur (drop cur buf)) [
    | inl e ↦ rw (for_each_from, parse, e) refl
    | inr (sv, intact, e) ↦
        let b = slot_at-bounds g cur (drop cur buf) sv intact e in
        let next_off = cur + sv.total_size in
        let c = kept-keep g k buf cur sv intact (omega arith) in
        let p =
          slot_at-payload g cur (drop cur buf) sv intact e (omega (arith, length-drop cur buf)) in
        elim (Bool-cases (kept g buf cur sv intact)) [
          | inr drops ↦
              rw (for_each_from, parse, e, drops, drop-drop sv.total_size cur buf, sym c ∙ drops)
                (for_each_from-visit cb k buf next_off u l (omega arith))
          | inl keeps ↦
              rw
                (
                  for_each_from,
                  parse,
                  e,
                  keeps,
                  drop-drop sv.total_size cur buf,
                  sym c ∙ keeps,
                  p,
                  drop-drop 12 cur buf,
                )
                (next_round (cb sv.id (take sv.val_len (drop (cur + 12) buf)) u)
                  (λ v. for_each_from-visit cb k buf next_off v l (omega arith)))
        ]
  ]

  -- A visit of a bucket reports its blobs, in the order of the log, until the callback ends it.
  pub for_each_live_slot-visit :
      {U : Type 0} (cb : Visitor U) (buf : List ℕ) (u : U)
      → length buf ≡ g.peb_size
      → for_each_live_slot g cb buf u ≡ visit_all cb (blobs g buf) u
  unfolding for_each_live_slot
  for_each_live_slot-visit cb buf u l =
      for_each_from-visit cb g.peb_size buf bucket_data_off u l (omega arith)

-- A visit of a bucket reports a list of blobs, in turn until the callback ends it, and the list
-- holds under each id what the log of the bucket binds it to.
pub for_each_live_slot-live :
    (g : Geometry) (buf : List ℕ)
    → length buf ≡ g.peb_size
    → (bs : List (ℕ × List ℕ)) × ((U : Type 0) (cb : Visitor U) (u : U)
        → for_each_live_slot g cb buf u ≡ visit_all cb bs u)
      × ((j : ℕ) → find_blob j bs ≡ live (log g buf) j)
for_each_live_slot-live g buf l =
    (blobs g buf, (λ U cb u. for_each_live_slot-visit g cb buf u l), find_blob-live g (log g buf))

visit-count :
    (xs : List (ℕ × List ℕ)) (n : ℕ) → visit_all count_visitor xs n ≡ (ok tt, n + length xs)
visit-count [] n = ap (λ (k : ℕ). (ok tt, k)) {x = n} {y = n + 0} (omega arith)
visit-count (x ∷ xs) n =
    visit-count xs (n + 1)
    ∙ ap (λ (k : ℕ). (ok tt, k)) {x = n + 1 + length xs} {y = n + suc (length xs)} (omega arith)

-- the sector of a bucket, where it can be read and is formatted
abbrev pub formatted_sector : Geometry → (ℕ → Result (List ℕ)) → ℕ → Option (List ℕ)
formatted_sector g read_bucket bid = elim (read_bucket bid) [
  | err e ↦ none
  | ok buf ↦ if not (bucket_hdr_valid g buf bid) then none else some buf
]

abbrev pub blobs_of : Geometry → Option (List ℕ) → List (ℕ × List ℕ)
blobs_of g none = []
blobs_of g (some buf) = blobs g buf

-- the blobs of `n` buckets from `bid` on
abbrev pub blobs_from : Geometry → (ℕ → Result (List ℕ)) → ℕ → ℕ → List (ℕ × List ℕ)
blobs_from g read_bucket zero bid = []
blobs_from g read_bucket (suc n) bid =
    blobs_of g (formatted_sector g read_bucket bid) ++ blobs_from g read_bucket n (bid + 1)

visit-append :
    {U : Type 0} (cb : Visitor U) (xs ys : List (ℕ × List ℕ)) (u : U)
    → visit_all cb (xs ++ ys) u
      ≡ continue (visit_all cb xs u).0 (λ _. visit_all cb ys) (visit_all cb xs u).1
visit-append cb [] ys u = refl
visit-append cb (x ∷ xs) ys u =
    next_round (cb x.0 x.1 u) (visit-append cb xs ys)
    ∙ continue_assoc (visit_all cb xs) (visit_all cb ys) (cb x.0 x.1 u)

module _ (g : Geometry) (read_bucket : ℕ → Result (List ℕ))
    (whole : (bid : ℕ) (buf : List ℕ) → read_bucket bid ≡ ok buf → length buf ≡ g.peb_size) where
  count_bucket_lem :
      (bid total : ℕ)
      → count_bucket g read_bucket bid total
        ≡ total + length (blobs_of g (formatted_sector g read_bucket bid))
  unfolding count_bucket
  count_bucket_lem bid total = elim (Result-cases (read_bucket bid)) [
    | inr (c, e) ↦ rw (count_bucket, formatted_sector, e) (omega arith)
    | inl (buf, e) ↦ elim (Bool-cases (bucket_hdr_valid g buf bid)) [
      | inr v ↦ rw (count_bucket, formatted_sector, e, v) (omega arith)
      | inl v ↦
          rw (count_bucket, formatted_sector, e, v)
            (ap (λ r. r.1)
              (for_each_live_slot-visit g count_visitor buf total (whole bid buf e)
                ∙ visit-count (blobs g buf) total))
    ]
  ]

  count_from_lem :
      (n bid total : ℕ)
      → count_from g read_bucket n bid total ≡ total + length (blobs_from g read_bucket n bid)
  unfolding count_from
  count_from_lem zero bid total = omega arith
  count_from_lem (suc n) bid total = omega (
    arith,
    count_from_lem n (bid + 1) (count_bucket g read_bucket bid total),
    count_bucket_lem bid total,
    length-append (blobs_of g (formatted_sector g read_bucket bid))
        (blobs_from g read_bucket n (bid + 1)),
  )

  -- On a mounted store, the count is the number of the blobs of the formatted buckets.
  pub count_impl-blobs :
      (n_buckets : ℕ)
      → count_impl g read_bucket true n_buckets ≡ length (blobs_from g read_bucket n_buckets 0)
  unfolding count_impl
  count_impl-blobs n_buckets = omega (arith, count_from_lem n_buckets 0 0)

  module _
      (known : (bid : ℕ) (buf : List ℕ)
        → read_bucket bid ≡ ok buf
        → bucket_image_ends_foreign g buf ≡ false) where
    iterate_bucket_lem :
        {U : Type 0} (cb : Visitor U) (bid : ℕ) (u : U)
        → iterate_bucket g read_bucket cb bid u
          ≡ visit_all cb (blobs_of g (formatted_sector g read_bucket bid)) u
    unfolding iterate_bucket
    iterate_bucket_lem cb bid u = elim (Result-cases (read_bucket bid)) [
      | inr (c, e) ↦ rw (iterate_bucket, formatted_sector, e) refl
      | inl (buf, e) ↦ elim (Bool-cases (bucket_hdr_valid g buf bid)) [
        | inr v ↦ rw (iterate_bucket, formatted_sector, e, v) refl
        | inl v ↦
            rw (iterate_bucket, formatted_sector, e, v, known bid buf e)
              (for_each_live_slot-visit g cb buf u (whole bid buf e))
      ]
    ]

    iterate_from_lem :
        {U : Type 0} (cb : Visitor U) (n bid : ℕ) (u : U)
        → iterate_from g read_bucket cb n bid u ≡ visit_all cb (blobs_from g read_bucket n bid) u
    unfolding iterate_from
    iterate_from_lem cb zero bid u = refl
    iterate_from_lem cb (suc n) bid u =
        let here = blobs_of g (formatted_sector g read_bucket bid) in
        let rest = blobs_from g read_bucket n (bid + 1) in
        ap (λ r. continue r.0 (λ _. iterate_from g read_bucket cb n (bid + 1)) r.1)
          (iterate_bucket_lem cb bid u)
        ∙ next_round (visit_all cb here u) (iterate_from_lem cb n (bid + 1))
        ∙ sym (visit-append cb here rest u)

    -- On a mounted store in which no bucket that can be read ends at a foreign slot, iterating
    -- reports the blobs of the formatted buckets in order, until the callback ends it. A bucket whose
    -- read fails is passed over.
    pub iterate_impl-blobs :
        {U : Type 0} (cb : Visitor U) (n_buckets : ℕ) (u : U)
        → iterate_impl g read_bucket true n_buckets (some cb) u
          ≡ visit_all cb (blobs_from g read_bucket n_buckets 0) u
    unfolding iterate_impl
    iterate_impl-blobs cb n_buckets u = iterate_from_lem cb n_buckets 0 u
