-- ===== src/Kvhash/Atomic.antt =====
-- What a call of kvhash.c leaves alone: the blobs of the ids that were issued before it. `c` is the
-- ceiling at its start.
use key_value_db.Base.{
  ℕ, ◌≤◌, ◌<◌, ◌≡◌, refl, sym, ◌∙◌, ◌⊎◌, inl, inr, Option, some, List, arith, ◌==◌, Bool-cases,
  Errno, Result, ok, err, Exec, ◌>>=◌, ◌>>◌, return, Result-cases,
}
use mathlib.Core.Path.{subst}
use key_value_db.BlobDb.{BlobDb, Stays}
use key_value_db.Kvhash.Ops.{on_error, finally, fresh_id, release_part}

-- the first change, and then the second
pub Stays-trans :
    (w w' : Type 0) (o o' o'' : Option (List ℕ))
    → (w → w')
    → Stays w o o'
    → Stays w' o' o''
    → Stays w' o o''
Stays-trans w w' o o' o'' keep first (inr lost) = inr lost
Stays-trans w w' o o' o'' keep (inl same) (inl same') = inl (same' ∙ same)
Stays-trans w w' o o' o'' keep (inr (lost, wedged)) (inl same') = inr (same' ∙ lost, keep wedged)

pub Stays-same : (w : Type 0) (o o' : Option (List ℕ)) → ¬ w → Stays w o o' → o' ≡ o
Stays-same w o o' sane (inl same) = same
Stays-same w o o' sane (inr (lost, wedged)) = absurd (sane wedged)

module _ (db : BlobDb) (c : ℕ) where
  open db use {
    Store, view, ceiling, Wedged, alloc_id, update, delete, update_ok, update_err, delete_ok,
    delete_err, ceiling-update, ceiling-delete, view-alloc_id, ceiling-alloc_id, alloc_id_fresh,
    Wedged-update, Wedged-delete, Wedged-alloc_id,
  }

  -- every id is still below the ceiling, and the old ones are bound as before, unless the store is
  -- wedged and does not find them
  pub record Kept (s s' : Store) : Type 0 where
    pub up : c ≤ ceiling s'
    pub wedge : Wedged s → Wedged s'
    pub below : (j : ℕ) → j < c → Stays (Wedged s') (view s j) (view s' j)

  -- it changes fresh ids only, and what it hands out has a property
  abbrev pub Safe : {A : Type 0} → (A → Type 0) → Exec Store A → Type 0
  Safe {A} Q m = (s : Store) → c ≤ ceiling s → Kept s (m s).1 × ((a : A) → (m s).0 ≡ ok a → Q a)

  -- an old id after a failure: as before, or what `W` says was written to it
  abbrev pub Fails : (ℕ → List ℕ → Type 0) → Store → Store → Type 0
  Fails W s s' =
      (j : ℕ)
      → j < c
      → Stays (Wedged s') (view s j) (view s' j) ⊎ ((p : List ℕ) × W j p × (view s' j ≡ some p))

  pub record Left (W : ℕ → List ℕ → Type 0) {A : Type 0} (s : Store) (r : Result A × Store)
      : Type 0 where
    pub up : c ≤ ceiling r.1
    pub wedge : Wedged s → Wedged r.1
    pub fails : (e : Errno) → r.0 ≡ err e → Fails W s r.1

  abbrev pub Atomic : (ℕ → List ℕ → Type 0) → {A : Type 0} → Exec Store A → Type 0
  Atomic W m = (s : Store) → c ≤ ceiling s → Left W s (m s)

  -- a repair that changes fresh ids only
  abbrev pub Repairs : (Store → Store) → Type 0
  Repairs f = (s : Store) → c ≤ ceiling s → Kept s (f s)

  pub Kept-refl : (s : Store) → c ≤ ceiling s → Kept s s
  Kept-refl s h = record { up = h; wedge = λ w. w; below = λ j low. inl refl }

  Kept-trans : (s s' s'' : Store) → Kept s s' → Kept s' s'' → Kept s s''
  Kept-trans s s' s'' k k' = record {
    up = k'.up;
    wedge = λ w. k'.wedge (k.wedge w);
    below = λ j low.
        Stays-trans (Wedged s') (Wedged s'') (view s j) (view s' j) (view s'' j) k'.wedge
          (k.below j low) (k'.below j low);
  }

  Kept-Fails :
      (W : ℕ → List ℕ → Type 0) (s s' s'' : Store)
      → Kept s s'
      → (Wedged s' → Wedged s'')
      → Fails W s' s''
      → Fails W s s''
  Kept-Fails W s s' s'' k wedge f j low = elim (f j low) [
    | inr landed ↦ inr landed
    | inl stays ↦ inl (
        Stays-trans (Wedged s') (Wedged s'') (view s j) (view s' j) (view s'' j) wedge
          (k.below j low) stays)
  ]

  Fails-Kept :
      (W : ℕ → List ℕ → Type 0) (s s' s'' : Store) → Fails W s s' → Kept s' s'' → Fails W s s''
  Fails-Kept W s s' s'' f k j low = elim (f j low) [
    | inl stays ↦ inl (
        Stays-trans (Wedged s') (Wedged s'') (view s j) (view s' j) (view s'' j) k.wedge stays
          (k.below j low))
    | inr (p, w, landed) ↦ elim (k.below j low) [
      | inl same ↦ inr (p, w, same ∙ landed)
      | inr lost ↦ inl (inr lost)
    ]
  ]

  pub return-Safe : {A : Type 0} {Q : A → Type 0} (a : A) → Q a → Safe Q (return a)
  return-Safe {Q = Q} a q s h = (Kept-refl s h, λ b e. subst Q (cc) q)

  pub bind-Safe :
      {A B : Type 0} {P : A → Type 0} {Q : B → Type 0} (m : Exec Store A) (f : A → Exec Store B)
      → Safe P m
      → ((a : A) → P a → Safe Q (f a))
      → Safe Q (m >>= f)
  bind-Safe m f first then_ s h = elim (Result-cases (m s).0) [
    | inl (a, e) ↦
        let (k, gives) = first s h in
        let (k', gives') = then_ a (gives a e) (m s).1 k.up in
        rw e (Kept-trans s (m s).1 (f a (m s).1).1 k k', gives')
    | inr (x, e) ↦ let (k, gives) = first s h in rw e (k, λ b h'. absurd (cc))
  ]

  pub bind-Atomic :
      (W : ℕ → List ℕ → Type 0) {A B : Type 0} {P : A → Type 0} (m : Exec Store A)
      (f : A → Exec Store B)
      → Safe P m
      → ((a : A) → P a → Atomic W (f a))
      → Atomic W (m >>= f)
  bind-Atomic W m f first then_ s h = elim (Result-cases (m s).0) [
    | inl (a, e) ↦
        let (k, gives) = first s h in
        let l = then_ a (gives a e) (m s).1 k.up in
        rw e record {
          up = l.up;
          wedge = λ w. l.wedge (k.wedge w);
          fails = λ x failed. Kept-Fails W s (m s).1 (f a (m s).1).1 k l.wedge (l.fails x failed);
        }
    | inr (x, e) ↦
        let (k, gives) = first s h in
        rw e record { up = k.up; wedge = k.wedge; fails = λ y failed j low. inl (k.below j low) }
  ]

  pub on_error-Atomic :
      (W : ℕ → List ℕ → Type 0) {A : Type 0} (m : Exec Store A) (undo : Store → Store)
      → Atomic W m
      → Repairs undo
      → Atomic W (on_error m undo)
  on_error-Atomic W m undo first repair s h =
      let l = first s h in
      elim (Result-cases (m s).0) [
        | inl (a, e) ↦ rw e record { up = l.up; wedge = l.wedge; fails = λ x failed. absurd (cc) }
        | inr (x, e) ↦
            let k = repair (m s).1 l.up in
            rw e record {
              up = k.up;
              wedge = λ w. k.wedge (l.wedge w);
              fails = λ y failed. Fails-Kept W s (m s).1 (undo (m s).1) (l.fails x e) k;
            }
      ]

  pub finally-Atomic :
      (W : ℕ → List ℕ → Type 0) (m : Exec Store (Unit {0})) (f : Store → Store)
      → Atomic W m
      → ((s : Store) → ceiling s ≤ ceiling (f s))
      → ((s : Store) → Wedged s → Wedged (f s))
      → Atomic W (m >> finally f)
  finally-Atomic W m f first keeps wedges s h =
      let l = first s h in
      elim (Result-cases (m s).0) [
        | inl (a, e) ↦ rw e record {
          up = omega (arith, l.up, keeps (m s).1);
          wedge = λ w. wedges (m s).1 (l.wedge w);
          fails = λ x failed. absurd (cc);
        }
        | inr (x, e) ↦ rw e record { up = l.up; wedge = l.wedge; fails = λ y failed. l.fails x e }
      ]

  pub update-Atomic :
      (W : ℕ → List ℕ → Type 0) (id : ℕ) (p : List ℕ) → W id p → Atomic W (update id p)
  update-Atomic W id p w s h = record {
    up = rw (ceiling-update id p s) h;
    wedge = Wedged-update id p s;
    fails = λ e failed j low. elim (update_err id p s e failed j) [
      | inl stays ↦ inl stays
      | inr (same, landed) ↦ inr (p, subst (λ (i : ℕ). W i p) (sym same) w, landed)
    ];
  }

  pub update-Safe : (id : ℕ) (p : List ℕ) → c ≤ id → Safe (λ (_ : Unit {0}). Unit {0}) (update id p)
  update-Safe id p fresh s h = (
    record {
      up = rw (ceiling-update id p s) h;
      wedge = Wedged-update id p s;
      below = λ j low. elim (Result-cases (update id p s).0) [
        | inl (a, e) ↦ inl (update_ok id p s e j ∙ ground arith)
        | inr (x, e) ↦ elim (update_err id p s x e j) [
          | inl stays ↦ stays
          | inr (same, landed) ↦ absurd (omega (arith, same, low, fresh))
        ]
      ];
    },
    λ a e. tt,
  )

  pub fresh_id-Safe :
      (max_payload : ℕ) (e : Errno) → Safe (λ id. c ≤ id) (fresh_id db max_payload e)
  unfolding fresh_id
  fresh_id-Safe max_payload e s h =
      let k : Kept s (alloc_id s).1 = record {
        up = omega (arith, ceiling-alloc_id s);
        wedge = Wedged-alloc_id s;
        below = λ j low. inl (view-alloc_id s j);
      } in
      elim (Bool-cases ((alloc_id s).0 == 0)) [
        | inl none_left ↦ rw none_left (k, λ id got. absurd (cc))
        | inr given ↦ rw given (
          k,
          λ id got.
              let same : (alloc_id s).0 ≡ id = cc in
              let (_, issued, _) = alloc_id_fresh s (ground arith) in omega (arith, issued, same),
        )
      ]

  pub release_part-Repairs :
      (max_payload id : ℕ) → (id ≡ 0) ⊎ (c ≤ id) → Repairs (release_part db max_payload id)
  unfolding release_part
  release_part-Repairs max_payload id fresh s h = elim (Bool-cases (id == 0)) [
    | inl zero_id ↦ rw zero_id (Kept-refl s h)
    | inr real ↦ rw real record {
      up = rw (ceiling-delete id s) h;
      wedge = Wedged-delete id s;
      below = λ j low. elim (Result-cases (delete id s).0) [
        | inl (a, e) ↦ inl (delete_ok id s e j ∙ ground arith)
        | inr (x, e) ↦ elim (delete_err id s x e j) [
          | inl stays ↦ stays
          | inr (same, landed) ↦ absurd (ground (arith, same, low, fresh, real))
        ]
      ];
    }
  ]

  pub ceiling-release_part :
      (max_payload id : ℕ) (s : Store) → ceiling (release_part db max_payload id s) ≡ ceiling s
  unfolding release_part
  ceiling-release_part max_payload id s = elim (Bool-cases (id == 0)) [
    | inl zero_id ↦ rw zero_id refl
    | inr real ↦ rw real (ceiling-delete id s)
  ]

  pub Wedged-release_part :
      (max_payload id : ℕ) (s : Store) → Wedged s → Wedged (release_part db max_payload id s)
  unfolding release_part
  Wedged-release_part max_payload id s w = elim (Bool-cases (id == 0)) [
    | inl zero_id ↦ rw zero_id w
    | inr real ↦ rw real (Wedged-delete id s w)
  ]
