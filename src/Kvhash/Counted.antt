-- ===== src/Kvhash/Counted.antt =====
-- kvhash_count of a map whose buckets hold packed entries.
use key_value_db.Base.{
  ℕ, ◌+◌, ◌%◌, ◌^◌, ◌≤◌, ◌<◌, ◌≡◌, refl, sym, ap, ◌∙◌, ◌≢◌, ◌⊎◌, inl, inr, true, false, some, List,
  [], ◌∷◌, arith, leb, ◌==◌, Bool-cases, length, All, Result, ok,
}
use key_value_db.BlobDb.{BlobDb, IsFault}
use key_value_db.Kvhash.Walk.{Packed, Fits, packed}
use key_value_db.Kvhash.Find.{visits}
use key_value_db.Kvhash.Visits.{visits-packed, length-places}
use key_value_db.Kvhash.Dir.{Dir, dir_child, dir_load, sub_load, top_child}
use key_value_db.Kvhash.Count.{add_child, leaf_count, sub_named, tree_count, kvhash_count}
use mathlib.Core.List.{append-nil}
use mathlib.Core.Path.{subst}

-- entries in buckets, in sub-maps; a size_t wraps around
abbrev pub in_buckets : List (List Packed) → ℕ
in_buckets [] = 0
in_buckets (ps ∷ buckets) = length ps + in_buckets buckets

abbrev pub in_maps : List (List (List Packed)) → ℕ
in_maps [] = 0
in_maps (buckets ∷ maps) = in_buckets buckets + in_maps maps

wrap-+ : (a b c : ℕ) → ((a + b) % 2 ^ 32 + c) % 2 ^ 32 ≡ (a + (b + c)) % 2 ^ 32
wrap-+ a b c = omega arith

module _ (db : BlobDb) (max_payload : ℕ) where
  open db use {Store, view, get, get_reply}

  -- a bucket that an id names, or none for an empty one that was never written
  abbrev pub Bucket : Store → ℕ → List Packed → Type 0
  Bucket s bid ps =
      ((bid ≡ 0) × (ps ≡ []))
      ⊎ ((bid ≢ 0)
          × (view s bid ≡ some (packed ps))
          × (length (packed ps) ≤ max_payload)
          × All Fits ps)

  -- the buckets of a leaf directory, from the `i`-th on
  abbrev pub Buckets : Store → List ℕ → ℕ → List (List Packed) → Type 0
  Buckets s bytes i [] = Unit {0}
  Buckets s bytes i (ps ∷ buckets) =
      Bucket s (dir_child bytes i) ps × Buckets s bytes (i + 1) buckets

  visits-length : (ps : List Packed) → All Fits ps → length (visits (packed ps)) ≡ length ps
  unfolding packed
  visits-length ps fits =
      ap (λ (vs : List _). length vs)
        (ap visits (sym (append-nil (packed ps))) ∙ visits-packed ps [] fits (omega arith))
      ∙ length-places 0 ps

  -- a sum, unless flash could not be read
  abbrev pub Adds : Result ℕ → ℕ → Type 0
  Adds r n = (r ≡ ok n) ⊎ IsFault r

  add_child-Adds :
      (s : Store) (bid : ℕ) (ps : List Packed) (acc : ℕ)
      → acc < 2 ^ 32
      → Bucket s bid ps
      → Adds (add_child db max_payload s bid acc) ((acc + length ps) % 2 ^ 32)
  add_child-Adds s bid ps acc low (inl (none_yet, empty)) =
      let zero_id : (bid == 0) ≡ true = ground arith in
      inl (rw (zero_id, empty) (ap ok (omega (arith, low))))
  add_child-Adds s bid ps acc low (inr (real, bound, short, fits)) =
      let some_id : (bid == 0) ≡ false = ground arith in
      let whole : leb (length (packed ps)) max_payload ≡ true = ground arith in
      elim (get_reply s bid max_payload) [
        | inl answered ↦ inl (rw (some_id, answered, bound, whole, visits-length ps fits) refl)
        | inr (inl io) ↦ inr (rw (some_id, io) (inl refl))
        | inr (inr unmounted) ↦ inr (rw (some_id, unmounted) (inr refl))
      ]

  leaf_count-Adds :
      (s : Store) (bytes : List ℕ) (buckets : List (List Packed)) (i acc : ℕ)
      → acc < 2 ^ 32
      → Buckets s bytes i buckets
      → Adds
          (leaf_count db max_payload s bytes (length buckets) i acc)
          ((acc + in_buckets buckets) % 2 ^ 32)
  unfolding leaf_count
  leaf_count-Adds s bytes [] i acc low held = inl (ap ok (omega (arith, low)))
  leaf_count-Adds s bytes (ps ∷ buckets) i acc low (bucket, held) =
      elim (add_child-Adds s (dir_child bytes i) ps acc low bucket) [
        | inr (inl io) ↦ inr (rw (leaf_count, io) (inl refl))
        | inr (inr unmounted) ↦ inr (rw (leaf_count, unmounted) (inr refl))
        | inl added ↦
            rw (leaf_count, added, sym (wrap-+ acc (length ps) (in_buckets buckets)))
              (leaf_count-Adds s bytes buckets (i + 1) ((acc + length ps) % 2 ^ 32) (omega arith)
                held)
      ]

  -- a leaf directory and its buckets
  pub record Sub (s : Store) (sub : ℕ) (buckets : List (List Packed)) : Type 0 where
    pub dir : Dir
    pub loaded : sub_load db max_payload s sub ≡ ok dir
    pub n : dir.n ≡ length buckets
    pub held : Buckets s dir.bytes 0 buckets

  -- the sub-maps of a top directory, from the `t`-th on
  abbrev pub Subs : Store → List ℕ → ℕ → List (List (List Packed)) → Type 0
  Subs s bytes t [] = Unit {0}
  Subs s bytes t (buckets ∷ maps) = Sub s (dir_child bytes t) buckets × Subs s bytes (t + 1) maps

  pub record Flat (s : Store) (root : ℕ) (buckets : List (List Packed)) : Type 0 where
    pub dir : Dir
    pub loaded : dir_load db max_payload s root ≡ ok dir
    pub depth : dir.depth ≡ 1
    pub n : dir.n ≡ length buckets
    pub held : Buckets s dir.bytes 0 buckets

  pub record Tree (s : Store) (root : ℕ) (maps : List (List (List Packed))) : Type 0 where
    pub dir : Dir
    pub loaded : dir_load db max_payload s root ≡ ok dir
    pub depth : dir.depth ≢ 1
    pub n : dir.n ≡ length maps
    pub subs : Subs s dir.bytes 0 maps

  -- the entries of a map of one level or two
  abbrev pub Map : Store → ℕ → List (List (List Packed)) → Type 0
  Map s root maps =
      ((buckets : List (List Packed)) × (maps ≡ buckets ∷ []) × Flat s root buckets)
      ⊎ Tree s root maps

  module _ (s : Store) (root : ℕ) (top : Dir)
      (loaded : dir_load db max_payload s root ≡ ok top) where
    sub_named-dir_child :
        (t : ℕ) → t < top.n → sub_named db max_payload s root top t ≡ ok (dir_child top.bytes t)
    unfolding top_child
    sub_named-dir_child t low =
        let within : leb top.n t ≡ false = ground arith in
        elim (Bool-cases (t == 0)) [
          | inl first ↦
              let at_first : t ≡ 0 = ground arith in
              rw first (ap (λ (i : ℕ). ok (dir_child top.bytes i)) (sym at_first))
          | inr later ↦ rw (later, top_child, loaded, within) refl
        ]

    tree_count-Adds :
        (maps : List (List (List Packed))) (t acc : ℕ)
        → t + length maps ≡ top.n
        → acc < 2 ^ 32
        → Subs s top.bytes t maps
        → Adds
            (tree_count db max_payload s root top (length maps) t acc)
            ((acc + in_maps maps) % 2 ^ 32)
    unfolding tree_count
    tree_count-Adds [] t acc total low held = inl (ap ok (omega (arith, low)))
    tree_count-Adds (buckets ∷ maps) t acc total low (sub, held) =
        let named = sub_named-dir_child t (omega (arith, total)) in
        elim (leaf_count-Adds s sub.dir.bytes buckets 0 acc low sub.held) [
          | inr (inl io) ↦ inr (rw (tree_count, named, sub.loaded, sub.n, io) (inl refl))
          | inr (inr unmounted) ↦
              inr (rw (tree_count, named, sub.loaded, sub.n, unmounted) (inr refl))
          | inl added ↦
              rw
                (
                  tree_count,
                  named,
                  sub.loaded,
                  sub.n,
                  added,
                  sym (wrap-+ acc (in_buckets buckets) (in_maps maps)),
                )
                (tree_count-Adds maps (t + 1) ((acc + in_buckets buckets) % 2 ^ 32)
                  (omega (arith, total)) (omega arith) held)
        ]

  -- In a map of one level or two whose directories load and whose buckets, where they were written,
  -- pack entries, kvhash_count gives the number of the entries of all buckets, modulo 2 ^ 32, unless
  -- flash cannot be read.
  pub kvhash_count-in_maps :
      (s : Store) (root : ℕ) (maps : List (List (List Packed)))
      → Map s root maps
      → Adds (kvhash_count db max_payload s root true) (in_maps maps % 2 ^ 32)
  unfolding kvhash_count
  kvhash_count-in_maps s root maps (inl (buckets, whole, m)) =
      let flat : (m.dir.depth == 1) ≡ true = ground (arith, m.depth) in
      rw (kvhash_count, m.loaded, flat, m.n, whole)
        (subst
          (λ (n : ℕ).
            Adds (leaf_count db max_payload s m.dir.bytes (length buckets) 0 0) (n % 2 ^ 32))
          (omega arith) (leaf_count-Adds s m.dir.bytes buckets 0 0 (omega arith) m.held))
  kvhash_count-in_maps s root maps (inr m) =
      let two : (m.dir.depth == 1) ≡ false = ground (arith, m.depth) in
      rw (kvhash_count, m.loaded, two)
        (subst
          (λ (n : ℕ). Adds (tree_count db max_payload s root m.dir n 0 0) (in_maps maps % 2 ^ 32))
          (sym m.n)
          (subst
            (λ (n : ℕ).
              Adds (tree_count db max_payload s root m.dir (length maps) 0 0) (n % 2 ^ 32))
            (omega arith)
            (tree_count-Adds s root m.dir m.loaded maps 0 0 (omega (arith, m.n)) (omega arith)
              m.subs)))
