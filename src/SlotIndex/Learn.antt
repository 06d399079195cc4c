-- ===== src/SlotIndex/Learn.antt =====
-- How an index learns from a walk, and what its answers are worth.
use key_value_db.Base.{
  ℕ, ◌%◌, ◌<◌, ◌≡◌, refl, sym, ap, ◌∙◌, ◌≢◌, inl, inr, Option, none, some, arith, ◌==◌, ==_iff,
  ==_refl, Bool-cases, Gives,
}
use mathlib.Core.Option.{none-ne-some, some-injective}
use key_value_db.SlotIndex.{
  Config, Index, on, store, find, sidx_learn, sidx_lookup, hit_at, learn_at, put,
}
use key_value_db.SlotIndex.Weight.{offset_of}
use key_value_db.SlotIndex.Table.{IsConfig}
use key_value_db.SlotIndex.Put.{put_cases}
use key_value_db.SlotIndex.Track.{IsIndex, Tracks, on_lt, with_cursor}
use key_value_db.SlotIndex.Note.{with_cursor-IsIndex, touched-Tracks, put_own}

learn_at-Tracks :
    (c : Config) (ic : IsConfig c) (g : Index) (id : ℕ) (ends : ℕ → ℕ) (newest : ℕ → Option ℕ)
    → IsIndex c g
    → id ≢ 0
    → g.n_buckets ≢ 0
    → g.cursor (id % g.n_buckets) ≢ 0
    → ((b : ℕ) → b < g.n_buckets → g.cursor b ≢ 0 → g.cursor b ≡ ends b)
    → ((x o : ℕ) → x ≢ 0 → offset_of c g x ≡ some o → newest x ≡ some o)
    → (off : Option ℕ) → ((o : ℕ) → off ≡ some o → newest id ≡ some o)
    → Tracks c (learn_at c g id off) ends newest
learn_at-Tracks c ic g id ends newest ix nz nb known cur named none found = record {
  index = ix;
  cursors = cur;
  names = named;
}
learn_at-Tracks c ic g id ends newest ix nz nb known cur named (some off) found =
    touched-Tracks c ic g (put c g id off) id ends newest ix (put_cases c g ic ix.table id off nz).0
      nb known cur (λ x o xz ne. named x o xz)
      (λ o q. found off refl ∙ put_own c ic g id off ix.table nz o q)

module _ (c : Config) (ic : IsConfig c) (g : Index) (bid id : ℕ) (here : id % g.n_buckets ≡ bid)
    (nz : id ≢ 0) (ends : ℕ → ℕ) (newest : ℕ → Option ℕ) (tr : Tracks c g ends newest) where
  learnt_cursors :
      bid < g.n_buckets
      → (b : ℕ) → b < g.n_buckets
      → store g.cursor bid (ends bid) b ≢ 0
      → store g.cursor bid (ends bid) b ≡ ends b
  learnt_cursors bl b bl' kn = elim (Bool-cases (bid == b)) [
    | inl e ↦ rw (e) (ap ends ((==_iff bid b).0 e))
    | inr e ↦ rw (e) (tr.cursors b bl' (λ z. kn (rw (e) z)))
  ]

  -- When an index tracks the logs, a walk that found this bucket's end and, if it hands out an
  -- offset, the newest slot of an id of the bucket, other than 0, leaves blob_db_sidx_learn with
  -- an index that tracks the same logs.
  pub learn-Tracks :
      (off : Option ℕ)
      → ((o : ℕ) → off ≡ some o → newest id ≡ some o)
      → Gives (sidx_learn c g bid id off (ends bid)) λ g'. Tracks c g' ends newest
  unfolding sidx_learn offset_of find
  learn-Tracks off found = elim (Bool-cases (on g bid)) [
    | inr e ↦ (g, rw (e) refl, tr)
    | inl e ↦
        let bl = on_lt g bid e in
        let nb : g.n_buckets ≢ 0 = λ z. absurd (omega (arith, z, bl)) in
        elim (Bool-cases (ends bid == 0)) [
          | inl v ↦ (g, rw (e, v) refl, tr)
          | inr v ↦
              let vz : ends bid ≢ 0 = ground arith in
              elim (Bool-cases (g.cursor bid == 0)) [
                | inl z ↦ (
                  learn_at c (with_cursor g bid (ends bid)) id off,
                  rw (e, v, z) refl,
                  learn_at-Tracks c ic (with_cursor g bid (ends bid)) id ends newest
                      (with_cursor-IsIndex c ic g bid (ends bid) tr.index bl vz) nz nb
                      (rw (here, ==_refl bid) vz) (learnt_cursors bl) tr.names off found,
                )
                | inr z ↦
                    let kn : g.cursor bid ≢ 0 = ground arith in
                    let same = tr.cursors bid bl kn in
                    (
                      learn_at c g id off,
                      rw (e, v, z, same, ==_refl (ends bid)) refl,
                      learn_at-Tracks c ic g id ends newest tr.index nz nb (rw (here) kn) tr.cursors
                          tr.names off found,
                    )
              ]
        ]
  ]

-- When an index tracks the logs, what blob_db_sidx_lookup answers for an id other than 0 is the
-- id's newest slot and the end of the bucket's log.
pub lookup-newest :
    (c : Config) (g : Index) (ends : ℕ → ℕ) (newest : ℕ → Option ℕ) (bid id off cursor : ℕ)
    → Tracks c g ends newest
    → id ≢ 0
    → sidx_lookup c g bid id ≡ some (off, cursor)
    → (newest id ≡ some off) × (ends bid ≡ cursor)
unfolding sidx_lookup offset_of
lookup-newest c g ends newest bid id off cursor tr nz e = elim (Bool-cases (on g bid)) [
  | inr o ↦ absurd (none-ne-some {A = ℕ × ℕ} (off, cursor) (rw (o) at e))
  | inl o ↦ elim (Bool-cases (g.cursor bid == 0)) [
    | inl z ↦ absurd (none-ne-some {A = ℕ × ℕ} (off, cursor) (rw (o, z) at e))
    | inr z ↦ hit (on_lt g bid o) (ground arith) (find c g id) refl (rw (o, z) at e)
  ]
]
  where
    hit :
        bid < g.n_buckets
        → g.cursor bid ≢ 0
        → (r : Option ℕ) → find c g id ≡ r
        → hit_at c g bid r ≡ some (off, cursor)
        → (newest id ≡ some off) × (ends bid ≡ cursor)
    hit bl kn none f h = absurd (none-ne-some {A = ℕ × ℕ} (off, cursor) h)
    hit bl kn (some k) f h =
        let pair = some-injective (g.offs k, g.cursor bid) (off, cursor) h in
        let named : offset_of c g id ≡ some (g.offs k) = rw (offset_of, f) refl in
        (
          tr.names id (g.offs k) nz named ∙ ap (λ (p : ℕ × ℕ). some p.0) pair,
          sym (tr.cursors bid bl kn) ∙ ap (λ (p : ℕ × ℕ). p.1) pair,
        )
