-- ===== src/SlotIndex/Remove.antt =====
-- What `remove_at` and `drop` make of a well-formed table.
use key_value_db.Base.{
  ℕ, ◌+◌, ◌<◌, ◌≡◌, refl, sym, ◌∙◌, ◌≢◌, inl, inr, Bool, true, none, some, arith, Gives,
}
use key_value_db.SlotIndex.{Config, Index, remove_at, drop_id}
use key_value_db.SlotIndex.Weight.{
  of_id, of_id-Weighs, of_id_self, in_use, in_use-Weighs, in_use_self, in_bucket, in_bucket-Weighs,
  in_bucket_other, Change-offset_of, find_cases, offset_of, offset_of_absent,
}
use key_value_db.SlotIndex.Table.{
  IsConfig, IsTable, after, after-IsTable, after-Change, remove_at_run, after_below, after_n,
  after_cursor,
}
use key_value_db.SlotIndex.Put.{Touches, Touches-self}

-- A cell's entry is gone, and nothing else is.
pub record Removed (c : Config) (g g' : Index) (i : ℕ) : Type 0 where
  pub touches : Touches c g g' (g.ids i)
  pub gone : offset_of c g' (g.ids i) ≡ none
  pub fewer : g'.used + 1 ≡ g.used
  pub below :
      (P : ℕ → Bool)
      → P 0 ≡ true
      → ((m : ℕ) → m < i → P (g.ids m) ≡ true)
      → (m : ℕ) → m < i
      → P (g'.ids m) ≡ true

module _ (c : Config) (g : Index) (ic : IsConfig c) (t : IsTable c g) where
  open c use {cap}

  -- `remove_at` ends its loop and takes out the cell's entry.
  pub remove_at_lem :
      (i : ℕ)
      → i < cap
      → g.ids i ≢ 0
      → (g' : Index) × (remove_at c g i ≡ some g') × Removed c g g' i
  remove_at_lem i il iu =
      let id = g.ids i in
      let off = g.offs i in
      let pos : 0 < cap = omega (arith, ic.cells) in
      let g' = after c g ic t i il iu in
      let ch = after-Change c g ic t i il iu in
      let t' = after-IsTable c g ic t i il iu in
      let zero_id = ch (of_id id) (of_id-Weighs id) in
      let one = of_id_self id off iu in
      let once = t.is_map.once id in
      let use_one = in_use_self id off iu in
      (
        g',
        remove_at_run c g ic t i il iu,
        record {
          touches = record {
            table = t';
            same_n = after_n c g ic t i il iu;
            same_cursor = after_cursor c g ic t i il iu;
            others = λ x xz ne.
                Change-offset_of c g g' id off 0 0 x t.is_map t'.is_map ch pos xz ne
                  (λ e. xz (sym e));
            elsewhere = λ b ne. omega (
              arith,
              ch (in_bucket g.n_buckets b) (in_bucket-Weighs g.n_buckets b),
              in_bucket-Weighs g.n_buckets b 0,
              in_bucket_other g.n_buckets b id off ne,
            );
          };
          gone =
              (offset_of_absent c g' t'.is_map id iu pos
                (omega (arith, zero_id, one, once, of_id-Weighs id 0))).1;
          fewer = omega (arith, t.used, t'.used, ch in_use in_use-Weighs, in_use-Weighs 0, use_one);
          below = after_below c g ic t i il iu;
        },
      )

  -- For a capacity that the 16-bit counts can hold, a well-formed table and an id other than 0,
  -- the loop of `drop` ends within its rounds; the table stays well formed, every other id keeps
  -- its offset and every other bucket its count, and the id has no entry.
  pub drop_id_lem :
      (id : ℕ)
      → id ≢ 0
      → Gives (drop_id c g id) λ g'. Touches c g g' id × (offset_of c g' id ≡ none)
  unfolding drop_id
  drop_id_lem id nz = elim (find_cases c g t.is_map id nz (omega (arith, ic.cells))) [
    | inl (k, kl, here, f, _) ↦
        let (g', run, r) = remove_at_lem k kl (λ z. nz (sym here ∙ z)) in
        (g', rw (f) run, (rw (← here) r.touches, rw (← here) r.gone))
    | inr (f, o, _) ↦ (g, rw (f) refl, (Touches-self c g id t, o))
  ]
