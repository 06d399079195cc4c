-- ===== src/SlotIndex/Table.antt =====
-- A well-formed table and what `remove_at` and `put` make of it.
use key_value_db.Base.{
  ℕ, ◌+◌, ◌%◌, ◌^◌, ◌≤◌, ◌<◌, ◌≡◌, refl, sym, ap, ◌∙◌, ◌≢◌, inl, inr, Bool, true, some, arith, ◌==◌,
  ==_iff, Bool-cases,
}
use native.Mathlib.Nat.{mod-eq_of_lt}
use key_value_db.SlotIndex.{
  Config, Index, Cells, store, inc, dec, remove_at, max_fill, bucket_of, close_gap,
}
use key_value_db.SlotIndex.Cyclic.{stays_self, Away-start}
use key_value_db.SlotIndex.Tally.{store_self, store_other, tally_change, tally_room, tally_mono}
use key_value_db.SlotIndex.Gap.{Gap, Closed, close_gap_lem}
use key_value_db.SlotIndex.Weight.{
  of_id, of_id-Weighs, in_use, in_use-Weighs, in_use_self, in_use_free, in_bucket, in_bucket-Weighs,
  in_bucket_self, in_bucket_other, in_bucket-le, total, IsMap, Change,
}

-- A capacity that Kconfig allows and whose entries a bucket's 16-bit count can hold.
pub record IsConfig (c : Config) : Type 0 where
  pub cells : 8 ≤ c.cap
  pub counted : c.cap ≤ 2 ^ 16

-- The table is a map, `used` and `bcnt` count its entries, and it is never full.
pub record IsTable (c : Config) (g : Index) : Type 0 where
  pub is_map : IsMap c g
  pub used : g.used ≡ total c g in_use
  pub room : g.used ≤ max_fill c
  pub counts : (b : ℕ) → b < g.n_buckets → g.bcnt b ≡ total c g (in_bucket g.n_buckets b)

dec32_pos : (x : ℕ) → 0 < x → x < 2 ^ 32 → dec 32 x + 1 ≡ x
dec32_pos x h l = omega arith

dec16_pos : (x : ℕ) → 0 < x → x < 2 ^ 16 → dec 16 x + 1 ≡ x
dec16_pos x h l = omega arith

pub inc_lt : (w x : ℕ) → x + 1 < 2 ^ w → inc w x ≡ x + 1
inc_lt w x l = mod-eq_of_lt l

pub max_fill-lt : (c : Config) → IsConfig c → (max_fill c < c.cap) × (max_fill c < 2 ^ 16)
unfolding max_fill
max_fill-lt c ic = omega (arith, ic.cells, ic.counted)

module _ (c : Config) (g : Index) (ic : IsConfig c) (t : IsTable c g) where
  open c use {cap}

  pub free_cell : (e : ℕ) × (e < cap) × (g.ids e ≡ 0)
  free_cell =
      let (e, l, z) =
        tally_room in_use g.ids g.offs cap (omega (arith, t.used, t.room, max_fill-lt c ic)) in
      (e, l, in_use_free (g.ids e) (g.offs e) z)

  pub bucket-le : (b : ℕ) → total c g (in_bucket g.n_buckets b) ≤ g.used
  bucket-le b = omega (
    arith,
    tally_mono (in_bucket g.n_buckets b) in_use g.ids g.offs cap (in_bucket-le g.n_buckets b),
    t.used,
  )

  module _ (i : ℕ) (il : i < cap) (iu : g.ids i ≢ 0) where
    emptied-Gap : Gap c (store g.ids i 0) i i
    emptied-Gap m k ml kl mu p =
        let apart : i ≢ m = λ e. mu (ap (store g.ids i 0) (sym e) ∙ store_self g.ids i 0) in
        let here : store g.ids i 0 m ≡ g.ids m = store_other g.ids i 0 m apart in
        let on = t.is_map.reach m k ml kl (λ z. mu (here ∙ z)) (rw (← here) p) in
        elim (Bool-cases (i == k)) [
          | inl b ↦ inr (sym ((==_iff i k).0 b), stays_self c i m)
          | inr b ↦ inl (λ z. on (sym (store_other g.ids i 0 k (ground arith)) ∙ z))
        ]

    -- The loop of `remove_at` ends, on a table with one entry less.
    pub removed :
        (r : Cells) × (close_gap c cap (store g.ids i 0) g.offs i i ≡ some r)
        × Closed c (store g.ids i 0) g.offs i r
    removed =
        let (e, el, z) = free_cell in
        let apart : i ≢ e = λ q. iu (ap g.ids q ∙ z) in
        let (d, dl, away) = Away-start cap i e il el in
        close_gap_lem c i e d cap (store g.ids i 0) g.offs i i el il il il
          (store_other g.ids i 0 e apart ∙ z) (store_self g.ids i 0) emptied-Gap (ground arith) away
          (omega arith) dl

    pub after : Index
    after = record g {
      ids = (removed.0).0;
      offs = (removed.0).1;
      used = dec 32 g.used;
      bcnt = store g.bcnt (bucket_of g (g.ids i)) (dec 16 (g.bcnt (bucket_of g (g.ids i))));
    }

    pub remove_at_run : remove_at c g i ≡ some after
    unfolding remove_at after
    remove_at_run = rw (removed.1) refl

    pub after-Change : Change c g after (g.ids i) (g.offs i) 0 0
    unfolding after
    after-Change w wz =
        let z = wz 0 in
        let here : w (store g.ids i 0 i) (g.offs i) ≡ 0 =
          rw (store_self g.ids i 0) (wz (g.offs i)) in
        omega (
          arith,
          removed.2.same w wz,
          tally_change w g.ids g.offs (store g.ids i 0) g.offs cap i il (store_other g.ids i 0)
              (λ m ne. refl),
          z,
          here,
        )

    after-counts :
        (b : ℕ) → b < g.n_buckets → after.bcnt b ≡ total c after (in_bucket g.n_buckets b)
    unfolding after bucket_of
    after-counts b bl =
        let w = in_bucket g.n_buckets b in
        let ch = after-Change w (in_bucket-Weighs g.n_buckets b) in
        let z = in_bucket-Weighs g.n_buckets b 0 in
        elim (Bool-cases (g.ids i % g.n_buckets == b)) [
          | inl e ↦
              let q = (==_iff (g.ids i % g.n_buckets) b).0 e in
              let one = in_bucket_self g.n_buckets b (g.ids i) (g.offs i) iu q in
              let n : g.bcnt b ≡ total c g w = t.counts b bl in
              let small = bucket-le b in
              let less =
                dec16_pos (g.bcnt b) (omega (arith, ch, z, one, n))
                  (omega (arith, n, small, t.room, max_fill-lt c ic)) in
              rw (e, q) (omega (arith, ch, z, one, n, less))
          | inr e ↦
              let other = in_bucket_other g.n_buckets b (g.ids i) (g.offs i) (ground arith) in
              rw (e) (omega (arith, ch, z, other, t.counts b bl))
        ]

    pub after-IsTable : IsTable c after
    unfolding after
    after-IsTable =
        let id = g.ids i in
        let ch_used = after-Change in_use in_use-Weighs in
        let w_used = in_use_self id (g.offs i) iu in
        let pos : 0 < g.used = omega (arith, ch_used, w_used, in_use-Weighs 0, t.used) in
        let used' = dec32_pos g.used pos (omega (arith, t.room, max_fill-lt c ic)) in
        record {
          is_map = record {
            reach = removed.2.reach;
            once = λ x.
                omega (
                  arith,
                  after-Change (of_id x) (of_id-Weighs x),
                  of_id-Weighs x 0,
                  t.is_map.once x,
                );
          };
          used = omega (arith, ch_used, w_used, in_use-Weighs 0, t.used, used');
          room = omega (arith, used', t.room);
          counts = after-counts;
        }

    pub after_n : after.n_buckets ≡ g.n_buckets
    unfolding after
    after_n = refl

    pub after_cursor : (b : ℕ) → after.cursor b ≡ g.cursor b
    unfolding after
    after_cursor b = refl

    pub after_below :
        (P : ℕ → Bool)
        → P 0 ≡ true
        → ((m : ℕ) → m < i → P (g.ids m) ≡ true)
        → (m : ℕ) → m < i
        → P (after.ids m) ≡ true
    unfolding after
    after_below P p0 h =
        removed.2.below P p0 λ m l. rw (store_other g.ids i 0 m (λ e. omega arith)) (h m l)
