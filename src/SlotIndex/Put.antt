-- ===== src/SlotIndex/Put.antt =====
-- What `put` makes of a well-formed table.
use key_value_db.Base.{
  ℕ, ◌%◌, ◌≤◌, ◌<◌, ◌≡◌, refl, sym, ap, ◌∙◌, ◌≢◌, ◌⊎◌, inl, inr, true, none, some, arith, leb, ◌==◌,
  leb→le, ==_iff, Bool-cases,
}
use key_value_db.SlotIndex.{Config, Index, find, home, store, inc, put, max_fill, bucket_of}
use key_value_db.SlotIndex.Cyclic.{passes}
use key_value_db.SlotIndex.Tally.{Weighs, store_self, store_other, tally_change}
use key_value_db.SlotIndex.Probe.{Reach, probe_held, probe-Absent}
use key_value_db.SlotIndex.Weight.{
  of_id, of_id-Weighs, of_id_self, of_id_other, in_use, in_use-Weighs, in_use_self, in_bucket,
  in_bucket-Weighs, in_bucket_self, in_bucket_other, total, Change, Change-offset_of, find_cases,
  offset_of, offset_of_cell, Absent-of_id,
}
use key_value_db.SlotIndex.Table.{IsConfig, IsTable, inc_lt, max_fill-lt, bucket-le, free_cell}

-- A change of one id's entry that keeps a table well formed and touches no other entry.
pub record Touches (c : Config) (g g' : Index) (id : ℕ) : Type 0 where
  pub table : IsTable c g'
  pub same_n : g'.n_buckets ≡ g.n_buckets
  pub same_cursor : (b : ℕ) → g'.cursor b ≡ g.cursor b
  pub others : (x : ℕ) → x ≢ 0 → id ≢ x → offset_of c g' x ≡ offset_of c g x
  pub elsewhere :
      (b : ℕ)
      → id % g.n_buckets ≢ b
      → total c g' (in_bucket g.n_buckets b) ≡ total c g (in_bucket g.n_buckets b)

pub Touches-self : (c : Config) (g : Index) (id : ℕ) → IsTable c g → Touches c g g id
Touches-self c g id t = record {
  table = t;
  same_n = refl;
  same_cursor = λ b. refl;
  others = λ x nz ne. refl;
  elsewhere = λ b ne. refl;
}

module _ (c : Config) (g : Index) (ic : IsConfig c) (t : IsTable c g) (id off : ℕ)
    (nz : id ≢ 0) where
  open c use {cap}

  pos : 0 < cap
  pos = omega (arith, ic.cells)

  module _ (k : ℕ) (kl : k < cap) (here : g.ids k ≡ id) where
    over : Index
    over = record g { offs = store g.offs k off }

    over-Change : Change c g over id (g.offs k) id off
    unfolding over
    over-Change w wz =
        let left : w (g.ids k) (g.offs k) ≡ w id (g.offs k) = rw (here) refl in
        let came : w (g.ids k) (store g.offs k off k) ≡ w id off =
          rw (here, store_self g.offs k off) refl in
        omega (
          arith,
          left,
          came,
          tally_change w g.ids g.offs g.ids (store g.offs k off) cap k kl (λ m ne. refl)
              (store_other g.offs k off),
        )

    over_same :
        (w : ℕ → ℕ → ℕ) → Weighs w → w id off ≡ w id (g.offs k) → total c over w ≡ total c g w
    over_same w wz e = omega (arith, over-Change w wz, e)

    over-IsTable : IsTable c over
    unfolding over of_id in_use in_bucket
    over-IsTable = record {
      is_map = record {
        reach = t.is_map.reach;
        once = λ x. omega (arith, over_same (of_id x) (of_id-Weighs x) refl, t.is_map.once x);
      };
      used = omega (arith, over_same in_use in_use-Weighs refl, t.used);
      room = t.room;
      counts = λ b bl.
          t.counts b bl
          ∙ sym (over_same (in_bucket g.n_buckets b) (in_bucket-Weighs g.n_buckets b) refl);
    }

    over-Touches : Touches c g over id × (offset_of c over id ≡ some off)
    unfolding over
    over-Touches = (
      record {
        table = over-IsTable;
        same_n = refl;
        same_cursor = λ b. refl;
        others = λ x xz ne.
            Change-offset_of c g over id (g.offs k) id off x t.is_map over-IsTable.is_map
              over-Change pos xz ne ne;
        elsewhere = λ b ne. over_same (in_bucket g.n_buckets b) (in_bucket-Weighs g.n_buckets b) (
            in_bucket_other g.n_buckets b id off ne
            ∙ sym (in_bucket_other g.n_buckets b id (g.offs k) ne));
      },
      (offset_of_cell c over over-IsTable.is_map id k nz kl here).1
          ∙ ap some (store_self g.offs k off),
    )

  module _ (k : ℕ) (kl : k < cap) (free : g.ids k ≡ 0) (room : g.used < max_fill c)
      (none_yet : total c g (of_id id) ≡ 0)
      (passed : (m : ℕ) → m < cap → passes (home c id) m k ≡ true → g.ids m ≢ 0) where
    new : Index
    new =
        let b = bucket_of g id in
        record g {
          ids = store g.ids k id;
          offs = store g.offs k off;
          used = inc 32 g.used;
          bcnt = store g.bcnt b (inc 16 (g.bcnt b));
        }

    new-Change : Change c g new 0 0 id off
    unfolding new
    new-Change w wz =
        let left : w (g.ids k) (g.offs k) ≡ 0 = rw (free) (wz (g.offs k)) in
        let came : w (store g.ids k id k) (store g.offs k off k) ≡ w id off =
          rw (store_self g.ids k id, store_self g.offs k off) refl in
        omega (
          arith,
          left,
          came,
          wz 0,
          tally_change w g.ids g.offs (store g.ids k id) (store g.offs k off) cap k kl
              (store_other g.ids k id) (store_other g.offs k off),
        )

    new_used : (m : ℕ) → g.ids m ≢ 0 → store g.ids k id m ≢ 0
    new_used m u = ground arith

    new-Reach : Reach c new.ids
    unfolding new
    new-Reach m j ml jl mu p = elim (Bool-cases (k == m)) [
      | inl e ↦
          let q = (==_iff k m).0 e in
          let own : store g.ids k id m ≡ id = rw (e) refl in
          new_used j (passed j jl (rw (q, ← own) p))
      | inr e ↦
          let own = store_other g.ids k id m (ground arith) in
          new_used j (t.is_map.reach m j ml jl (λ z. mu (own ∙ z)) (rw (← own) p))
    ]

    new_once : (x : ℕ) → total c new (of_id x) ≤ 1
    new_once x =
        let ch = new-Change (of_id x) (of_id-Weighs x) in
        let z = of_id-Weighs x 0 in
        elim (Bool-cases (id == x)) [
          | inl e ↦
              let q = (==_iff id x).0 e in
              let one = of_id_self x off (λ xz. nz (q ∙ xz)) in
              let absent : total c g (of_id x) ≡ 0 = rw (← q) none_yet in
              let own : of_id x id off ≡ 1 = rw (q) one in omega (arith, ch, z, own, absent)
          | inr e ↦ omega (arith, ch, z, of_id_other x id off (ground arith), t.is_map.once x)
        ]

    new-counts : (b : ℕ) → b < g.n_buckets → new.bcnt b ≡ total c new (in_bucket g.n_buckets b)
    unfolding new bucket_of
    new-counts b bl =
        let w = in_bucket g.n_buckets b in
        let ch = new-Change w (in_bucket-Weighs g.n_buckets b) in
        let z = in_bucket-Weighs g.n_buckets b 0 in
        elim (Bool-cases (id % g.n_buckets == b)) [
          | inl e ↦
              let q = (==_iff (id % g.n_buckets) b).0 e in
              let one = in_bucket_self g.n_buckets b id off nz q in
              let n : g.bcnt b ≡ total c g w = t.counts b bl in
              let le = bucket-le c g ic t b in
              let more = inc_lt 16 (g.bcnt b) (omega (arith, n, le, room, max_fill-lt c ic)) in
              rw (e, q) (omega (arith, ch, z, one, n, more))
          | inr e ↦
              let other = in_bucket_other g.n_buckets b id off (ground arith) in
              rw (e) (omega (arith, ch, z, other, t.counts b bl))
        ]

    new-IsTable : IsTable c new
    unfolding new
    new-IsTable =
        let more = inc_lt 32 g.used (omega (arith, room, max_fill-lt c ic)) in
        let w_used = in_use_self id off nz in
        record {
          is_map = record { reach = new-Reach; once = new_once };
          used =
              omega (arith, new-Change in_use in_use-Weighs, in_use-Weighs 0, w_used, t.used, more);
          room = omega (arith, more, room);
          counts = new-counts;
        }

    new-Touches : Touches c g new id × (offset_of c new id ≡ some off)
    unfolding new
    new-Touches = (
      record {
        table = new-IsTable;
        same_n = refl;
        same_cursor = λ b. refl;
        others = λ x xz ne.
            Change-offset_of c g new 0 0 id off x t.is_map new-IsTable.is_map new-Change pos xz
              (λ e. xz (sym e)) ne;
        elsewhere = λ b ne. omega (
          arith,
          new-Change (in_bucket g.n_buckets b) (in_bucket-Weighs g.n_buckets b),
          in_bucket-Weighs g.n_buckets b 0,
          in_bucket_other g.n_buckets b id off ne,
        );
      },
      (offset_of_cell c new new-IsTable.is_map id k nz kl (store_self g.ids k id)).1
          ∙ ap some (store_self g.offs k off),
    )

  -- For a capacity that the 16-bit counts can hold, a well-formed table and an id other than 0,
  -- `put` keeps the table well formed, leaves every other id its offset and every other bucket its
  -- count, and gives the id the new offset, or changes nothing when the id had no entry and the
  -- table is filled to its limit.
  pub put_cases :
      Touches c g (put c g id off) id
      × ((offset_of c (put c g id off) id ≡ some off)
          ⊎ ((put c g id off ≡ g) × (offset_of c g id ≡ none) × (max_fill c ≤ g.used)))
  unfolding put find over new
  put_cases = elim (find_cases c g t.is_map id nz pos) [
    | inl (k, kl, here, f, o) ↦
        let h = probe_held c g.ids id cap (home c id) k f in
        let (done, own) = over-Touches k kl here in rw (h) (done, inl own)
    | inr (f, o, z) ↦
        let (e, el, ez) = free_cell c g ic t in
        let (k, kl, b, free, passed) = probe-Absent c g.ids id e (Absent-of_id c g id nz z) el ez in
        elim (Bool-cases (leb (max_fill c) g.used)) [
          | inl full ↦ rw (b, full) (Touches-self c g id t, inr (refl, o, leb→le _ _ full))
          | inr space ↦
              let (done, own) = new-Touches k kl free (ground arith) z passed in
              rw (b, space) (done, inl own)
        ]
  ]
