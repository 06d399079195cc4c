-- ===== src/SlotIndex/Forget.antt =====
-- What blob_db_sidx_forget makes of a well-formed table: its sweep ends, and the bucket has no entry.
use key_value_db.Base.{
  ℕ, zero, suc, ◌+◌, ◌-◌, ◌*◌, ◌%◌, ◌≤◌, ◌<◌, ◌≡◌, refl, sym, ap, ◌∙◌, ◌≢◌, ◌⊎◌, inl, inr, Bool,
  true, false, not, ◌&&◌, none, some, arith, ltb, ◌==◌, if◌then◌else◌, ==_iff, ==_refl, Bool-cases,
}
use key_value_db.SlotIndex.{Config, Index, bucket_of, sweep}
use key_value_db.SlotIndex.Tally.{tally_zero, tally-le}
use key_value_db.SlotIndex.Weight.{in_bucket, in_bucket_self, total, find_cases, offset_of}
use key_value_db.SlotIndex.Table.{IsConfig, IsTable, max_fill-lt}
use key_value_db.SlotIndex.Remove.{Removed, remove_at_lem}

-- The bucket's entries are gone, and the other buckets' are not.
pub record Cleared (c : Config) (g g' : Index) (bid : ℕ) : Type 0 where
  pub table : IsTable c g'
  pub same_n : g'.n_buckets ≡ g.n_buckets
  pub same_cursor : (b : ℕ) → g'.cursor b ≡ g.cursor b
  pub empty : total c g' (in_bucket g.n_buckets bid) ≡ 0
  pub others : (x : ℕ) → x ≢ 0 → x % g.n_buckets ≢ bid → offset_of c g' x ≡ offset_of c g x
  pub elsewhere :
      (b : ℕ) → bid ≢ b → total c g' (in_bucket g.n_buckets b) ≡ total c g (in_bucket g.n_buckets b)

sweep_ends : (i cap n : ℕ) → (ltb i cap && not (n == 0)) ≡ false → (cap ≤ i) ⊎ (n ≡ 0)
sweep_ends i cap n e = ground arith

sweep_goes : (i cap n : ℕ) → (ltb i cap && not (n == 0)) ≡ true → i < cap
sweep_goes i cap n e = ground arith

-- no entry of the bucket
outside : ℕ → ℕ → ℕ → Bool
outside n bid id = not (not (id == 0) && (id % n == bid))

outside_false :
    (n bid id : ℕ) → (not (id == 0) && (id % n == bid)) ≡ true → (id ≢ 0) × (id % n ≡ bid)
outside_false n bid id e = ground arith

outside_step :
    (ids : ℕ → ℕ) (n bid i : ℕ)
    → ((m : ℕ) → m < i → outside n bid (ids m) ≡ true)
    → (not (ids i == 0) && (ids i % n == bid)) ≡ false
    → (m : ℕ) → m < i + 1
    → outside n bid (ids m) ≡ true
unfolding outside
outside_step ids n bid i out o m l = elim (Bool-cases (m == i)) [
  | inl e ↦ rw ((==_iff m i).0 e, o) refl
  | inr e ↦ out m (ground arith)
]

outside_zero : (n bid : ℕ) → outside n bid 0 ≡ true
unfolding outside
outside_zero n bid = refl

module _ (c : Config) (ic : IsConfig c) (bid : ℕ) where
  open c use {cap}

  pub Cleared-done :
      (g : Index) → IsTable c g → total c g (in_bucket g.n_buckets bid) ≡ 0 → Cleared c g g bid
  Cleared-done g t z = record {
    table = t;
    same_n = refl;
    same_cursor = λ b. refl;
    empty = z;
    others = λ x xz ne. refl;
    elsewhere = λ b ne. refl;
  }

  outside-total :
      (g : Index) (i : ℕ)
      → cap ≤ i
      → ((m : ℕ) → m < i → outside g.n_buckets bid (g.ids m) ≡ true)
      → total c g (in_bucket g.n_buckets bid) ≡ 0
  unfolding outside in_bucket
  outside-total g i ci out =
      tally_zero _ g.ids g.offs cap (λ m l. ground (arith, out m (omega arith)))

  Cleared-after :
      (g g₁ g' : Index) (i : ℕ)
      → g.ids i % g.n_buckets ≡ bid
      → Removed c g g₁ i
      → Cleared c g₁ g' bid
      → Cleared c g g' bid
  Cleared-after g g₁ g' i here r cl =
      let n : g₁.n_buckets ≡ g.n_buckets = r.touches.same_n in
      record {
        table = cl.table;
        same_n = cl.same_n ∙ n;
        same_cursor = λ b. cl.same_cursor b ∙ r.touches.same_cursor b;
        empty = rw (← n) cl.empty;
        others = λ x xz ne.
            cl.others x xz (rw (n) ne)
            ∙ r.touches.others x xz (λ e. ne (ap (λ (y : ℕ). y % g.n_buckets) (sym e) ∙ here));
        elsewhere = λ b ne.
            let rest : total c g' (in_bucket g.n_buckets b) ≡ total c g₁ (in_bucket g.n_buckets b) =
              rw (← n) (cl.elsewhere b ne) in
            rest ∙ r.touches.elsewhere b (λ e. ne (sym here ∙ e));
      }

  sweep_lem :
      (n : ℕ) (g : Index) (i : ℕ)
      → IsTable c g
      → bid < g.n_buckets
      → ((m : ℕ) → m < i → outside g.n_buckets bid (g.ids m) ≡ true)
      → cap - i + g.used < n
      → (g' : Index) × (sweep c n g bid i ≡ some g') × Cleared c g g' bid
  unfolding sweep bucket_of outside
  sweep_lem zero g i t bl out le = absurd (omega arith)
  sweep_lem (suc n) g i t bl out le = elim (Bool-cases (ltb i cap && not (g.bcnt bid == 0))) [
    | inr e ↦
        let z : total c g (in_bucket g.n_buckets bid) ≡ 0 = elim (sweep_ends i cap (g.bcnt bid) e) [
          | inl end ↦ outside-total g i end out
          | inr idle ↦ sym (t.counts bid bl) ∙ idle
        ] in
        (g, rw (sweep, e) refl, Cleared-done g t z)
    | inl e ↦
        let il = sweep_goes i cap (g.bcnt bid) e in
        elim (Bool-cases (not (g.ids i == 0) && (g.ids i % g.n_buckets == bid))) [
          | inr o ↦
              let (g', run, cl) =
                sweep_lem n g (i + 1) t bl (outside_step g.ids g.n_buckets bid i out o)
                  (omega arith) in
              (g', rw (sweep, e, o) run, cl)
          | inl o ↦
              let (iu, here) = outside_false g.n_buckets bid (g.ids i) o in
              let (g₁, run₁, r) = remove_at_lem c g ic t i il iu in
              let same = r.touches.same_n in
              let out₁ = r.below (outside g.n_buckets bid) (outside_zero g.n_buckets bid) out in
              let (g', run, cl) =
                sweep_lem n g₁ i r.touches.table (rw (same) bl) (rw (same) out₁)
                  (omega (arith, r.fewer)) in
              (g', rw (sweep, e, o, run₁) run, Cleared-after g g₁ g' i here r cl)
        ]
  ]

  -- The rounds that blob_db_sidx_forget has are enough.
  pub sweep_total :
      (g : Index)
      → IsTable c g
      → bid < g.n_buckets
      → (g' : Index) × (sweep c (2 * cap + 1) g bid 0 ≡ some g') × Cleared c g g' bid
  sweep_total g t bl =
      sweep_lem (2 * cap + 1) g 0 t bl (λ m l. absurd (omega arith))
        (omega (arith, t.room, max_fill-lt c ic))

  pub Cleared-offset_of :
      (g g' : Index) (x : ℕ)
      → Cleared c g g' bid
      → x ≢ 0
      → offset_of c g' x ≡ (if x % g.n_buckets == bid then none else offset_of c g x)
  Cleared-offset_of g g' x cl nz = elim (Bool-cases (x % g.n_buckets == bid)) [
    | inr e ↦ rw (e) (cl.others x nz (ground arith))
    | inl e ↦
        let here = (==_iff (x % g.n_buckets) bid).0 e in
        elim (find_cases c g' cl.table.is_map x nz (omega (arith, ic.cells))) [
          | inr (_, o, _) ↦ rw (e) o
          | inl (k, kl, at_k, _, _) ↦
              let w = in_bucket g.n_buckets bid in
              let one : w (g'.ids k) (g'.offs k) ≡ 1 =
                rw (at_k) (in_bucket_self g.n_buckets bid x (g'.offs k) nz here) in
              absurd (omega (arith, tally-le w g'.ids g'.offs cap k kl, one, cl.empty))
        ]
  ]

-- An id of a bucket without entries has none.
pub in_bucket_gone :
    (c : Config) (ic : IsConfig c) (g : Index) (x : ℕ)
    → IsTable c g
    → x ≢ 0
    → total c g (in_bucket g.n_buckets (x % g.n_buckets)) ≡ 0
    → offset_of c g x ≡ none
in_bucket_gone c ic g x t nz z =
    Cleared-offset_of c ic (x % g.n_buckets) g g x (Cleared-done c ic (x % g.n_buckets) g t z) nz
    ∙ rw (==_refl (x % g.n_buckets)) refl
