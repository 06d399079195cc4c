-- ===== src/SlotIndex/Track.antt =====
-- What the index promises of the buckets' logs: a known cursor is the log's end, and an entry names
-- the newest slot of its id.
use key_value_db.Base.{
  ℕ, ◌%◌, ◌<◌, ◌≡◌, refl, sym, ◌∙◌, ◌≢◌, inl, inr, true, false, Option, none, some, arith, ◌==◌,
  if◌then◌else◌, ==_iff, ==_refl, Bool-cases, Gives,
}
use native.Mathlib.Nat.{mod-lt}
use mathlib.Core.Option.{none-ne-some}
use key_value_db.SlotIndex.{Config, Index, on, store, find, sidx_forget}
use key_value_db.SlotIndex.Tally.{store_self, store_other}
use key_value_db.SlotIndex.Weight.{in_bucket, total, offset_of}
use key_value_db.SlotIndex.Table.{IsConfig, IsTable}
use key_value_db.SlotIndex.Forget.{Cleared, Cleared-offset_of, sweep_total}

-- A well-formed table, with no entry in a bucket whose cursor is unknown, nor while disabled.
pub record IsIndex (c : Config) (g : Index) : Type 0 where
  pub table : IsTable c g
  pub unknown : (b : ℕ) → b < g.n_buckets → g.cursor b ≡ 0 → total c g (in_bucket g.n_buckets b) ≡ 0
  pub disabled : g.n_buckets ≡ 0 → (x : ℕ) → x ≢ 0 → offset_of c g x ≡ none

-- `ends` are the true ends of the logs and `newest` the newest live slot of each id.
pub record Tracks (c : Config) (g : Index) (ends : ℕ → ℕ) (newest : ℕ → Option ℕ) : Type 0 where
  pub index : IsIndex c g
  pub cursors : (b : ℕ) → b < g.n_buckets → g.cursor b ≢ 0 → g.cursor b ≡ ends b
  pub names : (x o : ℕ) → x ≢ 0 → offset_of c g x ≡ some o → newest x ≡ some o

-- what one append makes of the newest slots
abbrev pub renew : (ℕ → Option ℕ) → ℕ → Option ℕ → ℕ → Option ℕ
renew newest id o x = if id == x then o else newest x

pub on_lt : (g : Index) (bid : ℕ) → on g bid ≡ true → bid < g.n_buckets
unfolding on
on_lt g bid e = ground arith

pub off_zero :
    (g : Index) (bid id : ℕ) → on g bid ≡ false → id % g.n_buckets ≡ bid → g.n_buckets ≡ 0
unfolding on
off_zero g bid id e h = elim (Bool-cases (g.n_buckets == 0)) [
  | inl z ↦ (==_iff g.n_buckets 0).0 z
  | inr z ↦
      let pos : 0 < g.n_buckets = ground arith in
      let l : id % g.n_buckets < g.n_buckets = mod-lt id pos in ground arith
]

abbrev pub with_cursor : Index → ℕ → ℕ → Index
with_cursor g bid v = record g { cursor = store g.cursor bid v }

module _ (c : Config) (ic : IsConfig c) (g : Index) (bid : ℕ) where
  -- blob_db_sidx_forget ends, with the bucket's cursor unknown and no entry in it.
  pub forget_run :
      IsTable c g
      → bid < g.n_buckets
      → (g' : Index) × (sidx_forget c g bid ≡ some g') × Cleared c (with_cursor g bid 0) g' bid
  unfolding sidx_forget on
  forget_run t bl =
      let t₀ : IsTable c (with_cursor g bid 0) = record {
        is_map = record { reach = t.is_map.reach; once = t.is_map.once };
        used = t.used;
        room = t.room;
        counts = t.counts;
      } in
      let on_true : on g bid ≡ true = ground arith in
      let (g', run, cl) = sweep_total c ic bid (with_cursor g bid 0) t₀ bl in
      (g', rw (on_true) run, cl)

  -- For a capacity that the 16-bit counts can hold, a well-formed table and an indexed bucket, the
  -- sweep of blob_db_sidx_forget ends within its rounds; the table stays well formed, the bucket's
  -- cursor is unknown, its ids have no entry, and the other ids keep theirs.
  pub forget_lem :
      IsTable c g
      → bid < g.n_buckets
      → Gives (sidx_forget c g bid) λ g'.
        IsTable c g'
        × (g'.cursor bid ≡ 0)
        × ((x : ℕ)
            → x ≢ 0
            → offset_of c g' x ≡ (if x % g.n_buckets == bid then none else offset_of c g x))
  unfolding offset_of find
  forget_lem t bl =
      let (g', run, cl) = forget_run t bl in
      let offsets =
        λ (x : ℕ) (nz : x ≢ 0). Cleared-offset_of c ic bid (with_cursor g bid 0) g' x cl nz in
      (g', run, (cl.table, cl.same_cursor bid ∙ store_self g.cursor bid 0, offsets))

  -- The other buckets are tracked as before, and so is this one, whatever its log holds.
  pub forget-Tracks :
      (ends ends' : ℕ → ℕ) (newest newest' : ℕ → Option ℕ)
      → Tracks c g ends newest
      → bid < g.n_buckets
      → ((b : ℕ) → bid ≢ b → ends' b ≡ ends b)
      → ((x : ℕ) → x % g.n_buckets ≢ bid → newest' x ≡ newest x)
      → (g' : Index) × (sidx_forget c g bid ≡ some g')
        × Tracks c g' ends' newest'
        × (g'.n_buckets ≡ g.n_buckets)
  unfolding offset_of find
  forget-Tracks ends ends' newest newest' tr bl he hn =
      let (g', run, cl) = forget_run tr.index.table bl in
      let n : g'.n_buckets ≡ g.n_buckets = cl.same_n in
      let gone : (x : ℕ) → x ≢ 0 → x % g.n_buckets ≡ bid → offset_of c g' x ≡ none = λ x xz e.
        Cleared-offset_of c ic bid (with_cursor g bid 0) g' x cl xz ∙ rw (e, ==_refl bid) refl in
      let index : IsIndex c g' = record {
        table = cl.table;
        unknown = λ b bl' z. elim (Bool-cases (bid == b)) [
          | inl e ↦ rw (n, ← (==_iff bid b).0 e) cl.empty
          | inr e ↦
              let ne : bid ≢ b = ground arith in
              rw (n) (cl.elsewhere b ne)
              ∙ tr.index.unknown b (rw (← n) bl')
                  (sym (cl.same_cursor b ∙ store_other g.cursor bid 0 b ne) ∙ z)
        ];
        disabled = λ z. absurd (omega (arith, n, z, bl));
      } in
      let tracked : Tracks c g' ends' newest' = record {
        index = index;
        cursors = λ b bl' nz. elim (Bool-cases (bid == b)) [
          | inl e ↦ absurd (nz (cl.same_cursor b ∙ rw (e) refl))
          | inr e ↦
              let ne : bid ≢ b = ground arith in
              let same : g'.cursor b ≡ g.cursor b =
                cl.same_cursor b ∙ store_other g.cursor bid 0 b ne in
              same ∙ tr.cursors b (rw (← n) bl') (λ z. nz (same ∙ z)) ∙ sym (he b ne)
        ];
        names = λ x o xz e. elim (Bool-cases (x % g.n_buckets == bid)) [
          | inl h ↦ absurd (none-ne-some o (sym (gone x xz ((==_iff _ _).0 h)) ∙ e))
          | inr h ↦
              let ne : x % g.n_buckets ≢ bid = ground arith in
              hn x ne ∙ tr.names x o xz (sym (cl.others x xz ne) ∙ e)
        ];
      } in
      (g', run, tracked, n)
