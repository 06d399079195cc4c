-- ===== src/SlotIndex/Start.antt =====
-- The index after a reset, and a bucket's start.
use key_value_db.Base.{
  ℕ, ◌%◌, ◌<◌, ◌≡◌, refl, sym, ◌∙◌, ◌≢◌, inl, inr, true, false, Option, none, arith, ◌==◌,
  if◌then◌else◌, Bool-cases, Gives,
}
use mathlib.Core.Option.{none-ne-some}
use key_value_db.SlotIndex.{Config, Index, on, store, find, sidx_reset, sidx_begin}
use key_value_db.SlotIndex.Tally.{store_other, tally_zero, Weighs}
use key_value_db.SlotIndex.Weight.{
  in_use, of_id, of_id-Weighs, in_use-Weighs, in_bucket-Weighs, offset_of_absent, total, offset_of,
}
use key_value_db.SlotIndex.Table.{IsConfig, IsTable}
use key_value_db.SlotIndex.Track.{Tracks, forget-Tracks, with_cursor}
use key_value_db.SlotIndex.Note.{with_cursor-IsIndex}

zero_total : (c : Config) (n : ℕ) (w : ℕ → ℕ → ℕ) → Weighs w → total c (sidx_reset c n) w ≡ 0
unfolding sidx_reset
zero_total c n w wz = tally_zero w (λ _. 0) (λ _. 0) c.cap (λ m l. wz 0)

reset_cursor : (c : Config) (n b : ℕ) → (sidx_reset c n).cursor b ≡ 0
unfolding sidx_reset
reset_cursor c n b = refl

reset-IsTable : (c : Config) (n : ℕ) → IsConfig c → IsTable c (sidx_reset c n)
unfolding sidx_reset
reset-IsTable c n ic = record {
  is_map = record {
    reach = λ m k ml kl used. absurd (used refl);
    once = λ x. omega (arith, zero_total c n (of_id x) (of_id-Weighs x));
  };
  used = sym (zero_total c n in_use in_use-Weighs);
  room = omega arith;
  counts = λ b bl. sym (zero_total c n _ (in_bucket-Weighs _ b));
}

reset-offset_of :
    (c : Config) (n : ℕ) → IsConfig c → (x : ℕ) → x ≢ 0 → offset_of c (sidx_reset c n) x ≡ none
reset-offset_of c n ic x nz =
    (offset_of_absent c (sidx_reset c n) (reset-IsTable c n ic).is_map x nz
      (omega (arith, ic.cells)) (zero_total c n (of_id x) (of_id-Weighs x))).1

-- For a capacity that the 16-bit counts can hold, the index after blob_db_sidx_reset is well
-- formed and tracks any logs.
pub reset-Tracks :
    (c : Config) (n : ℕ) (ends : ℕ → ℕ) (newest : ℕ → Option ℕ)
    → IsConfig c
    → Tracks c (sidx_reset c n) ends newest
reset-Tracks c n ends newest ic = record {
  index = record {
    table = reset-IsTable c n ic;
    unknown = λ b bl z. zero_total c n _ (in_bucket-Weighs _ b);
    disabled = λ z x nz. reset-offset_of c n ic x nz;
  };
  cursors = λ b bl nz. absurd (nz (reset_cursor c n b));
  names = λ x o nz e. absurd (none-ne-some o (sym (reset-offset_of c n ic x nz) ∙ e));
}

module _ (c : Config) (ic : IsConfig c) (g : Index) (bid : ℕ) where
  -- When an index tracks the logs, blob_db_sidx_begin of an indexed bucket at an offset other than
  -- 0 ends, and the index tracks the logs in which this bucket ends at the offset and holds no
  -- slot.
  pub begin-Tracks :
      (ends : ℕ → ℕ) (newest : ℕ → Option ℕ) (data_off : ℕ)
      → Tracks c g ends newest
      → bid < g.n_buckets
      → data_off ≢ 0
      → Gives (sidx_begin c g bid data_off) λ g'.
        Tracks c g'
          (store ends bid data_off)
          (λ x. if x % g.n_buckets == bid then none else newest x)
  unfolding sidx_begin on offset_of find
  begin-Tracks ends newest data_off tr bl nz =
      let ends' = store ends bid data_off in
      let newest' : ℕ → Option ℕ = λ x. if x % g.n_buckets == bid then none else newest x in
      let (g', run, tr', n) =
        forget-Tracks c ic g bid ends ends' newest newest' tr bl
          (λ b ne. store_other ends bid data_off b ne)
          (λ x ne. let no : (x % g.n_buckets == bid) ≡ false = ground arith in rw (no) refl) in
      let on_true : on g bid ≡ true = ground arith in
      (
        with_cursor g' bid data_off,
        rw (on_true, run) refl,
        record {
          index = with_cursor-IsIndex c ic g' bid data_off tr'.index (rw (n) bl) nz;
          cursors = λ b bl' kn. elim (Bool-cases (bid == b)) [
            | inl e ↦ rw (e) refl
            | inr e ↦
                let same = store_other g'.cursor bid data_off b (ground arith) in
                same ∙ tr'.cursors b bl' (λ z. kn (same ∙ z))
          ];
          names = λ x o xz e. tr'.names x o xz e;
        },
      )
