-- ===== src/SlotIndex/Note.antt =====
-- How an index keeps up with the appends that it is told of.
use key_value_db.Base.{
  ℕ, ◌+◌, ◌%◌, ◌^◌, ◌<◌, ◌≡◌, refl, sym, ap, ◌∙◌, ◌≢◌, inl, inr, Bool, true, false, Option, none,
  some, arith, ◌==◌, if◌then◌else◌, ==_iff, ==_refl, Bool-cases, Gives,
}
use native.Mathlib.Nat.{mod-eq_of_lt}
use mathlib.Core.Option.{none-ne-some, some-injective}
use key_value_db.SlotIndex.{
  Config, Index, on, store, find, sidx_note, sidx_lookup, hit_at, put, drop_id, max_fill,
}
use key_value_db.SlotIndex.Tally.{store_self, store_other}
use key_value_db.SlotIndex.Weight.{offset_of, offset_at}
use key_value_db.SlotIndex.Table.{IsConfig, IsTable}
use key_value_db.SlotIndex.Put.{Touches, put_cases}
use key_value_db.SlotIndex.Remove.{drop_id_lem}
use key_value_db.SlotIndex.Forget.{in_bucket_gone}
use key_value_db.SlotIndex.Track.{
  IsIndex, Tracks, renew, on_lt, off_zero, with_cursor, forget-Tracks,
}

module _ (c : Config) (ic : IsConfig c) (g : Index) where
  pub with_cursor-IsIndex :
      (bid v : ℕ) → IsIndex c g → bid < g.n_buckets → v ≢ 0 → IsIndex c (with_cursor g bid v)
  unfolding offset_of find
  with_cursor-IsIndex bid v ix bl nz =
      let t = ix.table in
      record {
        table = record {
          is_map = record { reach = t.is_map.reach; once = t.is_map.once };
          used = t.used;
          room = t.room;
          counts = t.counts;
        };
        unknown = λ b bl' z. elim (Bool-cases (bid == b)) [
          | inl e ↦ absurd (nz (sym (rw (e) refl) ∙ z))
          | inr e ↦ ix.unknown b bl' (sym (store_other g.cursor bid v b (ground arith)) ∙ z)
        ];
        disabled = λ z. absurd (omega (arith, z, bl));
      }

  -- A change of one id's entry in a bucket with a known cursor.
  pub touched-Tracks :
      (g' : Index) (id : ℕ) (ends : ℕ → ℕ) (newest : ℕ → Option ℕ)
      → IsIndex c g
      → Touches c g g' id
      → g.n_buckets ≢ 0
      → g.cursor (id % g.n_buckets) ≢ 0
      → ((b : ℕ) → b < g.n_buckets → g.cursor b ≢ 0 → g.cursor b ≡ ends b)
      → ((x o : ℕ) → x ≢ 0 → id ≢ x → offset_of c g x ≡ some o → newest x ≡ some o)
      → ((o : ℕ) → offset_of c g' id ≡ some o → newest id ≡ some o)
      → Tracks c g' ends newest
  touched-Tracks g' id ends newest ix tc nb known cur named own =
      let n : g'.n_buckets ≡ g.n_buckets = tc.same_n in
      record {
        index = record {
          table = tc.table;
          unknown = λ b bl z.
              let z' : g.cursor b ≡ 0 = sym (tc.same_cursor b) ∙ z in
              rw (n) (tc.elsewhere b (λ e. known (ap g.cursor e ∙ z')))
              ∙ ix.unknown b (rw (← n) bl) z';
          disabled = λ z. absurd (nb (sym n ∙ z));
        };
        cursors = λ b bl nz.
            let same = tc.same_cursor b in same ∙ cur b (rw (← n) bl) (λ z. nz (same ∙ z));
        names = λ x o xz e. elim (Bool-cases (id == x)) [
          | inl q ↦ let here : id ≡ x = (==_iff id x).0 q in rw (← here) (own o (rw (here) e))
          | inr q ↦ let ne : id ≢ x = ground arith in named x o xz ne (sym (tc.others x xz ne) ∙ e)
        ];
      }

-- `put` leaves the id at its new offset or nowhere.
pub put_own :
    (c : Config) (ic : IsConfig c) (g : Index) (id off : ℕ)
    → IsTable c g
    → id ≢ 0
    → (o : ℕ) → offset_of c (put c g id off) id ≡ some o
    → some off ≡ some o
put_own c ic g id off t nz o q = elim (put_cases c g ic t id off nz).1 [
  | inl own ↦ sym own ∙ q
  | inr (same, gone, _) ↦
      absurd (none-ne-some o (sym gone ∙ ap (λ (h : Index). offset_of c h id) (sym same) ∙ q))
]

module _ (c : Config) (ic : IsConfig c) (g : Index) (bid id : ℕ) (here : id % g.n_buckets ≡ bid)
    (nz : id ≢ 0) (ends : ℕ → ℕ) (newest : ℕ → Option ℕ) (tr : Tracks c g ends newest) where
  -- While the index is off it says nothing.
  off-Tracks :
      (ends' : ℕ → ℕ) (newest' : ℕ → Option ℕ) → on g bid ≡ false → Tracks c g ends' newest'
  off-Tracks ends' newest' e =
      let z = off_zero g bid id e here in
      record {
        index = tr.index;
        cursors = λ b bl. absurd (omega (arith, z, bl));
        names = λ x o xz q. absurd (none-ne-some o (sym (tr.index.disabled z x xz) ∙ q));
      }

  -- While the bucket's cursor is unknown it says nothing of the bucket.
  unknown-Tracks :
      (v : ℕ) (o : Option ℕ)
      → bid < g.n_buckets
      → g.cursor bid ≡ 0
      → Tracks c g (store ends bid v) (renew newest id o)
  unknown-Tracks v o bl z = record {
    index = tr.index;
    cursors = λ b bl' known.
        tr.cursors b bl' known
        ∙ sym (store_other ends bid v b (λ e. known (ap g.cursor (sym e) ∙ z)));
    names = λ x o' xz q. elim (Bool-cases (id == x)) [
      | inl e ↦
          let same = (==_iff id x).0 e in
          let empty = tr.index.unknown bid bl z in
          let gone = in_bucket_gone c ic g id tr.index.table nz (rw (here) empty) in
          absurd (none-ne-some o' (sym gone ∙ rw (same) q))
      | inr e ↦ rw (e) (tr.names x o' xz q)
    ];
  }

  module _ (v : ℕ) (vz : v ≢ 0) (bl : bid < g.n_buckets) where
    known : Index
    known = with_cursor g bid v

    known-Tracks :
        (g' : Index) (o : Option ℕ)
        → Touches c known g' id
        → ((o' : ℕ) → offset_of c g' id ≡ some o' → o ≡ some o')
        → Tracks c g' (store ends bid v) (renew newest id o)
    unfolding known offset_of find
    known-Tracks g' o tc own =
        touched-Tracks c ic known g' id (store ends bid v) (renew newest id o)
          (with_cursor-IsIndex c ic g bid v tr.index bl vz) tc (λ z. absurd (omega (arith, z, bl)))
          (rw (here, ==_refl bid) vz)
          (λ b bl' kn. elim (Bool-cases (bid == b)) [
            | inl e ↦ rw (e) refl
            | inr e ↦ rw (e) (tr.cursors b bl' (λ z. kn (rw (e) z)))
          ])
          (λ x o' xz ne q.
            let no : (id == x) ≡ false = ground arith in rw (no) (tr.names x o' xz q))
          (λ o' q. rw (==_refl id) (own o' q))

    known-IsTable : IsTable c known
    unfolding known
    known-IsTable = (with_cursor-IsIndex c ic g bid v tr.index bl vz).table

    noted :
        (off : ℕ) (tombstone : Bool)
        → (g' : Index) × ((if tombstone then drop_id c known id else some (put c known id off))
            ≡ some g')
          × Tracks c g' (store ends bid v) (renew newest id (if tombstone then none else some off))
    noted off true =
        let (g', run, (tc, gone)) = drop_id_lem c known ic known-IsTable id nz in
        (g', run, known-Tracks g' none tc (λ o' q. sym gone ∙ q))
    noted off false =
        let t = known-IsTable in
        (
          put c known id off,
          refl,
          known-Tracks (put c known id off) (some off) (put_cases c known ic t id off nz).0
              (put_own c ic known id off t nz),
        )

  -- When an index tracks the logs and a slot of an id of this bucket, other than 0, is noted at
  -- any offset, with its end above 0 and within 32 bits, blob_db_sidx_note ends and the index
  -- tracks the logs whose end there is the slot's end and whose newest slot of the id is this one,
  -- or none after a tombstone.
  pub note-Tracks :
      (off size : ℕ) (tombstone : Bool)
      → 0 < off + size
      → off + size < 2 ^ 32
      → Gives (sidx_note c g bid id off size tombstone) λ g'.
        Tracks c g'
          (store ends bid (off + size))
          (renew newest id (if tombstone then none else some off))
  unfolding sidx_note known
  note-Tracks off size tombstone pos fits =
      let ends' = store ends bid (off + size) in
      let newest' = renew newest id (if tombstone then none else some off) in
      elim (Bool-cases (on g bid)) [
        | inr e ↦ (g, rw (e) refl, off-Tracks ends' newest' e)
        | inl e ↦
            let bl = on_lt g bid e in
            elim (Bool-cases (g.cursor bid == 0)) [
              | inl z ↦ (g, rw (e, z) refl, unknown-Tracks (off + size) _ bl ((==_iff _ _).0 z))
              | inr z ↦ elim (Bool-cases (off == g.cursor bid)) [
                | inr m ↦
                    rw (e, z, m)
                      (let (g', run, tr', _) =
                          forget-Tracks c ic g bid ends ends' newest newest' tr bl
                            (λ b ne. store_other ends bid (off + size) b ne)
                            (λ x ne.
                              let no : (id == x) ≡ false = ground (arith, here) in rw (no) refl) in
                        (g', run, tr'))
                | inl m ↦
                    let v : (off + size) % 2 ^ 32 ≡ off + size = mod-eq_of_lt fits in
                    rw (e, z, m, v) (noted (off + size) (ground arith) bl off tombstone)
              ]
            ]
      ]

lookup_hit :
    (c : Config) (g : Index) (bid id o : ℕ)
    → bid < g.n_buckets
    → g.cursor bid ≢ 0
    → offset_of c g id ≡ some o
    → sidx_lookup c g bid id ≡ some (o, g.cursor bid)
unfolding sidx_lookup on offset_of
lookup_hit c g bid id o bl kn e =
    let on_true : on g bid ≡ true = ground arith in
    let busy : (g.cursor bid == 0) ≡ false = ground arith in
    rw (on_true, busy) (hit (find c g id) e)
  where
    hit : (r : Option ℕ) → offset_at g r ≡ some o → hit_at c g bid r ≡ some (o, g.cursor bid)
    hit none q = absurd (none-ne-some o q)
    hit (some k) q =
        ap {B = Option (ℕ × ℕ)} (λ (x : ℕ). some (x, g.cursor bid)) (some-injective (g.offs k) o q)

-- On a well-formed index that is not filled to its limit, after the append of a live slot of an id
-- other than 0 at the known cursor of an indexed bucket, with its end within 32 bits,
-- blob_db_sidx_lookup answers with the slot's offset and its end.
pub note-lookup :
    (c : Config) (ic : IsConfig c) (g : Index) (bid id off size : ℕ)
    → IsIndex c g
    → bid < g.n_buckets
    → id ≢ 0
    → off ≢ 0
    → g.cursor bid ≡ off
    → g.used < max_fill c
    → 0 < off + size
    → off + size < 2 ^ 32
    → Gives
        (sidx_note c g bid id off size false)
        λ g'. sidx_lookup c g' bid id ≡ some (off, off + size)
unfolding sidx_note on
note-lookup c ic g bid id off size ix bl nz oz cur space pos fits =
    let g₁ = with_cursor g bid (off + size) in
    let t₁ =
      (with_cursor-IsIndex c ic g bid (off + size) ix bl (λ z. absurd (omega arith))).table in
    let on_true : on g bid ≡ true = ground arith in
    let busy : (off == 0) ≡ false = ground arith in
    let v : (off + size) % 2 ^ 32 ≡ off + size = mod-eq_of_lt fits in
    let (tc, own) = put_cases c g₁ ic t₁ id off nz in
    let placed : offset_of c (put c g₁ id off) id ≡ some off = elim own [
      | inl e ↦ e
      | inr (_, _, full) ↦ absurd (omega arith)
    ] in
    let end : (put c g₁ id off).cursor bid ≡ off + size =
      tc.same_cursor bid ∙ store_self g.cursor bid (off + size) in
    let hit =
      lookup_hit c (put c g₁ id off) bid id off (rw (tc.same_n) bl)
        (λ z. absurd (omega (arith, sym end ∙ z))) placed in
    (
      put c g₁ id off,
      rw (on_true, cur, busy, ==_refl off, v) refl,
      hit ∙ ap {B = Option (ℕ × ℕ)} (λ (x : ℕ). some (off, x)) end,
    )
