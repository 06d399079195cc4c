-- ===== src/SlotIndex.antt =====
-- lib/blob_db/blob_db_slot_index.c: the hash table from blob id to slot offset, open addressed with
-- linear probing and backward-shift delete, and one append cursor per bucket. A C array is a
-- function of its index; `& (CAP - 1)` is `% cap`, as CAP is a power of two.
pub mod Cyclic
pub mod Tally
pub mod Probe
pub mod Gap
pub mod Weight
pub mod Table
pub mod Put
pub mod Remove
pub mod Forget
pub mod Track
pub mod Note
pub mod Learn
pub mod Start
pub mod Tests
use key_value_db.Base.{
  ℕ, zero, suc, ◌+◌, ◌-◌, ◌*◌, ◌/◌, ◌%◌, ◌^◌, ◌≤◌, ◌<◌, min, ◌≡◌, refl, sym, ap, ap₂, ◌∙◌, ◌≢◌, ◌↔◌,
  ◌⊎◌, inl, inr, Bool, true, false, not, ◌&&◌, ◌||◌, Option, none, some, List, [], ◌∷◌, ◌++◌, map,
  arith, ltb, leb, ◌==◌, if◌then◌else◌, ltb→lt, ltb→le, leb→le, ==_iff, ==_refl, Bool-cases,
  Option-cases, length, get_or, set, take, drop, replicate, All, length-append, length-set,
  length-take, length-drop, length-replicate, get_or-set_self, get_or-set_ne, take-append_self,
  drop-append_self, take_self, drop-nil, drop-drop, drop-append, take-append, take-append_right,
  values, le_bytes, of_le, int_at, length-le_bytes, of_le-le_bytes, int_at-le_bytes, take-le_bytes,
  drop-le_bytes, Errno, enoent, eio, enomem, eexist, einval, enospc, enotsup, enodev, emsgsize,
  estale, enodata, ebadmsg, is_ebadmsg, code, Result, ok, err, is_enoent, is_enospc, Exec, continue,
  ◌>>=◌, ◌>>◌, return, fail, lift, Result-cases,
}

-- CONFIG_BLOB_DB_SLOT_INDEX_ENTRIES and CONFIG_BLOB_DB_SLOT_INDEX_MAX_BUCKETS
pub record Config : Type 0 where
  pub cap : ℕ
  pub max_bkt : ℕ

pub record Index : Type 0 where
  pub ids : ℕ → ℕ
  pub offs : ℕ → ℕ
  pub used : ℕ
  pub cursor : ℕ → ℕ
  pub bcnt : ℕ → ℕ
  pub n_buckets : ℕ

abbrev pub Cells : Type 0
Cells = (ℕ → ℕ) × (ℕ → ℕ)

-- a[i] = v
abbrev pub store : (ℕ → ℕ) → ℕ → ℕ → ℕ → ℕ
store a i v j = if i == j then v else a j

-- a 16-bit and a 32-bit `++` and `--`
abbrev pub inc : ℕ → ℕ → ℕ
inc w x = (x + 1) % 2 ^ w

abbrev pub dec : ℕ → ℕ → ℕ
dec w x = (x + (2 ^ w - 1)) % 2 ^ w

unfoldable pub bucket_of : Index → ℕ → ℕ
bucket_of g id = id % g.n_buckets

unfoldable pub on : Index → ℕ → Bool
on g bid = not (g.n_buckets == 0) && ltb bid g.n_buckets

-- where a probe ends: on the id's cell, or on a cell to break at
pub data Stop : Type 0 where
  held broke : ℕ → Stop

abbrev pub and_then : {A : Type 0} → Option A → (A → Option A) → Option A
and_then none f = none
and_then (some a) f = f a

module _ (c : Config) where
  open c use {cap, max_bkt}

  unfoldable pub max_fill : ℕ
  max_fill = cap - cap / 8

  unfoldable pub home : ℕ → ℕ
  home id = id * 0x9e3779b97f4a7c15 % 2 ^ 64 / 2 ^ 32 % 2 ^ 32 % cap

  abbrev pub next : ℕ → ℕ
  next i = (i + 1) % cap

  -- `find`'s loop with n rounds left, at cell i
  unfoldable pub find_from : (ℕ → ℕ) → ℕ → ℕ → ℕ → Option ℕ
  find_from ids id zero i = none
  find_from ids id (suc n) i =
      let rest = find_from ids id n (next i) in
      if ids i == id then some i else if ids i == 0 then none else rest

  unfoldable pub find : Index → ℕ → Option ℕ
  find g id = find_from g.ids id cap (home id)

  unfoldable pub stays : ℕ → ℕ → ℕ → Bool
  stays i j h = if leb i j then ltb i h && leb h j else ltb i h || leb h j

  -- `remove_at`'s loop, whose hole is i, after cell j; none when the rounds run out
  unfoldable pub close_gap : ℕ → (ids offs : ℕ → ℕ) → ℕ → ℕ → Option Cells
  close_gap zero ids offs i j0 = none
  close_gap (suc n) ids offs i j0 =
      let j = next j0 in
      elim (ids j == 0) [
        | true ↦ some (ids, offs)
        | false ↦ elim (stays i j (home (ids j))) [
          | true ↦ close_gap n ids offs i j
          | false ↦ close_gap n (store (store ids i (ids j)) j 0) (store offs i (offs j)) j j
        ]
      ]

  abbrev pub with_cells : Index → Option Cells → Option Index
  with_cells g none = none
  with_cells g (some (ids, offs)) = some (record g { ids = ids; offs = offs })

  unfoldable pub remove_at : Index → ℕ → Option Index
  remove_at g i =
      let b = bucket_of g (g.ids i) in
      with_cells (record g { used = dec 32 g.used; bcnt = store g.bcnt b (dec 16 (g.bcnt b)) })
        (close_gap cap (store g.ids i 0) g.offs i i)

  -- `put`'s loop
  unfoldable pub probe : (ℕ → ℕ) → ℕ → ℕ → ℕ → Stop
  probe ids id zero i = broke i
  probe ids id (suc n) i =
      let rest = probe ids id n (next i) in
      if ids i == id then held i else if ids i == 0 then broke i else rest

  abbrev pub put_at : Index → ℕ → ℕ → Stop → Index
  put_at g id off (held i) = record g { offs = store g.offs i off }
  put_at g id off (broke i) =
      let b = bucket_of g id in
      if leb max_fill g.used then g else record g {
        ids = store g.ids i id;
        offs = store g.offs i off;
        used = inc 32 g.used;
        bcnt = store g.bcnt b (inc 16 (g.bcnt b));
      }

  unfoldable pub put : Index → ℕ → ℕ → Index
  put g id off = put_at g id off (probe g.ids id cap (home id))

  abbrev pub drop_at : Index → Option ℕ → Option Index
  drop_at g none = some g
  drop_at g (some i) = remove_at g i

  unfoldable pub drop_id : Index → ℕ → Option Index
  drop_id g id = drop_at g (find g id)

  unfoldable pub sidx_reset : ℕ → Index
  sidx_reset n_buckets = record {
    ids = λ _. 0;
    offs = λ _. 0;
    used = 0;
    cursor = λ _. 0;
    bcnt = λ _. 0;
    n_buckets = if ltb max_bkt n_buckets then 0 else n_buckets;
  }

  -- blob_db_sidx_disable
  unfoldable pub sidx_disable : Index
  sidx_disable = sidx_reset 0

  -- the sweep of blob_db_sidx_forget from cell i on; none when the rounds run out
  unfoldable pub sweep : ℕ → Index → ℕ → ℕ → Option Index
  sweep zero g bid i = none
  sweep (suc n) g bid i = elim (ltb i cap && not (g.bcnt bid == 0)) [
    | false ↦ some g
    | true ↦ elim (not (g.ids i == 0) && (bucket_of g (g.ids i) == bid)) [
      | false ↦ sweep n g bid (i + 1)
      | true ↦ and_then (remove_at g i) λ g'. sweep n g' bid i
    ]
  ]

  -- blob_db_sidx_forget: each round removes a cell or goes on to the next, so 2 * cap + 1 do
  unfoldable pub sidx_forget : Index → ℕ → Option Index
  sidx_forget g bid =
      if on g bid
      then sweep (2 * cap + 1) (record g { cursor = store g.cursor bid 0 }) bid 0
      else some g

  unfoldable pub sidx_begin : Index → ℕ → ℕ → Option Index
  sidx_begin g bid data_off =
      if on g bid
      then and_then (sidx_forget g bid)
          (λ g'. some (record g' { cursor = store g'.cursor bid data_off }))
      else some g

  unfoldable pub sidx_note : Index → ℕ → ℕ → ℕ → ℕ → Bool → Option Index
  sidx_note g bid id off size tombstone =
      let known = record g { cursor = store g.cursor bid ((off + size) % 2 ^ 32) } in
      if not (on g bid) || (g.cursor bid == 0)
      then some g
      else if not (off == g.cursor bid)
      then sidx_forget g bid
      else if tombstone
      then drop_id known id
      else some (put known id off)

  abbrev pub learn_at : Index → ℕ → Option ℕ → Index
  learn_at g id none = g
  learn_at g id (some off) = put g id off

  -- a negative `off` is none
  unfoldable pub sidx_learn : Index → ℕ → ℕ → Option ℕ → ℕ → Option Index
  sidx_learn g bid id off cursor =
      let learnt = record g { cursor = store g.cursor bid cursor } in
      if not (on g bid) || (cursor == 0)
      then some g
      else if g.cursor bid == 0
      then some (learn_at learnt id off)
      else if not (g.cursor bid == cursor)
      then sidx_forget g bid
      else some (learn_at g id off)

  abbrev pub hit_at : Index → ℕ → Option ℕ → Option (ℕ × ℕ)
  hit_at g bid none = none
  hit_at g bid (some i) = some (g.offs i, g.cursor bid)

  -- the offset and the cursor that the call hands out, when it returns true
  unfoldable pub sidx_lookup : Index → ℕ → ℕ → Option (ℕ × ℕ)
  sidx_lookup g bid id =
      if not (on g bid) || (g.cursor bid == 0) then none else hit_at g bid (find g id)

  unfoldable pub sidx_cursor : Index → ℕ → Option ℕ
  sidx_cursor g bid = if not (on g bid) || (g.cursor bid == 0) then none else some (g.cursor bid)

  unfoldable pub sidx_usage : Index → ℕ × ℕ
  sidx_usage g = (g.used, max_fill)
