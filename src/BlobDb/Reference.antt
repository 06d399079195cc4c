-- ===== src/BlobDb/Reference.antt =====
-- A small store that keeps the contract, for runs: an association list with a number of writes
-- after which it is full.
use key_value_db.Base.{
  values, ◌&&◌, ℕ, ◌+◌, ◌-◌, ◌≤◌, ◌<◌, ◌≡◌, ◌≢◌, refl, ◌⊎◌, inl, Option, none, some, List, [], ◌∷◌,
  Result, ok, err, Errno, enoent, enospc, ltb, ◌==◌, if◌then◌else◌, arith,
}
use key_value_db.BlobDb.Contract.{BlobDb, Stays, BlobReads, window, reply, IsFault, root_id}

abbrev pub Cells : Type 0
Cells = List (ℕ × Option (List ℕ))

pub record RefStore : Type 0 where
  pub cells : Cells
  pub next : ℕ
  pub room : ℕ

abbrev pub lookup : Cells → ℕ → Option (List ℕ)
lookup [] j = none
lookup ((i, p) ∷ cs) j = if j == i then p else lookup cs j

abbrev pub ref_alloc : RefStore → ℕ × RefStore
ref_alloc s =
    if ltb root_id s.next && ltb s.next (values 8)
    then (s.next, record s { next = s.next + 1 })
    else (0, s)

abbrev pub ref_update : ℕ → List ℕ → RefStore → Result (Unit {0}) × RefStore
ref_update id p s =
    if s.room == 0
    then (err enospc, s)
    else (ok tt, record s { cells = (id, some p) ∷ s.cells; room = s.room - 1 })

abbrev pub ref_delete : ℕ → RefStore → Result (Unit {0}) × RefStore
ref_delete id s = elim (lookup s.cells id) [
  | none ↦ (err enoent, s)
  | some p ↦ (ok tt, record s { cells = (id, none) ∷ s.cells })
]

pub get_reply_lem :
    (s : RefStore) (id size : ℕ)
    → (reply (lookup s.cells id) size ≡ reply (lookup s.cells id) size)
      ⊎ IsFault (reply (lookup s.cells id) size)
get_reply_lem s id size = inl refl

pub update_ok_lem :
    (id : ℕ) (p : List ℕ) (s : RefStore)
    → (ref_update id p s).0 ≡ ok tt
    → (j : ℕ)
    → lookup (ref_update id p s).1.cells j ≡ (if j == id then some p else lookup s.cells j)
update_ok_lem id p s h j = ground arith

pub update_err_lem :
    (id : ℕ) (p : List ℕ) (s : RefStore) (e : Errno)
    → (ref_update id p s).0 ≡ err e
    → (j : ℕ)
    → Stays ⊥ (lookup s.cells j) (lookup (ref_update id p s).1.cells j)
      ⊎ ((j ≡ id) × (lookup (ref_update id p s).1.cells j ≡ some p))
update_err_lem id p s e h j = inl (inl (ground arith))

pub delete_ok_lem :
    (id : ℕ) (s : RefStore)
    → (ref_delete id s).0 ≡ ok tt
    → (j : ℕ) → lookup (ref_delete id s).1.cells j ≡ (if j == id then none else lookup s.cells j)
delete_ok_lem id s h j = ground arith

pub delete_err_lem :
    (id : ℕ) (s : RefStore) (e : Errno)
    → (ref_delete id s).0 ≡ err e
    → (j : ℕ)
    → Stays ⊥ (lookup s.cells j) (lookup (ref_delete id s).1.cells j)
      ⊎ ((j ≡ id) × (lookup (ref_delete id s).1.cells j ≡ none))
delete_err_lem id s e h j = inl (inl (ground arith))

pub next-update : (id : ℕ) (p : List ℕ) (s : RefStore) → (ref_update id p s).1.next ≡ s.next
next-update id p s = ground arith

pub next-delete : (id : ℕ) (s : RefStore) → (ref_delete id s).1.next ≡ s.next
next-delete id s = ground arith

pub cells-alloc : (s : RefStore) (j : ℕ) → lookup (ref_alloc s).1.cells j ≡ lookup s.cells j
cells-alloc s j = ground arith

pub next-alloc : (s : RefStore) → s.next ≤ (ref_alloc s).1.next
next-alloc s = ground arith

pub alloc_fresh :
    (s : RefStore)
    → (ref_alloc s).0 ≢ 0
    → (root_id < (ref_alloc s).0)
      × (s.next ≤ (ref_alloc s).0)
      × ((ref_alloc s).0 < (ref_alloc s).1.next)
alloc_fresh s h = ground arith

pub alloc-lt : (s : RefStore) → (ref_alloc s).0 < values 8
alloc-lt s = ground arith

abbrev pub reference : BlobDb
reference = record {
  Store = RefStore;
  view = λ s. lookup s.cells;
  ceiling = λ s. s.next;
  Wedged = λ s. ⊥;
  alloc_id = ref_alloc;
  get = λ s id size. reply (lookup s.cells id) size;
  update = ref_update;
  delete = ref_delete;
  get_reply = get_reply_lem;
  update_ok = update_ok_lem;
  update_err = update_err_lem;
  delete_ok = delete_ok_lem;
  delete_err = delete_err_lem;
  Wedged-update = λ id p s w. w;
  Wedged-delete = λ id s w. w;
  Wedged-alloc_id = λ s w. w;
  ceiling-update = next-update;
  ceiling-delete = next-delete;
  view-alloc_id = cells-alloc;
  ceiling-alloc_id = next-alloc;
  alloc_id_fresh = alloc_fresh;
  alloc_id-lt = alloc-lt;
}

pub read_window_lem :
    (s : RefStore) (id pos n : ℕ)
    → (window (lookup s.cells id) pos n ≡ window (lookup s.cells id) pos n)
      ⊎ IsFault (window (lookup s.cells id) pos n)
read_window_lem s id pos n = inl refl

abbrev pub reference_reads : BlobReads reference
reference_reads = record {
  read = λ s id pos n. window (lookup s.cells id) pos n;
  read_window = read_window_lem;
}

-- A formatted store: the root is bound to the empty payload.
abbrev pub formatted : RefStore
formatted = record { cells = (root_id, some []) ∷ []; next = 2; room = 1000 }
