-- ===== src/SlotIndex/Tests.antt =====
-- A table of eight cells over two buckets, run by hand, and the properties at it.
use key_value_db.Base.{
  ℕ, suc, ◌+◌, ◌%◌, ◌<◌, ◌≡◌, refl, sym, ◌∙◌, ◌≢◌, true, false, Option, none, some, arith, ◌==◌,
  if◌then◌else◌, Gives,
}
use mathlib.Core.Option.{some-injective}
use mathlib.Core.Path.{subst}
use key_value_db.SlotIndex.{
  Config, Index, on, store, find, find_from, home, probe, put, bucket_of, max_fill, drop_id, sweep,
  sidx_reset, sidx_forget, sidx_begin, sidx_note, sidx_learn, sidx_lookup, sidx_usage,
}
use key_value_db.SlotIndex.Weight.{offset_of}
use key_value_db.SlotIndex.Table.{IsConfig, IsTable}
use key_value_db.SlotIndex.Put.{Touches}
use key_value_db.SlotIndex.Remove.{drop_id_lem}
use key_value_db.SlotIndex.Track.{Tracks, renew, forget_lem}
use key_value_db.SlotIndex.Note.{note-Tracks, note-lookup}
use key_value_db.SlotIndex.Learn.{learn-Tracks, lookup-newest}
use key_value_db.SlotIndex.Start.{reset-Tracks, begin-Tracks}

abbrev eight : Config
eight = record { cap = 8; max_bkt = 4 }

eight-IsConfig : IsConfig eight
eight-IsConfig = record { cells = omega arith; counted = omega arith }

abbrev got : Index → Option Index → Index
got g none = g
got g (some g') = g'

Gives_at : {P : Index → Type 0} (r : Option Index) (g : Index) → r ≡ some g → Gives r P → P g
Gives_at {P} r g e (g', run, p) = subst P (some-injective g' g (sym run ∙ e)) p

-- the logs' ends and the newest slots as the test goes
abbrev no_ends : ℕ → ℕ
no_ends _ = 0

abbrev no_slots : ℕ → Option ℕ
no_slots _ = none

abbrev fresh : Index
fresh = sidx_reset eight 2

-- bucket 0 is formatted
begun : Index
begun = got fresh (sidx_begin eight fresh 0 24)

-- id 4 has a slot of 16 bytes in it, and then id 6
noted : Index
noted = got begun (sidx_note eight begun 0 4 24 16 false)

full : Index
full = got noted (sidx_note eight noted 0 6 40 16 false)

begun_run : sidx_begin eight fresh 0 24 ≡ some begun
unfolding begun sidx_begin sidx_forget sweep sidx_reset on
begun_run = refl

noted_run : sidx_note eight begun 0 4 24 16 false ≡ some noted
unfolding begun noted sidx_begin sidx_note sidx_forget sweep sidx_reset on
noted_run = refl

full_run : sidx_note eight noted 0 6 40 16 false ≡ some full
unfolding full begun noted sidx_begin sidx_note sidx_forget sweep sidx_reset on put probe max_fill
    home bucket_of
full_run = refl

fresh-Tracks : Tracks eight fresh no_ends no_slots
fresh-Tracks = reset-Tracks eight 2 no_ends no_slots eight-IsConfig

abbrev slots₀ : ℕ → Option ℕ
slots₀ x = if x % fresh.n_buckets == 0 then none else no_slots x

-- Both buckets are indexed; the first one's log ends at 40, with room in the table.
fresh_n : fresh.n_buckets ≡ 2
unfolding sidx_reset
fresh_n = refl

begun_n : begun.n_buckets ≡ 2
unfolding begun sidx_begin sidx_forget sweep sidx_reset on
begun_n = refl

noted_state : (noted.n_buckets ≡ 2) × (noted.cursor 0 ≡ 40) × (noted.used ≡ 1)
unfolding begun noted sidx_begin sidx_note sidx_forget sweep sidx_reset on put probe max_fill home
    bucket_of
noted_state = (refl, refl, refl)

space : noted.used < max_fill eight
unfolding max_fill
space = omega (arith, noted_state.2)

noted_hit : sidx_lookup eight noted 0 4 ≡ some (24, 40)
unfolding begun noted sidx_begin sidx_note sidx_lookup sidx_forget sweep sidx_reset on put probe
    max_fill home bucket_of find find_from
noted_hit = refl

usage : sidx_usage eight full ≡ (2, 7)
unfolding full begun noted sidx_begin sidx_note sidx_usage sidx_forget sweep sidx_reset on put probe
    max_fill home bucket_of
usage = refl

begun-Tracks : Tracks eight begun (store no_ends 0 24) slots₀
begun-Tracks = Gives_at (sidx_begin eight fresh 0 24) begun begun_run (
    begin-Tracks eight eight-IsConfig fresh 0 no_ends no_slots 24 fresh-Tracks
      (omega (arith, fresh_n)) (λ e. absurd (omega arith)))

abbrev ends : ℕ → ℕ
ends = store (store no_ends 0 24) 0 (24 + 16)

abbrev newest : ℕ → Option ℕ
newest = renew slots₀ 4 (some 24)

noted-Tracks : Tracks eight noted ends newest
noted-Tracks = Gives_at (sidx_note eight begun 0 4 24 16 false) noted noted_run (
    note-Tracks eight eight-IsConfig begun 0 4 (rw (begun_n) refl) (λ e. absurd (omega arith))
      (store no_ends 0 24) slots₀ begun-Tracks 24 16 false (omega arith) (omega arith))

nonzero : (n : ℕ) → suc n ≢ 0
nonzero n e = absurd (omega arith)

noted_n : noted.n_buckets ≡ 2
noted_n = noted_state.0

begin-Tracks_example : Gives (sidx_begin eight noted 1 24) λ g'.
    Tracks eight g' (store ends 1 24) (λ x. if x % noted.n_buckets == 1 then none else newest x)
begin-Tracks_example =
    begin-Tracks eight eight-IsConfig noted 1 ends newest 24 noted-Tracks (omega (arith, noted_n))
      (nonzero 23)

note-Tracks_example :
    Gives
      (sidx_note eight noted 0 4 40 16 true)
      λ g'. Tracks eight g' (store ends 0 (40 + 16)) (renew newest 4 none)
note-Tracks_example =
    note-Tracks eight eight-IsConfig noted 0 4 (rw (noted_n) refl) (nonzero 3) ends newest
      noted-Tracks 40 16 true (omega arith) (omega arith)

learn-Tracks_example :
    Gives (sidx_learn eight noted 0 4 (some 24) (ends 0)) λ g'. Tracks eight g' ends newest
learn-Tracks_example =
    learn-Tracks eight eight-IsConfig noted 0 4 (rw (noted_n) refl) (nonzero 3) ends newest
      noted-Tracks (some 24) (λ o e. e)

lookup-newest_example : (newest 4 ≡ some 24) × (ends 0 ≡ 40)
lookup-newest_example =
    lookup-newest eight noted ends newest 0 4 24 40 noted-Tracks (nonzero 3) noted_hit

note-lookup_example :
    Gives
      (sidx_note eight noted 0 6 40 16 false)
      λ g'. sidx_lookup eight g' 0 6 ≡ some (40, 40 + 16)
note-lookup_example =
    note-lookup eight eight-IsConfig noted 0 6 40 16 noted-Tracks.index (omega (arith, noted_n))
      (nonzero 5) (nonzero 39) noted_state.1 space (omega arith) (omega arith)

forget_example : Gives (sidx_forget eight noted 0) λ g'.
    IsTable eight g'
    × (g'.cursor 0 ≡ 0)
    × ((x : ℕ)
        → x ≢ 0
        → offset_of eight g' x
          ≡ (if x % noted.n_buckets == 0 then none else offset_of eight noted x))
forget_example =
    forget_lem eight eight-IsConfig noted 0 noted-Tracks.index.table (omega (arith, noted_n))

drop_id_example :
    Gives (drop_id eight noted 4) λ g'. Touches eight noted g' 4 × (offset_of eight g' 4 ≡ none)
drop_id_example = drop_id_lem eight noted eight-IsConfig noted-Tracks.index.table 4 (nonzero 3)
