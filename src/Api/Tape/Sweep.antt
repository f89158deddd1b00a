-- ===== src/Api/Tape/Sweep.antt =====
-- The loop of `read_tape` over the rows of a page, on the keyspace: what it shows, and what it
-- sweeps off the tape.
use mathlib.Core.Option
use s3p_tape_service.Prelude.{
  ℕ, ◌<◌, ◌≡◌, ◌≢◌, refl, sym, ◌∙◌, Bool, true, Option, none, List, [], ◌∷◌, ◌++◌, map,
  if◌then◌else◌, arith, All, Bool-cases, inl, inr, contains, append_assoc, append-nil,
}
use s3p_tape_service.Prelude.Dict.{Dict, get}
use s3p_tape_service.Prelude.Text.{Text, text_eq_refl}
use s3p_tape_service.Action.{for_map}
use s3p_tape_service.Keys.{channel_for, entries_key}
use s3p_tape_service.Redis.{Keyspace, reference}
use s3p_tape_service.Redis.Command
use s3p_tape_service.Stdlib.{Stdlib}
use s3p_tape_service.Database.{Database, DocumentRow}
use s3p_tape_service.Store.Events.{make_tape_entry_removed}
use s3p_tape_service.Store.Tape.View.{Tape, rows, has_doc, remove_doc, IsTape, put_zset, Holds}
use s3p_tape_service.Store.Tape.Operations.{remove_doc-IsTape, has_doc-remove_doc}
use s3p_tape_service.Store.Tape.Laws.{remove_entry-tape}
use s3p_tape_service.Api.Roles.{RoleRef}
use s3p_tape_service.Api.Pages.{TapeItem, item_of}
use s3p_tape_service.Api.Tape.{drop_entry, show_row}

-- The tape without the documents of the rows that `swept` names.
abbrev pub without : (ℕ → Bool) → Tape → Tape → Tape
without swept [] t = t
without swept ((p, d) ∷ z) t = without swept z (if swept d then remove_doc d t else t)

pub without-IsTape : (swept : ℕ → Bool) (z t : Tape) → IsTape t → IsTape (without swept z t)
without-IsTape swept [] t h = h
without-IsTape swept ((p, d) ∷ z) t h = elim (Bool-cases (swept d)) [
  | inl out ↦ rw out (without-IsTape swept z (remove_doc d t) (remove_doc-IsTape d t h))
  | inr stays ↦ rw stays (without-IsTape swept z t h)
]

-- What the loop shows of a row.
abbrev pub shown :
    (ℕ → Bool) → (ℕ → Option DocumentRow) → Text → Dict (List RoleRef) → ℕ × ℕ → Option TapeItem
shown swept row_of mode roles (p, d) =
    if swept d then none else Option.map (item_of mode roles p) (row_of d)

module _ (lib : Stdlib) (now u : ℕ) where
  -- The frames that tell of the rows that `swept` names.
  abbrev pub removed_frames : (ℕ → Bool) → Tape → List Text
  removed_frames swept [] = []
  removed_frames swept ((p, d) ∷ z) =
      if swept d
      then lib.dumps (make_tape_entry_removed lib now u d) ∷ removed_frames swept z
      else removed_frames swept z

  -- The keyspace after a document was taken off the tape `t` and the clients were told.
  abbrev taken_off : ℕ → Tape → Keyspace → Keyspace
  taken_off d t s =
      (Command.publish (channel_for u) (lib.dumps (make_tape_entry_removed lib now u d))
        (put_zset s u (rows (remove_doc d t)))).0

  abbrev pub sweep : (ℕ → Bool) → Tape → Tape → Keyspace → Keyspace
  sweep swept [] t s = s
  sweep swept ((p, d) ∷ z) t s =
      if swept d then sweep swept z (remove_doc d t) (taken_off d t s) else sweep swept z t s

  pub sweep-Holds :
      (swept : ℕ → Bool) (z t : Tape) (s : Keyspace)
      → Holds s u t
      → Holds (sweep swept z t s) u (without swept z t)
  sweep-Holds swept [] t s h = h
  sweep-Holds swept ((p, d) ∷ z) t s h = elim (Bool-cases (swept d)) [
    | inl out ↦
        rw out (
          sweep-Holds swept z (remove_doc d t) (taken_off d t s)
            (rw (text_eq_refl (entries_key u))))
    | inr stays ↦ rw stays (sweep-Holds swept z t s h)
  ]

  pub sweep-channels :
      (swept : ℕ → Bool) (z t : Tape) (s : Keyspace)
      → (sweep swept z t s).channels (channel_for u)
        ≡ s.channels (channel_for u) ++ removed_frames swept z
  sweep-channels swept [] t s = sym (append-nil _)
  sweep-channels swept ((p, d) ∷ z) t s = elim (Bool-cases (swept d)) [
    | inl out ↦ rw out (
        sweep-channels swept z (remove_doc d t) (taken_off d t s)
        ∙ rw (text_eq_refl (channel_for u), append_assoc))
    | inr stays ↦ rw stays (sweep-channels swept z t s)
  ]

  -- Sweeping leaves the lock, the configuration and the clock as they are.
  pub sweep-frame :
      (swept : ℕ → Bool) (z t : Tape) (s : Keyspace)
      → let s' = sweep swept z t s in
        (s'.strings ≡ s.strings) × (s'.hashes ≡ s.hashes) × (s'.clock ≡ s.clock)
  sweep-frame swept [] t s = (refl, refl, refl)
  sweep-frame swept ((p, d) ∷ z) t s = elim (Bool-cases (swept d)) [
    | inl out ↦ rw out (sweep-frame swept z (remove_doc d t) (taken_off d t s))
    | inr stays ↦ rw stays (sweep-frame swept z t s)
  ]

  module _ (pg : Database) (db : pg.Db) where
    drop_entry-tape :
        (d : ℕ) (t : Tape) (s : Keyspace)
        → Holds s u t
        → has_doc d t ≡ true
        → drop_entry reference lib pg db now u d s ≡ (taken_off d t s, none)
    unfolding drop_entry
    drop_entry-tape d t s h here = rw (remove_entry-tape s u d t h, here)

    module _ (mode : Text) (docs : Dict DocumentRow) (scored : List ℕ) (roles : Dict (List RoleRef))
        (swept : ℕ → Bool) (row_of : ℕ → Option DocumentRow) where
      -- The loop over rows that are on the tape, each document once, for which the answers of the
      -- database are those of `swept` and `row_of`.
      pub for_map-show_row :
          (z t : Tape) (s : Keyspace)
          → Holds s u t
          → IsTape t
          → IsTape z
          → All (λ e. has_doc e.1 t ≡ true) z
          → All (λ e. (contains scored e.1 ≡ swept e.1) × (get e.1 docs ≡ row_of e.1)) z
          → for_map z (show_row reference lib pg db now u mode docs scored roles) s
            ≡ (sweep swept z t s, map (shown swept row_of mode roles) z)
      unfolding for_map show_row
      for_map-show_row [] t s h tape zs on agree = refl
      for_map-show_row ((p, d) ∷ z) t s h tape zs on agree = elim (Bool-cases (swept d)) [
        | inl out ↦ rw (
          agree.0.0,
          out,
          drop_entry-tape d t s h on.0,
          for_map-show_row z (remove_doc d t) (taken_off d t s) (rw (text_eq_refl (entries_key u)))
              (remove_doc-IsTape d t tape) zs.1 (still z zs.0 on.1) agree.1,
        )
        | inr stays ↦
            rw (agree.0.0, stays, agree.0.1, for_map-show_row z t s h tape zs.1 on.1 agree.1)
      ]
        where
          still :
              (y : Tape)
              → All (λ e. (p < e.0) × (d ≢ e.1)) y
              → All (λ e. has_doc e.1 t ≡ true) y
              → All (λ e. has_doc e.1 (remove_doc d t) ≡ true) y
          still [] a b = tt
          still ((q, c) ∷ y) a b =
              (has_doc-remove_doc c d t tape ∙ ground (arith, b.0, a.0.1), still y a.1 b.1)
