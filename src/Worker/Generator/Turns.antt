-- ===== src/Worker/Generator/Turns.antt =====
-- A run of src/tape_service/worker/generator.py as turns at the lock of its user.
use s3p_tape_service.Prelude.{ℕ, ◌≡◌, refl, Bool, Option, some, Bool-cases, inl, inr}
use s3p_tape_service.Prelude.Text.{Text, text_eq}
use s3p_tape_service.Redis.{Keyspace, update}
use s3p_tape_service.Settings.{Settings}
use s3p_tape_service.Stdlib.{Stdlib}
use s3p_tape_service.Database.{Database}
use s3p_tape_service.Method
use s3p_tape_service.Worker.Generator.Phases
use s3p_tape_service.Worker.Generator.Phases.{Phase, outside, holding, over, Moves}
use s3p_tape_service.Service.Steps.{Steps}
use s3p_tape_service.Service.Turns.{System, Turns}

abbrev pub at : Keyspace → (Text → Option ℕ) → System
at s inside = record { keyspace = s; inside = inside }

-- Who is inside while a worker that enters alone is in a phase.
abbrev Stands : (Text → Option ℕ) → Text → Phase → (Text → Option ℕ) → Type 0
Stands inside token holding after =
    (since : ℕ) × ((other : Text) → after other ≡ update inside token (some since) other)
Stands inside token _ after = (other : Text) → after other ≡ inside other

module _ (lib : Stdlib) (st : Settings) (token : Text) (now u : ℕ) (dirty : Bool)
    (inside : Text → Option ℕ) where
  enter :
      (since : ℕ) (after : Text → Option ℕ) (other : Text)
      → ((other : Text) → after other ≡ inside other)
      → update after token (some since) other ≡ update inside token (some since) other
  enter since after other same = elim (Bool-cases (text_eq other token)) [
    | inl own ↦ rw own refl
    | inr away ↦ rw away (same other)
  ]

module _ (lib : Stdlib) (st : Settings) (pg : Database) (db : pg.Db) (token : Text) (now u : ℕ)
    (dirty : Bool) where
  -- From `s` to `t` by the moves of one worker, from before it asks for the lock to its end.
  abbrev pub IsRun : Keyspace → Keyspace → Type 0
  IsRun s t = Moves lib st token now u dirty s outside t over
