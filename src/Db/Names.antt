-- ===== src/Db/Names.antt =====
-- src/tape_service/db/roles.py and src/tape_service/db/sources.py: the labels of roles and sources.
use s3p_tape_service.Prelude.{ℕ, Option, List, [], ◌∷◌}
use s3p_tape_service.Prelude.Text.{Text}
use s3p_tape_service.Prelude.Dict.{Dict, put_all}
use s3p_tape_service.Errors.{Result, ok, raise}
use s3p_tape_service.Database.{Database}

-- `{int(r[0]): r[1] for r in rows}`
abbrev pub names_by_id : Result (List (ℕ × Option Text)) → Result (Dict (Option Text))
names_by_id (ok rows) = ok (put_all [] rows)
names_by_id (raise e) = raise e

module _ (pg : Database) (db : pg.Db) where
  -- `fetch_names_by_ids` of roles.py
  unfoldable pub fetch_role_names : List ℕ → Result (Dict (Option Text))
  fetch_role_names [] = ok []
  fetch_role_names (i ∷ ids) = names_by_id (pg.select_role_names db (i ∷ ids))

  -- `fetch_names_by_ids` of sources.py
  unfoldable pub fetch_source_names : List ℕ → Result (Dict (Option Text))
  fetch_source_names [] = ok []
  fetch_source_names (i ∷ ids) = names_by_id (pg.select_source_names db (i ∷ ids))
