-- ===== src/Db/Documents.antt =====
-- src/tape_service/db/documents.py
use s3p_tape_service.Prelude.{ℕ, List, [], ◌∷◌}
use s3p_tape_service.Prelude.Dict.{Dict}
use s3p_tape_service.Errors.{Result, ok, raise}
use s3p_tape_service.Database.{Database, DocumentRow, by_id}

abbrev pub rows_by_id : Result (List DocumentRow) → Result (Dict DocumentRow)
rows_by_id (ok rows) = ok (by_id rows)
rows_by_id (raise e) = raise e

unfoldable pub fetch_by_ids : (pg : Database) → pg.Db → List ℕ → Result (Dict DocumentRow)
fetch_by_ids pg db [] = ok []
fetch_by_ids pg db (i ∷ ids) = rows_by_id (pg.select_documents db (i ∷ ids))
