-- ===== src/Db/Candidates.antt =====
-- src/tape_service/db/candidates.py
use s3p_tape_service.Prelude.{ℕ, not, Option, List, [], ◌∷◌, keep_if, contains, if◌then◌else◌}
use s3p_tape_service.Prelude.Text.{Text, codes, text_eq}
use s3p_tape_service.Errors.{Result, ok, raise}
use s3p_tape_service.Database.{Database}

unfoldable pub order_clause : Text → Text
order_clause ordering = if text_eq ordering (codes "desc") then codes "DESC" else codes "ASC"

-- The last three statements: what is left of the rows.
unfoldable pub exclude : List ℕ → Result (List ℕ) → Result (List ℕ)
exclude exclude_ids (raise e) = raise e
exclude [] (ok rows) = ok rows
exclude (x ∷ excluded) (ok rows) = ok (keep_if (λ i. not (contains (x ∷ excluded) i)) rows)

module _ (pg : Database) (db : pg.Db) where
  -- `exclude_ids` of `None` and of `[]` are treated alike.
  unfoldable pub candidates_for_user :
      ℕ → List ℕ → Option ℕ → Option ℕ → Text → List ℕ → Result (List ℕ)
  unfolding order_clause exclude
  candidates_for_user user_id [] date_from date_to ordering exclude_ids = ok []
  candidates_for_user user_id (s ∷ source_ids) date_from date_to ordering exclude_ids =
      exclude exclude_ids
        (pg.select_candidates db user_id (s ∷ source_ids) date_from date_to (order_clause ordering))
