-- ===== src/Database.antt =====
-- The platform's PostgreSQL database, which is not part of the repository: its tables, and one
-- operation for each statement that src/tape_service/db and the API send to it. A statement may
-- fail, with any exception of the driver. What the service relies on is stated of its success.
use s3p_tape_service.Prelude.{
  ℕ, ◌≤◌, ◌≡◌, Bool, true, false, ◌&&◌, ◌||◌, not, Option, none, some, List, [], ◌∷◌, leb, ◌==◌,
  map, contains, if◌then◌else◌, All,
}
use s3p_tape_service.Prelude.Dict.{Dict, get, put_all}
use s3p_tape_service.Prelude.Text.{Text, codes, text_eq}
use s3p_tape_service.Errors.{Exception, Result, ok, raise}
use s3p_tape_service.Stdlib.{Json, Members}

-- `DocumentRow` of src/tape_service/db/documents.py, and a row of documents.document
pub record DocumentRow : Type 0 where
  pub id : ℕ
  pub sourceid : ℕ
  pub title : Text
  pub weblink : Text
  pub published : ℕ
  pub abstract : Option Text
  pub text : Option Text
  pub storagelink : Option Text
  pub loaded : Option ℕ
  pub otherdata : Option Json

-- The dict `{r["id"]: DocumentRow(**r) for r in rows}`
abbrev pub by_id : List DocumentRow → Dict DocumentRow
by_id rows = put_all [] (map (λ d. (d.id, d)) rows)

-- `scores` holds the user and the document of each row of score.score.
pub record Tables : Type 0 where
  pub documents : List DocumentRow
  pub scores : List (ℕ × ℕ)

abbrev pub is_scored : List (ℕ × ℕ) → ℕ → ℕ → Bool
is_scored [] user_id document_id = false
is_scored ((u, d) ∷ scores) user_id document_id =
    (user_id == u && document_id == d) || is_scored scores user_id document_id

-- `%s IS NULL OR published >= %s`
abbrev pub from_date : Option ℕ → ℕ → Bool
from_date none published = true
from_date (some t) published = leb t published

-- `%s IS NULL OR published <= %s`
abbrev pub to_date : Option ℕ → ℕ → Bool
to_date none published = true
to_date (some t) published = leb published t

-- The WHERE clause of the statement in src/tape_service/db/candidates.py.
abbrev pub is_wanted : List (ℕ × ℕ) → ℕ → List ℕ → Option ℕ → Option ℕ → DocumentRow → Bool
is_wanted scores user_id source_ids date_from date_to d =
    contains source_ids d.sourceid
    && from_date date_from d.published
    && to_date date_to d.published
    && not (is_scored scores user_id d.id)

-- Some document with the id is wanted.
abbrev pub any_wanted :
    List (ℕ × ℕ) → ℕ → List ℕ → Option ℕ → Option ℕ → List DocumentRow → ℕ → Bool
any_wanted scores user_id source_ids date_from date_to [] i = false
any_wanted scores user_id source_ids date_from date_to (d ∷ ds) i =
    (i == d.id && is_wanted scores user_id source_ids date_from date_to d)
    || any_wanted scores user_id source_ids date_from date_to ds i

abbrev pub published_of : List DocumentRow → ℕ → ℕ
published_of [] i = 0
published_of (d ∷ ds) i = if i == d.id then d.published else published_of ds i

abbrev pub InOrder : Text → ℕ → ℕ → Type 0
InOrder clause a b = if text_eq clause (codes "DESC") then b ≤ a else a ≤ b

-- The ids stand in the order of the clause, and none twice.
abbrev pub IsOrdered : Text → List DocumentRow → List ℕ → Type 0
IsOrdered clause documents [] = Unit
IsOrdered clause documents (i ∷ ids) =
    All (λ j. InOrder clause (published_of documents i) (published_of documents j)) ids
    × (contains ids i ≡ false)
    × IsOrdered clause documents ids

pub record Database : Type 1 where
  pub Db : Type 0
  pub tables : Db → Tables
  -- SELECT d.id FROM documents.document d WHERE ... ORDER BY d.published ASC|DESC
  pub select_candidates : Db → ℕ → List ℕ → Option ℕ → Option ℕ → Text → Result (List ℕ)
  pub candidates_wanted :
      (db : Db) (user_id : ℕ) (source_ids : List ℕ) (date_from date_to : Option ℕ) (clause : Text)
      (rows : List ℕ)
      → select_candidates db user_id source_ids date_from date_to clause ≡ ok rows
      → (i : ℕ)
      → contains rows i
        ≡ any_wanted (tables db).scores user_id source_ids date_from date_to (tables db).documents i
  pub candidates_ordered :
      (db : Db) (user_id : ℕ) (source_ids : List ℕ) (date_from date_to : Option ℕ) (clause : Text)
      (rows : List ℕ)
      → select_candidates db user_id source_ids date_from date_to clause ≡ ok rows
      → IsOrdered clause (tables db).documents rows
  -- SELECT ... FROM documents.document WHERE id = ANY(ids)
  pub select_documents : Db → List ℕ → Result (List DocumentRow)
  pub documents_found :
      (db : Db) (ids : List ℕ) (rows : List DocumentRow)
      → select_documents db ids ≡ ok rows
      → (i : ℕ)
      → get i (by_id rows) ≡ (if contains ids i then get i (by_id (tables db).documents) else none)
  -- SELECT document_id FROM score.score WHERE user_id = ... AND document_id = ANY(ids)
  pub select_scored : Db → ℕ → List ℕ → Result (List ℕ)
  pub scored_lem :
      (db : Db) (user_id : ℕ) (ids rows : List ℕ)
      → select_scored db user_id ids ≡ ok rows
      → (i : ℕ) → contains rows i ≡ (contains ids i && is_scored (tables db).scores user_id i)
  -- SELECT * FROM users.auth_by_token(token): the columns of the row, `none` for no row
  pub select_user : Db → Text → Result (Option Members)
  -- SELECT users.sources(user_id), SELECT users.roles(user_id): `none` for no row or NULL
  pub select_sources : Db → ℕ → Result (Option (List ℕ))
  pub select_all_roles : Db → ℕ → Result (Option (List ℕ))
  -- SELECT id FROM users.roles(user_id, source_id)
  pub select_roles : Db → ℕ → ℕ → Result (List ℕ)
  -- SELECT id, name FROM users.role WHERE id = ANY(ids); the same FROM sources.source
  pub select_role_names : Db → List ℕ → Result (List (ℕ × Option Text))
  pub select_source_names : Db → List ℕ → Result (List (ℕ × Option Text))
  -- Whether score.score has a row for the user, the document and the role.
  pub has_scored : Db → ℕ → ℕ → ℕ → Bool
  -- SELECT score.save(user, NULL, document, role, score, comment); `unique_violation` if this user
  -- has scored the document under the role
  pub save_score : Db → ℕ → ℕ → ℕ → Text → Option Text → Db × Result ℕ
  pub saved_scores :
      (db : Db) (user_id document_id role_id n : ℕ) (score : Text) (comment : Option Text)
      (db' : Db)
      → save_score db user_id document_id role_id score comment ≡ (db', ok n)
      → ((tables db').documents ≡ (tables db).documents)
        × ((u i : ℕ)
            → is_scored (tables db').scores u i
              ≡ ((u == user_id) && (i == document_id) || is_scored (tables db).scores u i))
  -- A statement that succeeds has added the row, and there was none before.
  pub saved_role :
      (db : Db) (user_id document_id role_id n : ℕ) (score : Text) (comment : Option Text)
      (db' : Db)
      → save_score db user_id document_id role_id score comment ≡ (db', ok n)
      → (has_scored db user_id document_id role_id ≡ false)
        × (has_scored db' user_id document_id role_id ≡ true)
  pub unsaved_scores :
      (db : Db) (user_id document_id role_id : ℕ) (score : Text) (comment : Option Text) (db' : Db)
      (e : Exception)
      → save_score db user_id document_id role_id score comment ≡ (db', raise e)
      → tables db' ≡ tables db
