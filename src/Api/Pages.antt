-- ===== src/Api/Pages.antt =====
-- src/tape_service/schemas/tape.py, and how src/tape_service/api/tape.py builds a page of documents.
use s3p_tape_service.Prelude.{
  ℕ, ◌&&◌, Option, none, some, List, [], ◌∷◌, length, last?, ◌==◌, contains, if◌then◌else◌,
}
use s3p_tape_service.Prelude.Dict.{Dict, get, add}
use s3p_tape_service.Prelude.Text.{Text, codes, text_eq}
use s3p_tape_service.Database.{DocumentRow}
use s3p_tape_service.Store.Tape.Config.{TapeConfig}
use s3p_tape_service.Api.Roles.{RoleRef}

pub record TapeDocument : Type 0 where
  pub id : ℕ
  pub source_id : ℕ
  pub title : Text
  pub link : Text
  pub published : ℕ
  pub abstract : Option Text
  pub text : Option Text

pub record TapeItem : Type 0 where
  pub entry_id : ℕ
  pub position : ℕ
  pub document : TapeDocument
  pub roles : List RoleRef

pub record TapePage : Type 0 where
  pub items : List TapeItem
  pub next_position : Option ℕ
  pub state : Text
  pub display_mode : Text

-- `d.text if cfg.display_mode == "detailed" else None`
unfoldable pub document_of : Text → DocumentRow → TapeDocument
unfolding text_eq
document_of display_mode d = record {
  id = d.id;
  source_id = d.sourceid;
  title = d.title;
  link = d.weblink;
  published = d.published;
  abstract = d.abstract;
  text = if text_eq display_mode (codes "detailed") then d.text else none;
}

-- `roles_by_src.get(d.sourceid, [])`
unfoldable pub roles_of : Dict (List RoleRef) → ℕ → List RoleRef
unfolding get
roles_of roles source_id = elim (get source_id roles) [ none ↦ [] | some refs ↦ refs ]

unfoldable pub item_of : Text → Dict (List RoleRef) → ℕ → DocumentRow → TapeItem
unfolding document_of roles_of
item_of display_mode roles position d = record {
  entry_id = position;
  position = position;
  document = document_of display_mode d;
  roles = roles_of roles d.sourceid;
}

-- `{docs[d].sourceid for d in doc_ids if d in docs and d not in already_scored}`
unfoldable pub source_ids_of : Dict DocumentRow → List ℕ → List ℕ → List ℕ
unfolding get
source_ids_of docs scored [] = []
source_ids_of docs scored (d ∷ ids) =
    let rest = source_ids_of docs scored ids in
    elim (get d docs) [
      | none ↦ rest
      | some row ↦ if contains scored d then rest else add row.sourceid rest
    ]

abbrev pub collect : {A : Type 0} → List (Option A) → List A
collect [] = []
collect (none ∷ xs) = collect xs
collect (some a ∷ xs) = a ∷ collect xs

-- `rows[-1][0] if len(rows) == cfg.page_size else None`
unfoldable pub next_position_of : List (ℕ × ℕ) → ℕ → Option ℕ
next_position_of rows page_size =
    if length rows == page_size
    then elim (last? rows) [ none ↦ none | some row ↦ some row.0 ]
    else none

-- `"ok" if items else "empty"`
unfoldable pub state_of : List TapeItem → Text
state_of [] = codes "empty"
state_of (i ∷ items) = codes "ok"

-- The page for a user without a configuration.
abbrev pub no_page : TapePage
no_page = record {
  items = [];
  next_position = none;
  state = codes "empty";
  display_mode = codes "compact";
}

-- The page where no row is left.
unfoldable pub empty_page : TapeConfig → ℕ → TapePage
empty_page cfg total = record {
  items = [];
  next_position = none;
  state = if total == 0 && cfg.dirty then codes "preparing" else codes "empty";
  display_mode = cfg.display_mode;
}

unfoldable pub full_page : TapeConfig → List (ℕ × ℕ) → List (Option TapeItem) → TapePage
unfolding next_position_of state_of
full_page cfg rows found = record {
  items = collect found;
  next_position = next_position_of rows cfg.page_size;
  state = state_of (collect found);
  display_mode = cfg.display_mode;
}
