-- ===== src/Api/Tape.antt =====
-- src/tape_service/api/tape.py: reading a page of the tape, and scoring a document. `now` stands for
-- each reading of the clock in one request.
pub mod Implementation
pub mod Sweep
pub mod Answer
pub mod Page
pub mod Locked
pub mod Cursor
pub mod Client
pub mod Paging
use mathlib.Core.Option
use s3p_tape_service.Prelude.{
  ℕ, Bool, true, false, Option, none, some, List, [], ◌∷◌, map, ◌==◌, contains, if◌then◌else◌,
}
use s3p_tape_service.Prelude.Dict.{Dict, get}
use s3p_tape_service.Prelude.Text.{Text, codes}
use s3p_tape_service.Action.{Action, for_map}
use s3p_tape_service.Action
use s3p_tape_service.Method.{Method, pure, fail, lift, call, ◌>>=◌}
use s3p_tape_service.Errors.{Exception, Result, ok, raise, api, api_error, tape_locked}
use s3p_tape_service.Redis.{Redis}
use s3p_tape_service.Stdlib.{Stdlib}
use s3p_tape_service.Database.{Database, DocumentRow}
use s3p_tape_service.Db.Documents.{fetch_by_ids}
use s3p_tape_service.Store.Events.{publish, make_tape_entry_removed}
use s3p_tape_service.Store.Lock.{is_locked}
use s3p_tape_service.Store.Tape.Config.{TapeConfig, get_config}
use s3p_tape_service.Store.Tape.Entries.{list_entries_page, count_entries, remove_entry}
use s3p_tape_service.Api.Roles.{RoleRef, roles_by_source}
use s3p_tape_service.Api.Pages.{
  TapeItem, TapePage, item_of, source_ids_of, no_page, empty_page, full_page,
}

unfoldable pub locked_error : Exception
unfolding api_error
locked_error = api (api_error tape_locked (codes "tape is regenerating"))

-- `_filter_already_scored`
unfoldable pub filter_already_scored : (pg : Database) → pg.Db → ℕ → List ℕ → Result (List ℕ)
filter_already_scored pg db user_id [] = ok []
filter_already_scored pg db user_id (i ∷ ids) = pg.select_scored db user_id (i ∷ ids)

module _ (r : Redis) (lib : Stdlib) (pg : Database) (db : pg.Db) (now : ℕ) (user_id : ℕ) where
  open r use {Server}

  -- `removed = ...; if removed: events.publish(...)`
  unfoldable pub drop_entry : ℕ → Action Server (Option TapeItem)
  unfolding remove_entry publish
  drop_entry doc_id = Action.◌>>=◌ (remove_entry r user_id doc_id) λ removed.
      if removed == 0
      then Action.pure none
      else Action.◌>>◌ (publish r lib user_id (make_tape_entry_removed lib now user_id doc_id))
          (Action.pure none)

  -- One round of the loop over the rows: `none` where it continues.
  unfoldable pub show_row :
      Text
      → Dict DocumentRow
      → List ℕ
      → Dict (List RoleRef)
      → ℕ × ℕ
      → Action Server (Option TapeItem)
  unfolding drop_entry item_of get
  show_row display_mode docs scored roles (position, doc_id) =
      if contains scored doc_id
      then drop_entry doc_id
      else Action.pure (Option.map (item_of display_mode roles position) (get doc_id docs))

  unfoldable pub page_of_rows : TapeConfig → List (ℕ × ℕ) → Method Server TapePage
  unfolding count_entries empty_page full_page show_row source_ids_of
  page_of_rows cfg [] = do total ← call (count_entries r user_id); pure (empty_page cfg total)
  page_of_rows cfg (row ∷ rows) = do
    let doc_ids = map (λ (e : ℕ × ℕ). e.1) (row ∷ rows)
    docs ← lift (fetch_by_ids pg db doc_ids)
    scored ← lift (filter_already_scored pg db user_id doc_ids)
    roles ← lift (roles_by_source pg db user_id (source_ids_of docs scored doc_ids))
    found ← call (for_map (row ∷ rows) (show_row cfg.display_mode docs scored roles))
    pure (full_page cfg (row ∷ rows) found)

  unfoldable pub page_of_config : Option ℕ → Option TapeConfig → Method Server TapePage
  unfolding page_of_rows
  page_of_config after none = pure no_page
  page_of_config after (some cfg) = do
    rows ← list_entries_page r user_id after cfg.page_size
    page_of_rows cfg rows

  unfoldable pub page_unless_locked : Option ℕ → Bool → Method Server TapePage
  unfolding page_of_config get_config
  page_unless_locked after true = fail locked_error
  page_unless_locked after false = do cfg ← get_config r lib user_id; page_of_config after cfg

  unfoldable pub read_tape : Option ℕ → Method Server TapePage
  unfolding page_unless_locked is_locked
  read_tape after = do locked ← call (is_locked r user_id); page_unless_locked after locked
