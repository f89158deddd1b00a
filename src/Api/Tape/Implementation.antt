-- ===== src/Api/Tape/Implementation.antt =====
-- Reading and scoring on a server do to its keyspace what they do to the keyspace itself.
use s3p_tape_service.Prelude.{
  ℕ, Bool, true, false, Option, none, some, List, [], ◌∷◌, map, contains, ◌==◌,
}
use s3p_tape_service.Prelude.Dict.{Dict}
use s3p_tape_service.Prelude.Text.{Text}
use s3p_tape_service.Action.{Implements}
use s3p_tape_service.Action
use s3p_tape_service.Method.{Implements-call, Implements-lift, Implements-bind}
use s3p_tape_service.Errors.{ok, raise}
use s3p_tape_service.Redis.{Redis, reference}
use s3p_tape_service.Stdlib.{Stdlib}
use s3p_tape_service.Database.{Database, DocumentRow}
use s3p_tape_service.Db.Documents.{fetch_by_ids}
use s3p_tape_service.Store.Events.{make_tape_entry_removed}
use s3p_tape_service.Store.Events.Laws.{publish-Implements}
use s3p_tape_service.Store.Lock.Laws.{is_locked-Implements}
use s3p_tape_service.Store.Tape.Config.{TapeConfig}
use s3p_tape_service.Store.Tape.Config.Laws.{get_config-Implements}
use s3p_tape_service.Store.Tape.Operations.{
  list_entries_page-Implements, count_entries-Implements, remove_entry-Implements,
}
use s3p_tape_service.Api.Roles.{RoleRef, roles_by_source}
use s3p_tape_service.Api.Pages.{no_page, empty_page, full_page, source_ids_of}
use s3p_tape_service.Api.Tape.{
  filter_already_scored, drop_entry, show_row, page_of_rows, page_of_config, page_unless_locked,
  read_tape, locked_error,
}

module _ (r : Redis) (lib : Stdlib) (pg : Database) (db : pg.Db) (now u : ℕ) where
  open r use {view, hgetall_law}

  drop_entry-Implements :
      (d : ℕ)
      → Implements view (drop_entry r lib pg db now u d) (drop_entry reference lib pg db now u d)
  unfolding drop_entry
  drop_entry-Implements d = Action.Implements-bind view (remove_entry-Implements r u d) λ removed.
      Action.Implements-if view (removed == 0) (Action.Implements-pure view none) (
        Action.Implements-bind view
          (publish-Implements r lib u (make_tape_entry_removed lib now u d))
          λ _. Action.Implements-pure view none)

  show_row-Implements :
      (mode : Text) (docs : Dict DocumentRow) (scored : List ℕ) (roles : Dict (List RoleRef))
      (row : ℕ × ℕ)
      → Implements view
          (show_row r lib pg db now u mode docs scored roles row)
          (show_row reference lib pg db now u mode docs scored roles row)
  unfolding show_row
  show_row-Implements mode docs scored roles (p, d) =
      Action.Implements-if view (contains scored d) (drop_entry-Implements d)
        (Action.Implements-pure view _)

  page_of_rows-Implements :
      (cfg : TapeConfig) (rows : List (ℕ × ℕ))
      → Implements view
          (page_of_rows r lib pg db now u cfg rows)
          (page_of_rows reference lib pg db now u cfg rows)
  unfolding page_of_rows
  page_of_rows-Implements cfg [] =
      Implements-bind view (Implements-call view (count_entries-Implements r u))
        λ total. Implements-lift view (ok (empty_page cfg total))
  page_of_rows-Implements cfg (row ∷ rows) =
      Implements-bind view (Implements-lift view (fetch_by_ids pg db ids)) λ docs.
        Implements-bind view (Implements-lift view (filter_already_scored pg db u ids)) λ scored.
          Implements-bind view
            (Implements-lift view (roles_by_source pg db u (source_ids_of docs scored ids)))
            λ roles.
              Implements-bind view
                (Implements-call view (
                  Action.Implements-for_map view (row ∷ rows)
                    (show_row-Implements cfg.display_mode docs scored roles)))
                λ found. Implements-lift view (ok (full_page cfg (row ∷ rows) found))
    where
      ids : List ℕ
      ids = map (λ (e : ℕ × ℕ). e.1) (row ∷ rows)

  page_of_config-Implements :
      (after : Option ℕ) (cfg : Option TapeConfig)
      → Implements view
          (page_of_config r lib pg db now u after cfg)
          (page_of_config reference lib pg db now u after cfg)
  unfolding page_of_config
  page_of_config-Implements after none = Implements-lift view (ok no_page)
  page_of_config-Implements after (some cfg) =
      Implements-bind view (list_entries_page-Implements r u after cfg.page_size)
        (page_of_rows-Implements cfg)

  page_unless_locked-Implements :
      (after : Option ℕ) (locked : Bool)
      → Implements view
          (page_unless_locked r lib pg db now u after locked)
          (page_unless_locked reference lib pg db now u after locked)
  unfolding page_unless_locked
  page_unless_locked-Implements after true = Implements-lift view (raise locked_error)
  page_unless_locked-Implements after false =
      Implements-bind view (get_config-Implements r u lib) (page_of_config-Implements after)

  pub read_tape-Implements :
      (after : Option ℕ)
      → Implements view
          (read_tape r lib pg db now u after)
          (read_tape reference lib pg db now u after)
  unfolding read_tape
  read_tape-Implements after =
      Implements-bind view (Implements-call view (is_locked-Implements r u))
        (page_unless_locked-Implements after)
