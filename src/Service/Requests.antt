-- ===== src/Service/Requests.antt =====
-- Each request and each notification writes by the service's commands for its user only.
use s3p_tape_service.Prelude.{
  ℕ, Bool, true, false, Option, none, some, List, [], ◌∷◌, map, ◌==◌, contains,
}
use s3p_tape_service.Prelude.Dict.{Dict}
use s3p_tape_service.Prelude.Text.{Text, codes}
use s3p_tape_service.Errors.{Result, ok, raise}
use s3p_tape_service.Redis.{Keyspace, reference}
use s3p_tape_service.Settings.{Settings}
use s3p_tape_service.Stdlib.{Stdlib, Json}
use s3p_tape_service.Database.{Database, DocumentRow}
use s3p_tape_service.Db.Documents.{fetch_by_ids}
use s3p_tape_service.Db.Score.{save}
use s3p_tape_service.Store.Events.{make_tape_entry_removed, make_schedule_queued}
use s3p_tape_service.Store.Sessions.{Session}
use s3p_tape_service.Store.Tape.Config.{TapeConfig}
use s3p_tape_service.Auth.{current_user, user_of, no_cookie, no_session}
use s3p_tape_service.Api.Roles.{RoleRef, roles_by_source}
use s3p_tape_service.Api.Pages.{no_page, empty_page, full_page, source_ids_of}
use s3p_tape_service.Api.Tape.{
  filter_already_scored, drop_entry, show_row, page_of_rows, page_of_config, page_unless_locked,
  read_tape, locked_error,
}
use s3p_tape_service.Api.Score.{
  ScoreRequest, score_of, score_payload, clean_tape, after_save, save_verdict, submit_score,
}
use s3p_tape_service.Api.Config.{
  ConfigUpdate, hydrate_sources, response_of, refused, not_permitted, store_config, unless_refused,
  write_config,
}
use s3p_tape_service.Api.Config
use s3p_tape_service.Worker.Listener.{clear_entry, announce_removed}
use s3p_tape_service.Service.Steps.{Steps, done}
use s3p_tape_service.Service.Follows.{
  Follows, Follows-pure, Follows-bind, Follows-if, Follows-for_map, Follows-call, Follows-lift,
  Follows-then,
}
use s3p_tape_service.Service.Stores.{
  publish-Follows, get_config-Follows, upsert_config-Follows, is_locked-Follows,
  get_config_sources-Follows, set_config_sources-Follows, list_entries_page-Follows,
  count_entries-Follows, remove_entry-Follows, validate-Follows,
}

module _ {b : Bool} {l : ℕ} (lib : Stdlib) (now u : ℕ) where
  pub clear_entry-Follows : (d : ℕ) → Follows b l u (clear_entry reference lib now (some (u, d)))
  unfolding clear_entry announce_removed
  clear_entry-Follows d = Follows-bind (remove_entry-Follows u d) λ removed.
      Follows-if (removed == 0) (Follows-pure tt) (
        Follows-bind (publish-Follows u lib (make_tape_entry_removed lib now u d))
          λ _. Follows-pure tt)

  module _ (pg : Database) where
    clean_tape-Follows : (d : ℕ) → Follows b l u (clean_tape reference lib pg now u d)
    unfolding clean_tape
    clean_tape-Follows d =
        Follows-bind (remove_entry-Follows u d)
          λ _. publish-Follows u lib (make_tape_entry_removed lib now u d)

    after_save-Steps :
        (d : ℕ) (s : Keyspace) (x : pg.Db × Result ℕ)
        → Steps b l u s (after_save reference lib pg now u d s x).0.1
    unfolding after_save
    after_save-Steps d s (db', raise e) = done
    after_save-Steps d s (db', ok n) = (clean_tape-Follows d).at s

    module _ (db : pg.Db) where
      drop_entry-Follows : (d : ℕ) → Follows b l u (drop_entry reference lib pg db now u d)
      unfolding drop_entry
      drop_entry-Follows d = Follows-bind (remove_entry-Follows u d) λ removed.
          Follows-if (removed == 0) (Follows-pure none) (
            Follows-bind (publish-Follows u lib (make_tape_entry_removed lib now u d))
              λ _. Follows-pure none)

      show_row-Follows :
          (mode : Text) (docs : Dict DocumentRow) (scored : List ℕ) (roles : Dict (List RoleRef))
          (row : ℕ × ℕ)
          → Follows b l u (show_row reference lib pg db now u mode docs scored roles row)
      unfolding show_row
      show_row-Follows mode docs scored roles (p, d) =
          Follows-if (contains scored d) (drop_entry-Follows d) (Follows-pure _)

      page_of_rows-Follows :
          (cfg : TapeConfig) (rows : List (ℕ × ℕ))
          → Follows b l u (page_of_rows reference lib pg db now u cfg rows)
      unfolding page_of_rows
      page_of_rows-Follows cfg [] =
          Follows-then (Follows-call (count_entries-Follows u))
            λ total. Follows-lift (ok (empty_page cfg total))
      page_of_rows-Follows cfg (row ∷ rows) =
          Follows-then (Follows-lift (fetch_by_ids pg db ids)) λ docs.
            Follows-then (Follows-lift (filter_already_scored pg db u ids)) λ scored.
              Follows-then (Follows-lift (roles_by_source pg db u (source_ids_of docs scored ids)))
                λ roles.
                  Follows-then
                    (Follows-call (
                      Follows-for_map (row ∷ rows)
                        (show_row-Follows cfg.display_mode docs scored roles)))
                    λ found. Follows-lift (ok (full_page cfg (row ∷ rows) found))
        where
          ids : List ℕ
          ids = map (λ (e : ℕ × ℕ). e.1) (row ∷ rows)

      page_of_config-Follows :
          (after : Option ℕ) (cfg : Option TapeConfig)
          → Follows b l u (page_of_config reference lib pg db now u after cfg)
      unfolding page_of_config
      page_of_config-Follows after none = Follows-lift (ok no_page)
      page_of_config-Follows after (some cfg) =
          Follows-then (list_entries_page-Follows u after cfg.page_size) (page_of_rows-Follows cfg)

      page_unless_locked-Follows :
          (after : Option ℕ) (locked : Bool)
          → Follows b l u (page_unless_locked reference lib pg db now u after locked)
      unfolding page_unless_locked
      page_unless_locked-Follows after true = Follows-lift (raise locked_error)
      page_unless_locked-Follows after false =
          Follows-then (get_config-Follows u lib) (page_of_config-Follows after)

      pub read_tape-Follows :
          (after : Option ℕ) → Follows b l u (read_tape reference lib pg db now u after)
      unfolding read_tape
      read_tape-Follows after =
          Follows-then (Follows-call (is_locked-Follows u)) (page_unless_locked-Follows after)

      save_verdict-Steps :
          (req : ScoreRequest) (score : Option Json) (s : Keyspace)
          → Steps b l u s (save_verdict reference lib pg now u req score (db, s)).0.1
      unfolding save_verdict
      save_verdict-Steps req none s = done
      save_verdict-Steps req (some score) s = after_save-Steps req.document_id s (
          save pg lib u req.document_id req.role_id (score_payload score req.comment) req.comment
            db)

      -- The server after a request that scores a document.
      pub submit_score-Steps :
          (req : ScoreRequest) (s : Keyspace)
          → Steps b l u s (submit_score reference lib pg now u req (db, s)).0.1
      unfolding submit_score
      submit_score-Steps req s = save_verdict-Steps req (score_of req.verdict) s

      pub read_config-Follows : Follows b l u (Config.read_config reference lib pg db now u)
      unfolding Config.read_config
      read_config-Follows = Follows-then (get_config-Follows u lib) λ cfg.
          Follows-then (get_config_sources-Follows u) λ selected.
            Follows-then (Follows-lift (hydrate_sources pg db u))
              λ hydrated. Follows-lift (response_of cfg selected hydrated.1)

      store_config-Follows :
          (p : ConfigUpdate) → Follows b l u (store_config reference lib pg db now u p)
      unfolding store_config
      store_config-Follows p =
          Follows-then
            (Follows-call (
              upsert_config-Follows u lib now p.ordering p.display_mode p.page_size p.date_from
                p.date_to))
            λ _.
              Follows-then (Follows-call (set_config_sources-Follows u p.selected_source_ids)) λ _.
                Follows-then
                  (Follows-call
                    (publish-Follows u lib (make_schedule_queued lib now u (codes "config_dirty"))))
                  λ _. read_config-Follows

      unless_refused-Follows :
          (p : ConfigUpdate) (bad : List ℕ)
          → Follows b l u (unless_refused reference lib pg db now u p bad)
      unfolding unless_refused
      unless_refused-Follows p [] = store_config-Follows p
      unless_refused-Follows p (b ∷ bad) = Follows-lift (raise (not_permitted (b ∷ bad)))

      pub write_config-Follows :
          (p : ConfigUpdate) → Follows b l u (write_config reference lib pg db now u p)
      unfolding write_config
      write_config-Follows p =
          Follows-then (Follows-lift (hydrate_sources pg db u))
            λ hydrated. unless_refused-Follows p (refused hydrated.0 p.selected_source_ids)

-- The check of a session, which belongs to no user before it is made.
pub current_user-Follows :
    {b : Bool} {l : ℕ} (u : ℕ) (lib : Stdlib) (st : Settings) (now : ℕ) (raw : Option Text)
    → Follows b l u (current_user reference lib st now raw)
unfolding current_user user_of
current_user-Follows u lib st now none = Follows-lift (raise no_cookie)
current_user-Follows u lib st now (some []) = Follows-lift (raise no_cookie)
current_user-Follows {b} {l} u lib st now (some (c ∷ raw)) =
    Follows-then (validate-Follows u lib st (c ∷ raw) now) found
  where
    found : (sess : Option Session) → Follows b l u (user_of reference lib st sess)
    found none = Follows-lift (raise no_session)
    found (some sess) = Follows-lift (ok sess.user_id)
