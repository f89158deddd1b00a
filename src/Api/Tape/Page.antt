-- ===== src/Api/Tape/Page.antt =====
-- What a request for a page of the tape answers, and what it leaves on the server.
use s3p_tape_service.Prelude.{
  ℕ, ◌≡◌, refl, ap, subst, ◌∙◌, Bool, true, false, Option, some, List, [], ◌∷◌, ◌++◌, map, arith,
  All, All-map, contains,
}
use s3p_tape_service.Prelude.Dict.{Dict, get}
use s3p_tape_service.Errors.{Result, ok, raise}
use s3p_tape_service.Keys.{channel_for, cfg_key}
use s3p_tape_service.Redis.{Redis, Keyspace, reference}
use s3p_tape_service.Redis.Command.{is_some}
use s3p_tape_service.Stdlib.{Stdlib}
use s3p_tape_service.Database.{Database, DocumentRow, by_id, is_scored}
use s3p_tape_service.Db.Documents.{fetch_by_ids, rows_by_id}
use s3p_tape_service.Store.Lock.Laws.{holder}
use s3p_tape_service.Store.Tape.Config.{TapeConfig, config_of}
use s3p_tape_service.Store.Tape.View.{Tape, has_doc, IsTape, Holds}
use s3p_tape_service.Store.Tape.Operations.{page}
use s3p_tape_service.Store.Tape.Laws.{list_entries_page-tape}
use s3p_tape_service.Store.Tape.Pages.{page-IsTape, has_doc-page}
use s3p_tape_service.Api.Roles.{RoleRef, roles_by_source}
use s3p_tape_service.Api.Pages.{TapePage, source_ids_of}
use s3p_tape_service.Api.Tape.Answer.{visible, page_for, full_page-page_for}
use s3p_tape_service.Api.Tape.{filter_already_scored, read_tape}
use s3p_tape_service.Api.Tape.Implementation.{read_tape-Implements}
use s3p_tape_service.Api.Tape.Sweep.{
  without, without-IsTape, removed_frames, sweep, sweep-Holds, sweep-channels, for_map-show_row,
}

abbrev pub ids_of : Tape → List ℕ
ids_of z = map (λ (e : ℕ × ℕ). e.1) z

contains-ids : (z : Tape) → All (λ e. contains (ids_of z) e.1 ≡ true) z
contains-ids [] = tt
contains-ids ((p, d) ∷ z) = (
  ground arith,
  All-map (λ e. contains (ids_of z) e.1 ≡ true) (λ e. contains (d ∷ ids_of z) e.1 ≡ true)
      (λ e h. ground arith) z (contains-ids z),
)

module _ (pg : Database) (db : pg.Db) (u : ℕ) where
  abbrev pub scored_by_user : ℕ → Bool
  scored_by_user d = is_scored (pg.tables db).scores u d

  abbrev pub document_row : ℕ → Option DocumentRow
  document_row d = get d (by_id (pg.tables db).documents)

  docs_found :
      (ids : List ℕ) (docs : Dict DocumentRow)
      → fetch_by_ids pg db ids ≡ ok docs
      → (d : ℕ) → contains ids d ≡ true
      → get d docs ≡ document_row d
  unfolding fetch_by_ids
  docs_found [] docs e d h = cc
  docs_found (i ∷ ids) docs e d h = on_rows (pg.select_documents db (i ∷ ids)) refl e
    where
      on_rows :
          (x : Result (List DocumentRow))
          → pg.select_documents db (i ∷ ids) ≡ x
          → rows_by_id x ≡ ok docs
          → get d docs ≡ document_row d
      on_rows (ok found) asked same = cc (pg.documents_found db (i ∷ ids) found asked d, h, same)
      on_rows (raise x) asked same = cc

  scored_found :
      (ids scored : List ℕ)
      → filter_already_scored pg db u ids ≡ ok scored
      → (d : ℕ) → contains ids d ≡ true
      → contains scored d ≡ scored_by_user d
  unfolding filter_already_scored
  scored_found [] scored e d h = cc
  scored_found (i ∷ ids) scored e d h = ground (arith, pg.scored_lem db u (i ∷ ids) scored e d)

  module _ (r : Redis) (lib : Stdlib) (now : ℕ) where
    open r use {view, Server}

    abbrev pub answer : TapeConfig → ℕ × ℕ → Tape → Dict (List RoleRef) → TapePage
    answer cfg row z roles =
        page_for cfg roles row z (visible scored_by_user document_row (row ∷ z))

    read_tape-tape :
        (s : Keyspace) (cfg : TapeConfig) (t : Tape) (after : Option ℕ) (row : ℕ × ℕ) (z : Tape)
        (docs : Dict DocumentRow) (scored : List ℕ) (roles : Dict (List RoleRef))
        → is_some (holder s u) ≡ false
        → config_of lib u (s.hashes (cfg_key u)) ≡ ok (some cfg)
        → Holds s u t
        → IsTape t
        → page t after cfg.page_size ≡ row ∷ z
        → fetch_by_ids pg db (ids_of (row ∷ z)) ≡ ok docs
        → filter_already_scored pg db u (ids_of (row ∷ z)) ≡ ok scored
        → roles_by_source pg db u (source_ids_of docs scored (ids_of (row ∷ z))) ≡ ok roles
        → read_tape reference lib pg db now u after s
          ≡ (sweep lib now u scored_by_user (row ∷ z) t s, ok (answer cfg row z roles))
    unfolding read_tape
    read_tape-tape s cfg t after row z docs scored roles free configured h tape paged found marked
          labelled =
        rw (
          free,
          configured,
          list_entries_page-tape s u t after cfg.page_size h,
          paged,
          found,
          marked,
          labelled,
          for_map-show_row lib now u pg db cfg.display_mode docs scored roles scored_by_user
              document_row (row ∷ z) t s h tape zs on agree,
          full_page-page_for scored_by_user document_row cfg roles row z,
        )
      where
        zs : IsTape (row ∷ z)
        zs = subst IsTape paged (page-IsTape t after cfg.page_size tape)

        on : All (λ e. has_doc e.1 t ≡ true) (row ∷ z)
        on = subst (All (λ e. has_doc e.1 t ≡ true)) paged (has_doc-page t after cfg.page_size)

        agree :
            All
              (λ e. (contains scored e.1 ≡ scored_by_user e.1) × (get e.1 docs ≡ document_row e.1))
              (row ∷ z)
        agree =
            All-map (λ e. contains (ids_of (row ∷ z)) e.1 ≡ true) _
              (λ e asked. (
                scored_found (ids_of (row ∷ z)) scored marked e.1 asked,
                docs_found (ids_of (row ∷ z)) docs found e.1 asked,
              ))
              (row ∷ z) (contains-ids (row ∷ z))

    pub read_tape-view :
        (srv : Server) (cfg : TapeConfig) (t : Tape) (after : Option ℕ) (row : ℕ × ℕ) (z : Tape)
        (docs : Dict DocumentRow) (scored : List ℕ) (roles : Dict (List RoleRef))
        → is_some (holder (view srv) u) ≡ false
        → config_of lib u ((view srv).hashes (cfg_key u)) ≡ ok (some cfg)
        → Holds (view srv) u t
        → IsTape t
        → page t after cfg.page_size ≡ row ∷ z
        → fetch_by_ids pg db (ids_of (row ∷ z)) ≡ ok docs
        → filter_already_scored pg db u (ids_of (row ∷ z)) ≡ ok scored
        → roles_by_source pg db u (source_ids_of docs scored (ids_of (row ∷ z))) ≡ ok roles
        → let (srv', result) = read_tape r lib pg db now u after srv in
          (view srv' ≡ sweep lib now u scored_by_user (row ∷ z) t (view srv))
          × (result ≡ ok (answer cfg row z roles))
    read_tape-view srv cfg t after row z docs scored roles free configured h tape paged found marked
          labelled =
        let on_tape =
          read_tape-tape (view srv) cfg t after row z docs scored roles free configured h tape paged
            found marked labelled in
        let im = read_tape-Implements r lib pg db now u after in
        (
          im.state srv ∙ ap {B = Keyspace} (λ x. x.0) on_tape,
          im.result srv ∙ ap {B = Result TapePage} (λ x. x.1) on_tape,
        )

    -- A request for a page of a well-formed tape, while no worker holds the lock, for a
    -- configured user and rows `row ∷ z` on the page, when the queries of the database succeed. The
    -- items of the answer are, in the tape's order, those rows that the user has not scored and
    -- whose document exists, each with its position, the document and its roles; the answer has a
    -- cursor, the position of the last row, exactly if the page is full, and its state is `ok`
    -- exactly if it has items. The rows that the user has scored leave the tape, which stays
    -- well-formed, and for each of them the user's channel receives one frame, in order, and nothing
    -- else.
    pub read_tape-page :
        (srv : Server) (cfg : TapeConfig) (t : Tape) (after : Option ℕ) (row : ℕ × ℕ) (z : Tape)
        (docs : Dict DocumentRow) (scored : List ℕ) (roles : Dict (List RoleRef))
        → is_some (holder (view srv) u) ≡ false
        → config_of lib u ((view srv).hashes (cfg_key u)) ≡ ok (some cfg)
        → Holds (view srv) u t
        → IsTape t
        → page t after cfg.page_size ≡ row ∷ z
        → fetch_by_ids pg db (ids_of (row ∷ z)) ≡ ok docs
        → filter_already_scored pg db u (ids_of (row ∷ z)) ≡ ok scored
        → roles_by_source pg db u (source_ids_of docs scored (ids_of (row ∷ z))) ≡ ok roles
        → let (srv', result) = read_tape r lib pg db now u after srv in
          (result ≡ ok (answer cfg row z roles))
          × Holds (view srv') u (without scored_by_user (row ∷ z) t)
          × IsTape (without scored_by_user (row ∷ z) t)
          × ((view srv').channels (channel_for u)
              ≡ (view srv).channels (channel_for u)
                ++ removed_frames lib now u scored_by_user (row ∷ z))
    read_tape-page srv cfg t after row z docs scored roles free configured h tape paged found marked
          labelled =
        let (left, answered) =
          read_tape-view srv cfg t after row z docs scored roles free configured h tape paged found
            marked labelled in
        (
          answered,
          rw left (sweep-Holds lib now u scored_by_user (row ∷ z) t (view srv) h),
          without-IsTape scored_by_user (row ∷ z) t tape,
          rw left (sweep-channels lib now u scored_by_user (row ∷ z) t (view srv)),
        )
