-- ===== src/Api/Tape/Client.antt =====
-- A client that follows `next_position` from page to page of `GET /tape`, a request at a time.
use s3p_tape_service.Prelude.{
  ℕ, zero, suc, ◌≡◌, refl, ap, ◌∙◌, false, Option, none, some, List, [], ◌∷◌, ◌++◌, length, map,
}
use s3p_tape_service.Prelude.Dict.{Dict}
use s3p_tape_service.Method.{Method, pure, fail, ◌>>=◌}
use s3p_tape_service.Errors.{Result, ok, runtime_error}
use s3p_tape_service.Keys.{cfg_key, entries_key}
use s3p_tape_service.Prelude.Text.{Text}
use s3p_tape_service.Redis.{Redis, Keyspace, reference}
use s3p_tape_service.Redis.Command.{is_some}
use s3p_tape_service.Stdlib.{Stdlib}
use s3p_tape_service.Database.{Database, DocumentRow}
use s3p_tape_service.Db.Documents.{fetch_by_ids}
use s3p_tape_service.Store.Lock.Laws.{holder}
use s3p_tape_service.Store.Tape.Config.{TapeConfig, config_of}
use s3p_tape_service.Store.Tape.Entries.{count_entries}
use s3p_tape_service.Store.Tape.View.{Tape, Holds}
use s3p_tape_service.Store.Tape.Operations.{page}
use s3p_tape_service.Store.Tape.Laws.{list_entries_page-tape}
use s3p_tape_service.Api.Roles.{RoleRef, roles_by_source}
use s3p_tape_service.Api.Pages.{TapeDocument, TapeItem, TapePage, empty_page, source_ids_of}
use s3p_tape_service.Api.Tape.{filter_already_scored, read_tape}
use s3p_tape_service.Api.Tape.Implementation.{read_tape-Implements}
use s3p_tape_service.Api.Tape.Sweep.{sweep, sweep-frame}
use s3p_tape_service.Api.Tape.Answer.{document_for, item_for}
use s3p_tape_service.Api.Tape.Page.{scored_by_user}

-- What the client keeps of an item, and the same of a row that is shown.
abbrev pub seen : TapeItem → ℕ × TapeDocument
seen i = (i.position, i.document)

abbrev pub entry_for : Text → ℕ × DocumentRow → ℕ × TapeDocument
entry_for mode (p, d) = (p, document_for mode d)

-- The queries of the database succeed, for whatever documents they ask.
abbrev pub Answers : (pg : Database) → pg.Db → ℕ → Type 0
Answers pg db u =
    (ids : List ℕ)
    → (docs : Dict DocumentRow) × (scored : List ℕ) × (roles : Dict (List RoleRef)) × (fetch_by_ids
          pg db ids
        ≡ ok docs)
      × (filter_already_scored pg db u ids ≡ ok scored)
      × (roles_by_source pg db u (source_ids_of docs scored ids) ≡ ok roles)

-- The items of page after page, each page from the cursor of the last; a page without a cursor ends
-- the walk. It gives up after `fuel` pages.
module _ (r : Redis) (lib : Stdlib) (pg : Database) (db : pg.Db) (now u : ℕ) where
  open r use {view, Server}

  abbrev follow :
      List (ℕ × TapeDocument)
      → (ℕ → Method Server (List (ℕ × TapeDocument)))
      → Option ℕ
      → Method Server (List (ℕ × TapeDocument))
  follow items more none = pure items
  follow items more (some p) = do rest ← more p; pure (items ++ rest)

  pub walk : ℕ → Option ℕ → Method Server (List (ℕ × TapeDocument))
  walk zero after = fail runtime_error
  walk (suc fuel) after = do
    p ← read_tape r lib pg db now u after
    follow (map seen p.items) (λ q. walk fuel (some q)) p.next_position

  -- A page without a cursor is the last one.
  pub walk_last :
      (fuel : ℕ) (after : Option ℕ) (srv : Server) (p : TapePage)
      → (read_tape r lib pg db now u after srv).1 ≡ ok p
      → p.next_position ≡ none
      → walk (suc fuel) after srv
        ≡ ((read_tape r lib pg db now u after srv).0, ok (map seen p.items))
  unfolding walk
  walk_last fuel after srv p answered stops = rw (answered, stops) refl

  pub walk_on :
      (fuel : ℕ) (after : Option ℕ) (srv : Server) (p : TapePage) (q : ℕ)
      (rest : List (ℕ × TapeDocument))
      → (read_tape r lib pg db now u after srv).1 ≡ ok p
      → p.next_position ≡ some q
      → (walk fuel (some q) (read_tape r lib pg db now u after srv).0).1 ≡ ok rest
      → walk (suc fuel) after srv ≡ (
        (walk fuel (some q) (read_tape r lib pg db now u after srv).0).0,
        ok (map seen p.items ++ rest),
      )
  unfolding walk
  walk_on fuel after srv p q rest answered goes_on walked = rw (answered, goes_on, walked) refl

  -- The user is configured, and no worker holds the lock.
  abbrev pub IsServed : TapeConfig → Keyspace → Type 0
  IsServed cfg s =
      (is_some (holder s u) ≡ false) × (config_of lib u (s.hashes (cfg_key u)) ≡ ok (some cfg))

  pub sweep-IsServed :
      (cfg : TapeConfig) (z t : Tape) (s : Keyspace)
      → IsServed cfg s
      → IsServed cfg (sweep lib now u (scored_by_user pg db u) z t s)
  sweep-IsServed cfg z t s (free, configured) =
      let (strings, hashes, clock) = sweep-frame lib now u (scored_by_user pg db u) z t s in
      (rw (strings, clock) free, rw hashes configured)

  pub read_tape-end :
      (srv : Server) (cfg : TapeConfig) (t : Tape) (after : Option ℕ)
      → IsServed cfg (view srv)
      → Holds (view srv) u t
      → page t after cfg.page_size ≡ []
      → let (srv', result) = read_tape r lib pg db now u after srv in
        (total : ℕ) × (view srv' ≡ view srv) × (result ≡ ok (empty_page cfg total))
  read_tape-end srv cfg t after (free, configured) h paged =
      let im = read_tape-Implements r lib pg db now u after in
      (
        length ((view srv).zsets (entries_key u)),
        im.state srv ∙ ap (λ (x : Keyspace × Result TapePage). x.0) on_end,
        im.result srv ∙ ap (λ (x : Keyspace × Result TapePage). x.1) on_end,
      )
    where
      on_end :
          read_tape reference lib pg db now u after (view srv)
          ≡ (view srv, ok (empty_page cfg (length ((view srv).zsets (entries_key u)))))
      on_end =
          unfold read_tape in
          unfold count_entries in
          rw (free, configured, list_entries_page-tape (view srv) u t after cfg.page_size h, paged)

pub map-seen :
    (mode : Text) (roles : Dict (List RoleRef)) (kept : List (ℕ × DocumentRow))
    → map seen (map (item_for mode roles) kept) ≡ map (entry_for mode) kept
map-seen mode roles [] = refl
map-seen mode roles (k ∷ kept) = ap (λ x. entry_for mode k ∷ x) (map-seen mode roles kept)
