-- ===== src/Api/Tape/Paging.antt =====
-- What a client gets that follows `next_position` through the pages of `GET /tape`.
use s3p_tape_service.Prelude.{
  ℕ, zero, suc, ◌<◌, ◌≡◌, ◌≢◌, refl, ap, sym, subst, ◌∙◌, Bool, Option, none, some, List, [], ◌∷◌,
  ◌++◌, ◌==◌, arith, All, Bool-cases, inl, inr, length, take, drop, map, map-append,
  take-append-drop, length-drop, take-of-lt, length-take-le-length, ◌≤◌, keep_if, not,
}
use s3p_tape_service.Prelude.Dict.{Dict}
use s3p_tape_service.Errors.{ok}
use s3p_tape_service.Keys.{entries_key}
use s3p_tape_service.Redis.{Redis, Keyspace}
use s3p_tape_service.Stdlib.{Stdlib}
use s3p_tape_service.Database.{Database}
use s3p_tape_service.Store.Tape.Config.{TapeConfig}
use s3p_tape_service.Store.Tape.View.{Tape, IsTape, Holds}
use s3p_tape_service.Store.Tape.View
use s3p_tape_service.Api.Roles.{RoleRef}
use s3p_tape_service.Api.Pages.{TapeDocument, TapePage, empty_page}
use s3p_tape_service.Api.Tape.{read_tape}
use s3p_tape_service.Api.Tape.Sweep.{without, without-IsTape, sweep-Holds}
use s3p_tape_service.Api.Tape.Answer.{visible, visible-append, end_of, end_of-last?}
use s3p_tape_service.Api.Tape.Page.{ids_of, scored_by_user, document_row, answer, read_tape-view}
use s3p_tape_service.Api.Tape.Cursor.{
  rest_of, rest_of-IsTape, page-rest, Cut, rest-after, take-drop-distinct, keep_if-without,
  without-append, without-all, end_of_full, take-nil,
}
use s3p_tape_service.Api.Tape.Client.{
  entry_for, Answers, walk, IsServed, sweep-IsServed, read_tape-end, walk_last, walk_on, map-seen,
}

end_of-Cut :
    (n : ℕ) (z : Tape) (c : Cut n z) (row : ℕ × ℕ) (rows : Tape)
    → take n z ≡ row ∷ rows
    → end_of row rows ≡ c.at
end_of-Cut n z c row rows same = let (d, last) = end_of-last? row rows in cc (last, c.last, same)

module _ (r : Redis) (lib : Stdlib) (pg : Database) (db : pg.Db) (now u : ℕ) (cfg : TapeConfig)
    (positive : 0 < cfg.page_size) (answers : Answers pg db u) where
  open r use {view, Server}

  abbrev swept : ℕ → Bool
  swept = scored_by_user pg db u

  -- What the client gets of the rows `z`.
  abbrev got : Tape → List (ℕ × TapeDocument)
  got z = map (entry_for cfg.display_mode) (visible swept (document_row pg db u) z)

  page_step :
      (srv : Server) (t : Tape) (after : Option ℕ) (row : ℕ × ℕ) (rows : Tape)
      → IsServed r lib pg db now u cfg (view srv)
      → Holds (view srv) u t
      → IsTape t
      → take cfg.page_size (rest_of t after) ≡ row ∷ rows
      → let (srv', result) = read_tape r lib pg db now u after srv in
        (roles : Dict (List RoleRef)) × (result ≡ ok (answer pg db u r lib now cfg row rows roles))
        × IsServed r lib pg db now u cfg (view srv')
        × Holds (view srv') u (without swept (row ∷ rows) t)
        × IsTape (without swept (row ∷ rows) t)
  page_step srv t after row rows served h tape paged =
      let (docs, scored, roles, found, marked, labelled) = answers (ids_of (row ∷ rows)) in
      let (left, answered) =
        read_tape-view pg db u r lib now srv cfg t after row rows docs scored roles served.0
          served.1 h tape (page-rest t after cfg.page_size positive ∙ paged) found marked
          labelled in
      (
        roles,
        answered,
        subst (IsServed r lib pg db now u cfg) (sym left)
            (sweep-IsServed r lib pg db now u cfg (row ∷ rows) t (view srv) served),
        rw left (sweep-Holds lib now u swept (row ∷ rows) t (view srv) h),
        without-IsTape swept (row ∷ rows) t tape,
      )

  -- After a full page the tape behind the cursor is what the page left.
  rest-without :
      (t : Tape) (after : Option ℕ) (c : Cut cfg.page_size (rest_of t after))
      → IsTape t
      → rest_of (without swept (take cfg.page_size (rest_of t after)) t) (some c.at)
        ≡ drop cfg.page_size (rest_of t after)
  rest-without t after c tape =
      let behind = rest-after t after cfg.page_size c in
      keep_if-without c.at swept (take cfg.page_size (rest_of t after)) t (
        subst (λ y. All (λ e. All (λ f. e.1 ≢ f.1) y) (take cfg.page_size (rest_of t after)))
          (sym behind)
          (take-drop-distinct cfg.page_size (rest_of t after) (rest_of-IsTape t after tape)))
      ∙ behind

  got-append : (y z : Tape) → got (y ++ z) ≡ got y ++ got z
  got-append y z =
      ap (map (entry_for cfg.display_mode)) (visible-append swept (document_row pg db u) y z)
      ∙ map-append (entry_for cfg.display_mode) _ _

  -- What the walk from a cursor on gets, and what it leaves on the server.
  abbrev Walks : ℕ → Option ℕ → Tape → Server → Type 0
  Walks fuel after t srv =
      let (srv', result) = walk r lib pg db now u fuel after srv in
      (result ≡ ok (got (rest_of t after)))
      × Holds (view srv') u (without swept (rest_of t after) t)

  walk_empty :
      (fuel : ℕ) (after : Option ℕ) (t : Tape) (srv : Server)
      → IsServed r lib pg db now u cfg (view srv)
      → Holds (view srv) u t
      → take cfg.page_size (rest_of t after) ≡ []
      → Walks (suc fuel) after t srv
  unfolding empty_page
  walk_empty fuel after t srv served h paged =
      let (total, kept, answered) =
        read_tape-end r lib pg db now u srv cfg t after served h
          (page-rest t after cfg.page_size positive ∙ paged) in
      let ended = walk_last r lib pg db now u fuel after srv (empty_page cfg total) answered refl in
      rw (ended, take-nil cfg.page_size (rest_of t after) positive paged)
        (refl, ap (λ (k : Keyspace). k.zsets (entries_key u)) kept ∙ h)

  walk_page :
      (fuel : ℕ) (after : Option ℕ) (t : Tape) (srv : Server) (row : ℕ × ℕ) (rows : Tape)
      → IsServed r lib pg db now u cfg (view srv)
      → Holds (view srv) u t
      → IsTape t
      → take cfg.page_size (rest_of t after) ≡ row ∷ rows
      → length (rest_of t after) < suc fuel
      → ((at : ℕ) (t' : Tape) (next : Server)
          → IsServed r lib pg db now u cfg (view next)
          → Holds (view next) u t'
          → IsTape t'
          → length (rest_of t' (some at)) < fuel
          → Walks fuel (some at) t' next)
      → Walks (suc fuel) after t srv
  walk_page fuel after t srv row rows served h tape paged enough again =
      elim (Bool-cases (length (row ∷ rows) == n)) [
        | inl full ↦
            let len : length (take n z) ≡ n = ap length paged ∙ ground arith in
            let c = end_of_full n z positive (rest_of-IsTape t after tape) len in
            let fits : n ≤ length z = omega (arith, length-take-le-length n z) in
            let behind : rest_of t' (some c.at) ≡ drop n z =
              subst (λ y. rest_of (without swept y t) (some c.at) ≡ drop n z) paged
                (rest-without t after c tape) in
            let (walked, holds) =
              again c.at t' next served' h' tape'
                (omega (arith, ap length behind, length-drop n z)) in
            let parts : (row ∷ rows) ++ rest_of t' (some c.at) ≡ z =
              ap (λ y. y ++ rest_of t' (some c.at)) (sym paged)
              ∙ ap (λ y. take n z ++ y) behind
              ∙ take-append-drop n z in
            let cursor : page.next_position ≡ some c.at =
              rw full (ap some (end_of-Cut n z c row rows paged)) in
            let whole =
              walk_on r lib pg db now u fuel after srv page c.at (got (rest_of t' (some c.at)))
                answered cursor walked in
            rw
              (
                whole,
                map-seen cfg.display_mode roles (visible swept (document_row pg db u) (row ∷ rows)),
              )
              (
                ap ok (sym (got-append (row ∷ rows) (rest_of t' (some c.at))) ∙ ap got parts),
                holds
                    ∙ ap View.rows (
                        sym (without-append swept (row ∷ rows) (rest_of t' (some c.at)) t)
                        ∙ ap (λ y. without swept y t) parts),
              )
        | inr short ↦
            let less : length (take n z) ≢ n = λ e. ground (arith, ap length paged) in
            let all : row ∷ rows ≡ z = sym paged ∙ take-of-lt n z (ground arith) in
            let stops : page.next_position ≡ none = rw short refl in
            let whole = walk_last r lib pg db now u fuel after srv page answered stops in
            rw
              (
                whole,
                map-seen cfg.display_mode roles (visible swept (document_row pg db u) (row ∷ rows)),
              )
              (ap (λ y. ok (got y)) all, h' ∙ ap (λ y. View.rows (without swept y t)) all)
      ]
    where
      n : ℕ
      n = cfg.page_size

      z : Tape
      z = rest_of t after

      t' : Tape
      t' = without swept (row ∷ rows) t

      next : Server
      next = (read_tape r lib pg db now u after srv).0

      step :
          (roles : Dict (List RoleRef)) × ((read_tape r lib pg db now u after srv).1
            ≡ ok (answer pg db u r lib now cfg row rows roles))
          × IsServed r lib pg db now u cfg (view next)
          × Holds (view next) u t'
          × IsTape t'
      step = page_step srv t after row rows served h tape paged

      roles : Dict (List RoleRef)
      roles = step.0

      page : TapePage
      page = answer pg db u r lib now cfg row rows roles

      answered : (read_tape r lib pg db now u after srv).1 ≡ ok page
      answered = step.1

      served' : IsServed r lib pg db now u cfg (view next)
      served' = step.2

      h' : Holds (view next) u t'
      h' = step.3

      tape' : IsTape t'
      tape' = step.4

  walk_from :
      (fuel : ℕ) (after : Option ℕ) (t : Tape) (srv : Server)
      → IsServed r lib pg db now u cfg (view srv)
      → Holds (view srv) u t
      → IsTape t
      → length (rest_of t after) < fuel
      → Walks fuel after t srv
  walk_from zero after t srv served h tape enough = absurd (omega arith)
  walk_from (suc fuel) after t srv served h tape enough =
      on_page (take cfg.page_size (rest_of t after)) refl
        (λ at t' next served' h' tape' less. walk_from fuel (some at) t' next served' h' tape' less)
    where
      on_page :
          (y : Tape)
          → take cfg.page_size (rest_of t after) ≡ y
          → ((at : ℕ) (t' : Tape) (next : Server)
              → IsServed r lib pg db now u cfg (view next)
              → Holds (view next) u t'
              → IsTape t'
              → length (rest_of t' (some at)) < fuel
              → Walks fuel (some at) t' next)
          → Walks (suc fuel) after t srv
      on_page [] paged again = walk_empty fuel after t srv served h paged
      on_page (row ∷ rows) paged again =
          walk_page fuel after t srv row rows served h tape paged enough again

  -- A client of a configured user with a well-formed tape `t` starts without a cursor and follows
  -- `next_position`, while no worker holds the lock, the queries of the database succeed and nothing
  -- else happens; the page size is positive. After at most `length t + 1` pages the walk ends: its
  -- items are the entries of the tape that the user has not scored and whose document exists, each
  -- once, in the tape's order, with position and document; and the entries that the user has scored
  -- have left the tape, and no others.
  pub walk_lem :
      (fuel : ℕ) (t : Tape) (srv : Server)
      → IsServed r lib pg db now u cfg (view srv)
      → Holds (view srv) u t
      → IsTape t
      → length t < fuel
      → let (srv', result) = walk r lib pg db now u fuel none srv in
        (result
          ≡ ok (
              map
                (entry_for cfg.display_mode)
                (visible (scored_by_user pg db u) (document_row pg db u) t)))
        × Holds (view srv') u (keep_if (λ e. not (scored_by_user pg db u e.1)) t)
  walk_lem fuel t srv served h tape enough =
      let (walked, left) = walk_from fuel none t srv served h tape enough in
      (walked, left ∙ ap View.rows (without-all swept t tape))
