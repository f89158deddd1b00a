-- ===== src/Tests/Pages.antt =====
-- Pages and scores at concrete inputs: the tape of user 7 holds the document 5, which the database
-- does not have, 11, which it has, and 9, which the user has scored.
use s3p_tape_service.Prelude.{
  ℕ, ◌≡◌, refl, true, false, none, some, List, [], ◌∷◌, ◌++◌, ◌||◌, ◌&&◌, ◌==◌, arith, map, keep_if,
  not,
}
use s3p_tape_service.Prelude.Dict.{Dict, get, put_all, sorted}
use s3p_tape_service.Prelude.Text.{codes, str_of, text_eq_refl}
use s3p_tape_service.Errors.{Exception, ok, raise, unique_violation}
use s3p_tape_service.Keys.{channel_for, entries_key}
use s3p_tape_service.Redis.{Keyspace, reference, update, has_member}
use s3p_tape_service.Stdlib.{half}
use s3p_tape_service.Database.{DocumentRow, is_scored}
use s3p_tape_service.Db.Documents.{fetch_by_ids}
use s3p_tape_service.Db.Candidates.{candidates_for_user}
use s3p_tape_service.Store.Events.{make_tape_entry_removed}
use s3p_tape_service.Store.Tape.View.{Tape, rows, remove_doc, IsTape, Holds}
use s3p_tape_service.Worker.Generator.{generate_for_user}
use s3p_tape_service.Api.Roles.{
  RoleRef, label_roles, roles_by_source, roles_per_source, all_role_ids,
}
use s3p_tape_service.Db.Names.{fetch_role_names}
use s3p_tape_service.Api.Pages.{source_ids_of}
use s3p_tape_service.Api.Tape.Answer.{visible, page_for}
use s3p_tape_service.Api.Tape.Client.{entry_for, Answers, walk}
use s3p_tape_service.Api.Tape.Locked.{read_tape-acquire}
use s3p_tape_service.Api.Score.Again.{statement, submit_score_again}
use s3p_tape_service.Errors.Answer.{IsAnswered}
use s3p_tape_service.Store.Lock.{acquire}
use s3p_tape_service.Api.Tape.{filter_already_scored, read_tape}
use s3p_tape_service.Api.Tape.Sweep.{without, removed_frames}
use s3p_tape_service.Api.Tape.Page.{ids_of, scored_by_user, document_row, read_tape-page}
use s3p_tape_service.Api.Tape.Paging.{walk_lem}
use s3p_tape_service.Api.Score.{ScoreRequest, score_of, submit_score}
use s3p_tape_service.Api.Score.Laws.{submit_score_lem, regenerate-submit_score}
use s3p_tape_service.Tests.Instances.{std, defaults, database, document}
use s3p_tape_service.Tests.Samples.{configured, configured-config, configured-sources, settings}

abbrev mixed : Tape
mixed = (0, 5) ∷ (1, 11) ∷ (4, 9) ∷ []

mixed-IsTape : IsTape mixed
mixed-IsTape = (
  ((omega arith, λ e. omega arith), ((omega arith, λ e. omega arith), tt)),
  (((omega arith, λ e. omega arith), tt), (tt, tt)),
)

abbrev server : Keyspace
server = record configured { zsets = update (λ _. []) (entries_key 7) (rows mixed) }

server-Holds : Holds server 7 mixed
server-Holds = rw (text_eq_refl (entries_key 7))

abbrev scores : List (ℕ × ℕ)
scores = (7, 9) ∷ []

abbrev docs : Dict DocumentRow
docs = (11, document) ∷ []

abbrev roles : Dict (List RoleRef)
roles = (3, record { id = 1; name = none } ∷ []) ∷ []

found : fetch_by_ids database scores (ids_of mixed) ≡ ok docs
found = unfold fetch_by_ids in unfold get in unfold put_all in refl

marked : filter_already_scored database scores 7 (ids_of mixed) ≡ ok (9 ∷ [])
marked = unfold filter_already_scored in refl

labelled : roles_by_source database scores 7 (source_ids_of docs (9 ∷ []) (ids_of mixed)) ≡ ok roles
labelled =
    unfold roles_by_source in unfold source_ids_of in unfold label_roles in unfold put_all in refl

read_tape-page_example :
    let (srv', result) = read_tape reference std database scores 50 7 none server in
    (result
      ≡ ok (
          page_for settings roles
            (0, 5)
            ((1, 11) ∷ (4, 9) ∷ [])
            (visible (scored_by_user database scores 7) (document_row database scores 7) mixed)))
    × Holds srv' 7 (without (scored_by_user database scores 7) mixed mixed)
    × IsTape (without (scored_by_user database scores 7) mixed mixed)
    × (srv'.channels (channel_for 7)
        ≡ server.channels (channel_for 7)
          ++ removed_frames std 50 7 (scored_by_user database scores 7) mixed)
read_tape-page_example =
    read_tape-page database scores 7 reference std 50 server settings mixed none (0, 5)
      ((1, 11) ∷ (4, 9) ∷ []) docs (9 ∷ []) roles refl configured-config server-Holds mixed-IsTape
      refl found marked labelled

read_tape-acquire_example :
    let taken = (reference.elapse 5 (acquire reference defaults (codes "w") 7 server).0).0 in
    let (srv', result) = read_tape reference std database scores 50 7 none taken in
    (srv' ≡ taken) × IsAnswered result 409 (codes "TAPE_LOCKED") (codes "tape is regenerating")
unfolding acquire
read_tape-acquire_example =
    read_tape-acquire database scores 7 reference std defaults (codes "w") server 5 50 none refl
      (omega arith)

roles_found :
    (sources : List ℕ)
    → (found : Dict (List ℕ)) × (roles_per_source database scores 7 sources ≡ ok found)
unfolding roles_per_source
roles_found [] = ([], refl)
roles_found (s ∷ sources) = let (found, e) = roles_found sources in ((s, 1 ∷ []) ∷ found, rw e refl)

no_names : (ids : List ℕ) → fetch_role_names database scores ids ≡ ok []
unfolding fetch_role_names put_all
no_names [] = refl
no_names (i ∷ ids) = refl

roles_labelled :
    (sources : List ℕ)
    → (roles : Dict (List RoleRef)) × (roles_by_source database scores 7 sources ≡ ok roles)
unfolding roles_by_source label_roles
roles_labelled sources =
    let (found, e) = roles_found sources in
    (label_roles [] found, rw (e, no_names (sorted (all_role_ids found))) refl)

docs_answered :
    (ids : List ℕ) → (docs : Dict DocumentRow) × (fetch_by_ids database scores ids ≡ ok docs)
unfolding fetch_by_ids
docs_answered [] = ([], refl)
docs_answered (i ∷ ids) = (_, refl)

scored_answered :
    (ids : List ℕ) → (scored : List ℕ) × (filter_already_scored database scores 7 ids ≡ ok scored)
unfolding filter_already_scored
scored_answered [] = ([], refl)
scored_answered (i ∷ ids) = (_, refl)

answers : Answers database scores 7
answers ids =
    let (docs, found) = docs_answered ids in
    let (scored, marked) = scored_answered ids in
    let (roles, labelled) = roles_labelled (source_ids_of docs scored ids) in
    (docs, scored, roles, found, marked, labelled)

walk_lem_example :
    let (srv', result) = walk reference std database scores 50 7 4 none server in
    (result
      ≡ ok (
          map
            (entry_for (codes "compact"))
            (visible (scored_by_user database scores 7) (document_row database scores 7) mixed)))
    × Holds srv' 7 (keep_if (λ e. not (scored_by_user database scores 7 e.1)) mixed)
walk_lem_example =
    walk_lem reference std database scores 50 7 settings (omega arith) answers 4 mixed server
      (refl, configured-config) server-Holds mixed-IsTape (omega arith)

abbrev request : ScoreRequest
request = record { document_id = 11; role_id = 1; verdict = codes "unsure"; comment = none }

request-score : score_of (codes "unsure") ≡ some (half 1)
request-score = unfold score_of in refl

submit_score_lem_example :
    let ((db_after, srv'), result) =
      submit_score reference std database 50 7 request (scores, server) in
    (result ≡ ok 1)
    × ((v i : ℕ)
        → is_scored (database.tables db_after).scores v i
          ≡ ((v == 7) && (i == 11) || is_scored scores v i))
    × Holds srv' 7 (remove_doc 11 mixed)
    × IsTape (remove_doc 11 mixed)
    × (srv'.channels (channel_for 7)
        ≡ server.channels (channel_for 7) ++ std.dumps (make_tape_entry_removed std 50 7 11) ∷ [])
submit_score_lem_example =
    submit_score_lem reference std database 50 7 request (half 1) scores server mixed
      ((7, 11) ∷ scores) 1 request-score refl server-Holds mixed-IsTape

-- Another verdict on the same document.
abbrev repeated : ScoreRequest
repeated = record { document_id = 11; role_id = 1; verdict = codes "yes"; comment = none }

repeated-score : score_of (codes "yes") ≡ some (half 2)
repeated-score = unfold score_of in refl

only_violation :
    (e : Exception)
    → (statement reference std database 7 repeated (half 2) ((7, 11) ∷ scores)).1 ≡ raise e
    → e ≡ unique_violation
only_violation e raised = cc raised

submit_score_again_example :
    let recorded = (submit_score reference std database 50 7 request (scores, server)).0.0 in
    let ((db_after, srv'), result) =
      submit_score reference std database 60 7 repeated (recorded, configured) in
    IsAnswered result 409
      (codes "ALREADY_SCORED")
      (codes "this document has already been scored by you")
    × (srv' ≡ configured)
    × (database.tables db_after ≡ database.tables recorded)
submit_score_again_example =
    submit_score_again reference std database 7 50 60 request repeated (half 1) (half 2) scores
      ((7, 11) ∷ scores) server configured 1 request-score refl refl refl repeated-score
      only_violation

not_found :
    candidates_for_user database ((7, 11) ∷ scores) 7 (3 ∷ []) none none (codes "desc") [] ≡ ok []
not_found = unfold candidates_for_user in refl

regenerate-submit_score_example :
    let db_after = (submit_score reference std database 50 7 request (scores, server)).0.0 in
    has_member (str_of 11) (
      (generate_for_user reference std defaults database db_after [] 50 7 true configured).0.zsets
        (entries_key 7))
    ≡ false
regenerate-submit_score_example =
    regenerate-submit_score reference std database 50 7 request (half 1) scores ((7, 11) ∷ scores)
      server configured 1 defaults [] 3 [] [] settings request-score refl configured-config
      configured-sources refl (omega arith) not_found
