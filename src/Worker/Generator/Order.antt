-- ===== src/Worker/Generator/Order.antt =====
-- The order in which a full run of the generator puts the documents on the tape.
use s3p_tape_service.Prelude.{
  ℕ, ◌<◌, ◌≤◌, ◌+◌, All, Bool, if◌then◌else◌, ◌≡◌, refl, ap, sym, subst, ◌∙◌, true, false, ◌||◌,
  some, List, [], ◌∷◌, ◌++◌, map, ◌==◌, contains, arith,
}
use s3p_tape_service.Prelude.Sets.{IsDistinct}
use s3p_tape_service.Prelude.Text.{Text, codes, text_eq}
use s3p_tape_service.Errors.{ok}
use s3p_tape_service.Keys.{cfg_key, cfg_sources_key}
use s3p_tape_service.Redis.{Redis}
use s3p_tape_service.Redis.Command.{is_some}
use s3p_tape_service.Stdlib.{Stdlib}
use s3p_tape_service.Settings.{Settings}
use s3p_tape_service.Database.{Database, DocumentRow, IsOrdered, published_of}
use s3p_tape_service.Db.Candidates.{candidates_for_user, order_clause}
use s3p_tape_service.Store.Lock.Laws.{holder}
use s3p_tape_service.Store.Tape.Config.{TapeConfig, config_of, sorted_ids}
use s3p_tape_service.Store.Tape.View.{Tape, has_doc, IsTape, Holds}
use s3p_tape_service.Store.Tape.Append.{new_entries}
use s3p_tape_service.Worker.Generator.{generate_for_user}
use s3p_tape_service.Worker.Generator.Outcome.{regenerate_lem}
use s3p_tape_service.Worker.Generator.Wanted.{exclude_nothing}

-- The documents of a tape, in its order.
abbrev pub documents_of : Tape → List ℕ
documents_of t = map (λ (e : ℕ × ℕ). e.1) t

has_doc-append_one :
    (e p d : ℕ) (t : Tape) → has_doc e (t ++ (p, d) ∷ []) ≡ (has_doc e t || (e == d))
has_doc-append_one e p d [] = ground arith
has_doc-append_one e p d ((q, f) ∷ t) = ground (arith, has_doc-append_one e p d t)

documents_of-new_entries :
    (t : Tape) (start i : ℕ) (ids : List ℕ)
    → IsDistinct ids
    → ((e : ℕ) → contains ids e ≡ true → has_doc e t ≡ false)
    → documents_of (new_entries t start i ids) ≡ ids
documents_of-new_entries t start i [] h new = refl
documents_of-new_entries t start i (d ∷ ids) h new =
    let fresh : has_doc d t ≡ false = new d (ground arith) in
    rw fresh (
      ap (λ x. d ∷ x)
        (documents_of-new_entries (t ++ (start + i, d) ∷ []) start (i + 1) ids h.1
          λ e at. ground (arith, has_doc-append_one e (start + i) d t, new e, h.0, at)))

-- No date of publication is followed by a later one.
abbrev pub NewestFirst : List DocumentRow → List ℕ → Type 0
NewestFirst documents [] = Unit
NewestFirst documents (i ∷ ids) =
    All (λ j. published_of documents j ≤ published_of documents i) ids × NewestFirst documents ids

-- No date of publication is followed by an earlier one.
abbrev pub OldestFirst : List DocumentRow → List ℕ → Type 0
OldestFirst documents [] = Unit
OldestFirst documents (i ∷ ids) =
    All (λ j. published_of documents i ≤ published_of documents j) ids × OldestFirst documents ids

IsOrdered-NewestFirst :
    (documents : List DocumentRow) (ids : List ℕ)
    → IsOrdered (codes "DESC") documents ids
    → NewestFirst documents ids
unfolding text_eq
IsOrdered-NewestFirst documents [] h = tt
IsOrdered-NewestFirst documents (i ∷ ids) h = (h.0, IsOrdered-NewestFirst documents ids h.2)

IsOrdered-OldestFirst :
    (documents : List DocumentRow) (ids : List ℕ)
    → IsOrdered (codes "ASC") documents ids
    → OldestFirst documents ids
unfolding text_eq
IsOrdered-OldestFirst documents [] h = tt
IsOrdered-OldestFirst documents (i ∷ ids) h = (h.0, IsOrdered-OldestFirst documents ids h.2)

-- The order that a configuration asks for.
abbrev pub AskedOrder : Text → List DocumentRow → List ℕ → Type 0
AskedOrder ordering documents ids =
    if text_eq ordering (codes "desc") then NewestFirst documents ids else OldestFirst documents ids

IsOrdered-AskedOrder :
    (ordering : Text) (documents : List DocumentRow) (ids : List ℕ)
    → IsOrdered (order_clause ordering) documents ids
    → AskedOrder ordering documents ids
unfolding order_clause
IsOrdered-AskedOrder ordering documents ids = by_direction (text_eq ordering (codes "desc"))
  where
    by_direction :
        (b : Bool)
        → IsOrdered (if b then codes "DESC" else codes "ASC") documents ids
        → (if b then NewestFirst documents ids else OldestFirst documents ids)
    by_direction true = IsOrdered-NewestFirst documents ids
    by_direction false = IsOrdered-OldestFirst documents ids

IsOrdered-IsDistinct :
    (clause : Text) (documents : List DocumentRow) (ids : List ℕ)
    → IsOrdered clause documents ids
    → IsDistinct ids
IsOrdered-IsDistinct clause documents [] h = tt
IsOrdered-IsDistinct clause documents (d ∷ ids) h =
    (h.1, IsOrdered-IsDistinct clause documents ids h.2)

module _ (pg : Database) (db : pg.Db) (u source : ℕ) (sources ids : List ℕ) (cfg : TapeConfig) where
  ids-IsOrdered :
      candidates_for_user pg db u (source ∷ sources) cfg.date_from cfg.date_to cfg.ordering []
        ≡ ok ids
      → IsOrdered (order_clause cfg.ordering) (pg.tables db).documents ids
  unfolding candidates_for_user
  ids-IsOrdered found =
      pg.candidates_ordered db u (source ∷ sources) cfg.date_from cfg.date_to
        (order_clause cfg.ordering) ids (sym (exclude_nothing _) ∙ found)

  -- After a full run for a user whose configuration and whose first source can be read, whose
  -- lock is free and has a positive lifetime, and whose query of the database succeeds, the user
  -- has a well-formed tape whose documents stand in the order of their dates of publication that
  -- the configuration asks for: the newest first for `desc`, else the oldest first.
  pub regenerate-IsOrdered :
      (r : Redis) (lib : Stdlib) (st : Settings) (token : Text) (now : ℕ) (srv : r.Server)
      → config_of lib u ((r.view srv).hashes (cfg_key u)) ≡ ok (some cfg)
      → sorted_ids ((r.view srv).sets (cfg_sources_key u)) ≡ ok (source ∷ sources)
      → is_some (holder (r.view srv) u) ≡ false
      → 0 < st.worker_advisory_lock_ttl_seconds
      → candidates_for_user pg db u (source ∷ sources) cfg.date_from cfg.date_to cfg.ordering []
        ≡ ok ids
      → (t : Tape) × Holds (r.view (generate_for_user r lib st pg db token now u true srv).0) u t
        × IsTape t
        × AskedOrder cfg.ordering (pg.tables db).documents (documents_of t)
  regenerate-IsOrdered r lib st token now srv configured selected free positive found =
      let outcome =
        regenerate_lem r lib st pg db token now u srv cfg source sources configured selected free
          positive ids found in
      let ordered = ids-IsOrdered found in
      let same =
        documents_of-new_entries [] 0 0 ids
          (IsOrdered-IsDistinct (order_clause cfg.ordering) (pg.tables db).documents ids ordered)
          (λ e at. refl) in
      (
        new_entries [] 0 0 ids,
        outcome.1,
        outcome.2,
        IsOrdered-AskedOrder cfg.ordering (pg.tables db).documents _ (
            subst (IsOrdered (order_clause cfg.ordering) (pg.tables db).documents) (sym same)
              ordered),
      )
