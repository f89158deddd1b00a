-- ===== src/Worker/Tick/Configured.antt =====
-- From PUT /config to the tape: what the next tick makes of a configuration that a request wrote.
use s3p_tape_service.Prelude.{
  false, ℕ, ◌<◌, ◌≡◌, refl, sym, ap, ◌∙◌, Bool, true, Option, some, List, [], ◌∷◌, ◌++◌, map,
  contains, arith,
}
use s3p_tape_service.Prelude.Text.{codes, str_of, text_eq_ne}
use s3p_tape_service.Errors.{Result, ok, raise}
use s3p_tape_service.Keys.{
  cfg_key, cfg_sources_key, entries_key, lock_key, lock_key-ne-cfg_sources_key,
}
use s3p_tape_service.Redis.{Keyspace, Fields, reference, has_member, lookup}
use s3p_tape_service.Redis.Command.{is_some}
use s3p_tape_service.Store.Lock.Laws.{holder}
use s3p_tape_service.Stdlib.{Stdlib}
use s3p_tape_service.Settings.{Settings}
use s3p_tape_service.Database.{Database, DocumentRow, any_wanted}
use s3p_tape_service.Db.Candidates.{candidates_for_user}
use s3p_tape_service.Store.Tape.Config.{
  TapeConfig, config_of, read_config, bind_result, sorted_ids, is_one, set_config_sources,
  upsert_config,
}
use s3p_tape_service.Store.Tape.Users.{Kind, config, key_for}
use s3p_tape_service.Api.Config.{ConfigUpdate, SourceRef, admits, hydrate_sources, write_config}
use s3p_tape_service.Api.Config.Stored.{config_for}
use s3p_tape_service.Api.Config.Written.{write_config_lem, write_config-announced, announced}
use s3p_tape_service.Worker.Tick.{Moment, tick}
use s3p_tape_service.Worker.Tick.Fair.{Lacks, tick_lem}

-- Which documents are wanted depends on the set of sources alone.
any_wanted-contains :
    (scores : List (ℕ × ℕ)) (u : ℕ) (xs ys : List ℕ) (from to : Option ℕ)
    → ((c : ℕ) → contains xs c ≡ contains ys c)
    → (ds : List DocumentRow) (i : ℕ)
    → any_wanted scores u xs from to ds i ≡ any_wanted scores u ys from to ds i
any_wanted-contains scores u xs ys from to same [] i = refl
any_wanted-contains scores u xs ys from to same (d ∷ ds) i =
    rw (same d.sourceid, any_wanted-contains scores u xs ys from to same ds i) refl

flag_of_three :
    (x : Result ℕ) (y z : Result (Option ℕ)) (f : ℕ → Option ℕ → Option ℕ → TapeConfig)
    (flag : Bool) (cfg : TapeConfig)
    → ((a : ℕ) (b c : Option ℕ) → (f a b c).dirty ≡ flag)
    → bind_result
        (bind_result x λ a. bind_result y λ b. bind_result z λ c. ok (f a b c))
        (λ c. ok (some c))
      ≡ ok (some cfg)
    → flag ≡ cfg.dirty
flag_of_three (raise e) y z f flag cfg h read = ground arith
flag_of_three (ok a) (raise e) z f flag cfg h read = ground arith
flag_of_three (ok a) (ok b) (raise e) f flag cfg h read = ground arith
flag_of_three (ok a) (ok b) (ok c) f flag cfg h read =
    sym (h a b c) ∙ ap (λ (w : TapeConfig). w.dirty) {x = f a b c} {y = cfg} cc

dirty_of-config_of :
    (lib : Stdlib) (u : ℕ) (m : Fields) (cfg : TapeConfig)
    → config_of lib u m ≡ ok (some cfg)
    → is_one (lookup (codes "dirty") m) ≡ cfg.dirty
unfolding config_of read_config
dirty_of-config_of lib u [] cfg read = ground arith
dirty_of-config_of lib u (f ∷ m) cfg read = flag_of_three _ _ _ _ _ cfg (λ a b c. refl) read

lock-set_config_sources :
    (u : ℕ) (ids : List ℕ) (s : Keyspace)
    → (set_config_sources reference u ids s).0.strings (lock_key u) ≡ s.strings (lock_key u)
unfolding set_config_sources
lock-set_config_sources u [] s = rw (text_eq_ne _ _ (lock_key-ne-cfg_sources_key u u)) refl
lock-set_config_sources u (i ∷ ids) s = rw (text_eq_ne _ _ (lock_key-ne-cfg_sources_key u u)) refl

clock-set_config_sources :
    (u : ℕ) (ids : List ℕ) (s : Keyspace) → (set_config_sources reference u ids s).0.clock ≡ s.clock
unfolding set_config_sources
clock-set_config_sources u [] s = refl
clock-set_config_sources u (i ∷ ids) s = refl

module _ (lib : Stdlib) (st : Settings) (pg : Database) (now u : ℕ) (p : ConfigUpdate) where
  lock-announced :
      (asked : pg.Db) (s : Keyspace)
      → (announced pg asked u lib now p s).strings (lock_key u) ≡ s.strings (lock_key u)
  unfolding upsert_config
  lock-announced asked s = lock-set_config_sources u p.selected_source_ids _

  clock-announced :
      (asked : pg.Db) (s : Keyspace) → (announced pg asked u lib now p s).clock ≡ s.clock
  unfolding upsert_config
  clock-announced asked s = clock-set_config_sources u p.selected_source_ids _

  module _ (moment : ℕ → Moment pg) where
    served :
        (out : List ℕ) (c : ℕ) (before after : List (Kind × ℕ)) (s : Keyspace)
        → ((d : ℕ) → contains out d ≡ contains p.selected_source_ids d)
        → contains p.selected_source_ids c ≡ true
        → config_of lib u (s.hashes (cfg_key u)) ≡ ok (some (config_for u p))
        → sorted_ids (s.sets (cfg_sources_key u)) ≡ ok out
        → is_some (holder s u) ≡ false
        → 0 < st.worker_advisory_lock_ttl_seconds
        → ((sources : List ℕ)
            → (ids : List ℕ) × (candidates_for_user pg
                  (moment u).db
                  u
                  sources
                  p.date_from
                  p.date_to
                  p.ordering
                  []
                ≡ ok ids))
        → Lacks u before
        → Lacks u after
        → (d : ℕ)
        → has_member (str_of d) (
            (tick reference lib st pg moment
                (map key_for (before ++ (config, u) ∷ after))
                s).0.zsets
              (entries_key u))
          ≡ any_wanted
              (pg.tables (moment u).db).scores
              u
              p.selected_source_ids
              p.date_from
              p.date_to
              (pg.tables (moment u).db).documents
              d
    served [] c before after s same some_source configured selected free positive query hb ha d =
        absurd (cc (same c, some_source))
    served (source ∷ more) c before after s same some_source configured selected free positive query
          hb ha d =
        let (ids, found) = query (source ∷ more) in
        tick_lem lib st pg moment u (config_for u p) source more ids before after s hb ha configured
          (dirty_of-config_of lib u (s.hashes (cfg_key u)) (config_for u p) configured) selected
          free positive found d
        ∙ any_wanted-contains _ u (source ∷ more) p.selected_source_ids p.date_from p.date_to same _
            d

    -- A user who may see every requested source, of which there is at least one, writes a
    -- configuration that the schema admits, while nobody holds the user's lock. Then comes a tick in
    -- which SCAN finds that configuration once, among those of any other users. If the lifetime of
    -- locks is positive and the user's query of the database succeeds, a document is on the user's
    -- tape exactly if the database has it in one of the sources of the request, published within the
    -- dates of the request, and not scored by the user; whatever was on the tape before, and however
    -- the runs for the others end.
    pub tick-write_config :
        (asked : pg.Db) (allowed : List ℕ) (available : List SourceRef) (c : ℕ)
        (before after : List (Kind × ℕ)) (s : Keyspace)
        → hydrate_sources pg asked u ≡ ok (allowed, available)
        → admits p ≡ true
        → ((d : ℕ) → contains p.selected_source_ids d ≡ true → contains allowed d ≡ true)
        → contains p.selected_source_ids c ≡ true
        → is_some (holder s u) ≡ false
        → 0 < st.worker_advisory_lock_ttl_seconds
        → ((sources : List ℕ)
            → (ids : List ℕ) × (candidates_for_user pg
                  (moment u).db
                  u
                  sources
                  p.date_from
                  p.date_to
                  p.ordering
                  []
                ≡ ok ids))
        → Lacks u before
        → Lacks u after
        → (d : ℕ)
        → has_member (str_of d) (
            (tick reference lib st pg moment
                (map key_for (before ++ (config, u) ∷ after))
                (write_config reference lib pg asked now u p s).0).0.zsets
              (entries_key u))
          ≡ any_wanted
              (pg.tables (moment u).db).scores
              u
              p.selected_source_ids
              p.date_from
              p.date_to
              (pg.tables (moment u).db).documents
              d
    tick-write_config asked allowed available c before after s labelled good mine some_source free
          positive query hb ha d =
        let s' = (write_config reference lib pg asked now u p s).0 in
        let (out, _, _, same, configured, selected, _) =
          write_config_lem pg asked u lib now p reference s allowed available labelled good mine in
        served out c before after s' same some_source configured selected
          (ap (λ (k : Keyspace). is_some (holder k u))
              (write_config-announced pg asked u lib now p s allowed available labelled good mine)
            ∙ rw (lock-announced asked s, clock-announced asked s) free)
          positive query hb ha d
