-- ===== src/Worker/Tick/Fair.antt =====
-- A tick serves each user, whatever happens to the others.
use s3p_tape_service.Prelude.{
  ℕ, ◌<◌, ◌≤◌, Option, false, arith, ◌≡◌, ◌≢◌, refl, ap, ◌∙◌, Bool, true, some, none, List, [], ◌∷◌,
  ◌++◌, map,
}
use s3p_tape_service.Prelude.Text.{Text, codes, str_of}
use s3p_tape_service.Action.{for_each}
use s3p_tape_service.Errors.{ok}
use s3p_tape_service.Keys.{cfg_key, cfg_sources_key, entries_key}
use s3p_tape_service.Redis.{Keyspace, reference, has_member, lookup}
use s3p_tape_service.Redis.Command.{live, is_some}
use s3p_tape_service.Stdlib.{Stdlib}
use s3p_tape_service.Store.Lock.Laws.{holder}
use s3p_tape_service.Service.Steps.{Steps, done, more}
use s3p_tape_service.Service.Turns.{Step-IsLater}
use s3p_tape_service.Settings.{Settings}
use s3p_tape_service.Database.{Database, any_wanted}
use s3p_tape_service.Db.Candidates.{candidates_for_user}
use s3p_tape_service.Store.Tape.Config.{TapeConfig, config_of, sorted_ids, is_one}
use s3p_tape_service.Store.Tape.Users.{
  Kind, config, sources, key_for, flags, list_users_with_config_lem,
}
use s3p_tape_service.Service.Untouched.{Untouched, Steps-Untouched, same, Untouched-trans}
use s3p_tape_service.Worker.Generator.{generate_for_user}
use s3p_tape_service.Worker.Generator.Commands.{generate_for_user-Follows}
use s3p_tape_service.Worker.Generator.Wanted.{regenerate_wanted}
use s3p_tape_service.Worker.Tick.{Moment, run_user, tick}

-- None of the keys is the user's configuration.
abbrev pub Lacks : ℕ → List (Kind × ℕ) → Type 0
Lacks u [] = Unit
Lacks u ((config, v) ∷ keys) = (v ≢ u) × Lacks u keys
Lacks u ((sources, v) ∷ keys) = Lacks u keys

Steps-clock :
    (b : Bool) (l u v : ℕ) → v ≢ u → (s t : Keyspace) → Steps b l v s t → s.clock ≤ t.clock
Steps-clock b l u v ne s t done = omega arith
Steps-clock b l u v ne s t (more {t = m} before step) =
    omega (arith, Steps-clock b l u v ne s m before, (Step-IsLater b l u v (λ _. ne) m t step).1)

-- A lock that nobody holds does not come to life by the passing of time.
free_later :
    (o : Option (Text × ℕ)) (n m : ℕ)
    → n ≤ m
    → is_some (live n o) ≡ false
    → is_some (live m o) ≡ false
free_later none n m le free = refl
free_later (some (v, deadline)) n m le free = ground (arith, le, free)

module _ (lib : Stdlib) (st : Settings) (pg : Database) (moment : ℕ → Moment pg) (u : ℕ) where
  run_user-clock :
      (v : ℕ) (dirty : Bool)
      → v ≢ u
      → (s : Keyspace) → s.clock ≤ (run_user reference lib st pg moment (v, dirty) s).0.clock
  unfolding run_user
  run_user-clock v dirty ne s =
      let at = moment v in
      Steps-clock true st.worker_advisory_lock_ttl_seconds u v ne s
        (generate_for_user reference lib st pg at.db at.token at.now v dirty s).0
        ((generate_for_user-Follows lib st pg at.db at.token at.now v dirty).at s)

  run_user-Untouched :
      (v : ℕ) (dirty : Bool)
      → v ≢ u
      → (s : Keyspace) → Untouched u s (run_user reference lib st pg moment (v, dirty) s).0
  unfolding run_user
  run_user-Untouched v dirty ne s =
      let at = moment v in
      Steps-Untouched true st.worker_advisory_lock_ttl_seconds v u ne s
        (generate_for_user reference lib st pg at.db at.token at.now v dirty s).0
        ((generate_for_user-Follows lib st pg at.db at.token at.now v dirty).at s)

  others-Untouched :
      (keys : List (Kind × ℕ))
      → Lacks u keys
      → (s0 s : Keyspace)
      → Untouched u s (for_each (flags s0 keys) (run_user reference lib st pg moment) s).0
  unfolding for_each
  others-Untouched [] h s0 s = same
  others-Untouched ((config, v) ∷ keys) h s0 s =
      Untouched-trans (run_user-Untouched v _ h.0 s) (others-Untouched keys h.1 s0 _)
  others-Untouched ((sources, v) ∷ keys) h s0 s = others-Untouched keys h s0 s

  module _ (cfg : TapeConfig) (source : ℕ) (more : List ℕ) (ids : List ℕ) where
    abbrev wanted : ℕ → Bool
    wanted =
        any_wanted (pg.tables (moment u).db).scores u (source ∷ more) cfg.date_from cfg.date_to
          (pg.tables (moment u).db).documents

    -- What the user's run needs: a dirty configuration with sources, and no lock.
    abbrev Due : Keyspace → Type 0
    Due s =
        (config_of lib u (s.hashes (cfg_key u)) ≡ ok (some cfg))
        × (is_one (lookup (codes "dirty") (s.hashes (cfg_key u))) ≡ true)
        × (sorted_ids (s.sets (cfg_sources_key u)) ≡ ok (source ∷ more))
        × (is_some (holder s u) ≡ false)

    served :
        (s t : Keyspace)
        → Due s
        → Untouched u s t
        → s.clock ≤ t.clock
        → 0 < st.worker_advisory_lock_ttl_seconds
        → candidates_for_user pg
            (moment u).db
            u
            (source ∷ more)
            cfg.date_from
            cfg.date_to
            cfg.ordering
            []
          ≡ ok ids
        → (d : ℕ)
        → has_member
            (str_of d)
            ((run_user reference lib st pg moment (u, true) t).0.zsets (entries_key u))
          ≡ wanted d
    unfolding run_user
    served s t (configured, dirty, selected, free) kept le positive found d =
        regenerate_wanted pg (moment u).db u source more ids cfg reference lib st (moment u).token
          (moment u).now t (ap (config_of lib u) kept.config ∙ configured)
          (ap sorted_ids kept.sources ∙ selected)
          (rw kept.lock (free_later _ s.clock t.clock le free)) positive found d

    served_among :
        (before after : List (Kind × ℕ)) (s t : Keyspace)
        → Lacks u before
        → Lacks u after
        → Due s
        → Untouched u s t
        → s.clock ≤ t.clock
        → 0 < st.worker_advisory_lock_ttl_seconds
        → candidates_for_user pg
            (moment u).db
            u
            (source ∷ more)
            cfg.date_from
            cfg.date_to
            cfg.ordering
            []
          ≡ ok ids
        → (d : ℕ)
        → has_member (str_of d) (
            (for_each
                (flags s (before ++ (config, u) ∷ after))
                (run_user reference lib st pg moment)
                t).0.zsets
              (entries_key u))
          ≡ wanted d
    unfolding for_each
    served_among [] after s t hb ha due kept le positive found d = rw due.1 (
        ap (has_member (str_of d)) (others-Untouched after ha s _).tape
        ∙ served s t due kept le positive found d)
    served_among ((config, v) ∷ before) after s t hb ha due kept le positive found d =
        served_among before after s _ hb.1 ha due
          (Untouched-trans kept (run_user-Untouched v _ hb.0 t))
          (omega (arith, le, run_user-clock v _ hb.0 t)) positive found d
    served_among ((sources, v) ∷ before) after s t hb ha due kept le positive found d =
        served_among before after s t hb ha due kept le positive found d

    -- The worker's tick, when SCAN finds the configuration of the user once, among the keys of any
    -- other users. If the configuration can be read, is marked dirty and names a source, nobody
    -- holds the user's lock, its lifetime is positive, and the user's own query of the database
    -- succeeds, then a document is on the user's tape afterwards exactly if the database had it in
    -- one of the user's sources, published within the dates, and not scored by the user; the
    -- runs of the other users may end in any way.
    pub tick_lem :
        (before after : List (Kind × ℕ)) (s : Keyspace)
        → Lacks u before
        → Lacks u after
        → config_of lib u (s.hashes (cfg_key u)) ≡ ok (some cfg)
        → is_one (lookup (codes "dirty") (s.hashes (cfg_key u))) ≡ true
        → sorted_ids (s.sets (cfg_sources_key u)) ≡ ok (source ∷ more)
        → is_some (holder s u) ≡ false
        → 0 < st.worker_advisory_lock_ttl_seconds
        → candidates_for_user pg
            (moment u).db
            u
            (source ∷ more)
            cfg.date_from
            cfg.date_to
            cfg.ordering
            []
          ≡ ok ids
        → (d : ℕ)
        → has_member (str_of d) (
            (tick reference lib st pg moment
                (map key_for (before ++ (config, u) ∷ after))
                s).0.zsets
              (entries_key u))
          ≡ wanted d
    unfolding tick
    tick_lem before after s hb ha configured dirty selected free positive found d =
        let listed = list_users_with_config_lem reference s (before ++ (config, u) ∷ after) in
        rw (listed.0, listed.1)
          (served_among before after s s hb ha (configured, dirty, selected, free) same
            (omega arith) positive found d)
