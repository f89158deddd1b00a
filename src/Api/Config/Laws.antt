-- ===== src/Api/Config/Laws.antt =====
-- What reading and writing the configuration does.
use s3p_tape_service.Prelude.{
  ℕ, ◌≡◌, refl, ap, ◌∙◌, false, ◌&&◌, not, List, [], ◌∷◌, contains, arith,
}
use s3p_tape_service.Prelude.Dict.{add_all}
use s3p_tape_service.Prelude.Sets.{
  IsAscending, add_all-IsDistinct, contains-add_all, contains-sorted, sorted-IsAscending,
  contains-keep_if, keep_if-IsDistinct,
}
use s3p_tape_service.Prelude.Text.{codes}
use s3p_tape_service.Action.{Implements}
use s3p_tape_service.Method.{Implements-bind, Implements-call, Implements-lift}
use s3p_tape_service.Errors.{raise}
use s3p_tape_service.Redis.{Redis, reference}
use s3p_tape_service.Stdlib.{Stdlib}
use s3p_tape_service.Database.{Database}
use s3p_tape_service.Store.Events.{make_schedule_queued}
use s3p_tape_service.Store.Events.Laws.{publish-Implements}
use s3p_tape_service.Store.Tape.Config.Laws.{
  get_config-Implements, upsert_config-Implements, get_config_sources-Implements,
  set_config_sources-Implements,
}
use s3p_tape_service.Api.Config.{
  SourceRef, ConfigUpdate, ConfigResponse, admits, is_ordering, is_display_mode, checked,
  response_of, refused, not_permitted, hydrate_sources, store_config, unless_refused, write_config,
}
use s3p_tape_service.Api.Config

pub refused-IsAscending : (allowed ids : List ℕ) → IsAscending (refused allowed ids)
unfolding refused
refused-IsAscending allowed ids =
    sorted-IsAscending _ (keep_if-IsDistinct _ _ (add_all-IsDistinct [] ids tt))

pub contains-refused :
    (allowed ids : List ℕ) (d : ℕ)
    → contains (refused allowed ids) d ≡ (contains ids d && not (contains allowed d))
unfolding refused
contains-refused allowed ids d =
    contains-sorted _ d
    ∙ contains-keep_if _ (add_all [] ids) d
    ∙ ap (λ b. b && not (contains allowed d)) (contains-add_all [] ids d)

pub no_member : (xs : List ℕ) → ((d : ℕ) → contains xs d ≡ false) → xs ≡ []
no_member [] h = refl
no_member (x ∷ xs) h = ground (arith, h x)

module _ (r : Redis) (lib : Stdlib) (pg : Database) (db : pg.Db) (now u : ℕ) where
  open r use {view}

  read_config-Implements :
      Implements view
        (Config.read_config r lib pg db now u)
        (Config.read_config reference lib pg db now u)
  unfolding Config.read_config
  read_config-Implements = Implements-bind view (get_config-Implements r u lib) λ cfg.
      Implements-bind view (get_config_sources-Implements r u) λ selected.
        Implements-bind view (Implements-lift view (hydrate_sources pg db u))
          λ hydrated. Implements-lift view (response_of cfg selected hydrated.1)

  store_config-Implements :
      (p : ConfigUpdate)
      → Implements view
          (store_config r lib pg db now u p)
          (store_config reference lib pg db now u p)
  unfolding store_config
  store_config-Implements p =
      Implements-bind view
        (Implements-call view (
          upsert_config-Implements r u lib now p.ordering p.display_mode p.page_size p.date_from
            p.date_to))
        λ _.
          Implements-bind view
            (Implements-call view (set_config_sources-Implements r u p.selected_source_ids))
            λ _.
              Implements-bind view
                (Implements-call view (
                  publish-Implements r lib u
                    (make_schedule_queued lib now u (codes "config_dirty"))))
                λ _. read_config-Implements

  unless_refused-Implements :
      (p : ConfigUpdate) (bad : List ℕ)
      → Implements view
          (unless_refused r lib pg db now u p bad)
          (unless_refused reference lib pg db now u p bad)
  unfolding unless_refused
  unless_refused-Implements p [] = store_config-Implements p
  unless_refused-Implements p (b ∷ bad) = Implements-lift view (raise (not_permitted (b ∷ bad)))

  pub write_config-Implements :
      (p : ConfigUpdate)
      → Implements view
          (write_config r lib pg db now u p)
          (write_config reference lib pg db now u p)
  unfolding write_config
  write_config-Implements p =
      Implements-bind view (Implements-lift view (hydrate_sources pg db u))
        λ hydrated. unless_refused-Implements p (refused hydrated.0 p.selected_source_ids)
