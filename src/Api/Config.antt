-- ===== src/Api/Config.antt =====
-- src/tape_service/api/config.py and src/tape_service/schemas/config.py: reading and writing the
-- user's configuration. `now` stands for each reading of the clock in one request.
pub mod Laws
pub mod Stored
pub mod Written
use s3p_tape_service.Prelude.{
  ℕ, Bool, true, false, ◌&&◌, ◌||◌, not, Option, none, some, List, [], ◌∷◌, ◌++◌, map, leb,
  contains, keep_if, if◌then◌else◌,
}
use s3p_tape_service.Prelude.Dict.{Dict, add_all, sorted}
use s3p_tape_service.Prelude.Text.{Text, codes, str_of, text_eq}
use s3p_tape_service.Action.{Action}
use s3p_tape_service.Method.{Method, fail, lift, call, ◌>>=◌, ◌>>◌}
use s3p_tape_service.Errors.{Exception, Result, ok, raise, value_error, api, api_error, forbidden}
use s3p_tape_service.Redis.{Redis}
use s3p_tape_service.Stdlib.{Stdlib}
use s3p_tape_service.Database.{Database}
use s3p_tape_service.Db.Names.{fetch_source_names}
use s3p_tape_service.Db.Users.{sources_for}
use s3p_tape_service.Store.Events.{publish, make_schedule_queued}
use s3p_tape_service.Store.Tape.Config.{
  TapeConfig, get_config, upsert_config, get_config_sources, set_config_sources,
}
use s3p_tape_service.Api.Roles.{name_of}

pub record SourceRef : Type 0 where
  pub id : ℕ
  pub name : Option Text

pub record ConfigResponse : Type 0 where
  pub ordering : Text
  pub display_mode : Text
  pub page_size : ℕ
  pub date_from : Option ℕ
  pub date_to : Option ℕ
  pub dirty : Bool
  pub selected_source_ids : List ℕ
  pub available_sources : List SourceRef

pub record ConfigUpdate : Type 0 where
  pub ordering : Text
  pub display_mode : Text
  pub page_size : ℕ
  pub date_from : Option ℕ
  pub date_to : Option ℕ
  pub selected_source_ids : List ℕ

-- `Literal["asc", "desc"]` and `Literal["compact", "detailed"]`
unfoldable pub is_ordering : Text → Bool
unfolding text_eq
is_ordering t = text_eq t (codes "asc") || text_eq t (codes "desc")

unfoldable pub is_display_mode : Text → Bool
unfolding text_eq
is_display_mode t = text_eq t (codes "compact") || text_eq t (codes "detailed")

-- The bodies that the schema of `ConfigUpdate` lets through to the handler.
unfoldable pub admits : ConfigUpdate → Bool
unfolding is_ordering is_display_mode
admits p =
    is_ordering p.ordering
    && is_display_mode p.display_mode
    && leb 1 p.page_size
    && leb p.page_size 200

-- `[SourceRef(id=i, name=names.get(i)) for i in allowed]`
unfoldable pub source_refs : Dict (Option Text) → List ℕ → List SourceRef
unfolding name_of
source_refs names ids = map (λ i. record { id = i; name = name_of names i }) ids

abbrev pub with_names : List ℕ → Result (Dict (Option Text)) → Result (List ℕ × List SourceRef)
unfolding source_refs
with_names allowed (raise e) = raise e
with_names allowed (ok names) = ok (allowed, source_refs names allowed)

-- `ConfigResponse(...)` raises pydantic's `ValidationError`, a `ValueError`, for other texts.
unfoldable pub checked : ConfigResponse → Result ConfigResponse
unfolding is_ordering is_display_mode
checked c =
    if is_ordering c.ordering && is_display_mode c.display_mode then ok c else raise value_error

unfoldable pub response_of : Option TapeConfig → List ℕ → List SourceRef → Result ConfigResponse
unfolding checked
response_of none selected available = checked (record {
  ordering = codes "desc";
  display_mode = codes "compact";
  page_size = 20;
  date_from = none;
  date_to = none;
  dirty = false;
  selected_source_ids = selected;
  available_sources = available;
})
response_of (some cfg) selected available = checked (record {
  ordering = cfg.ordering;
  display_mode = cfg.display_mode;
  page_size = cfg.page_size;
  date_from = cfg.date_from;
  date_to = cfg.date_to;
  dirty = cfg.dirty;
  selected_source_ids = selected;
  available_sources = available;
})

-- `sorted(set(requested) - set(allowed))`
unfoldable pub refused : List ℕ → List ℕ → List ℕ
unfolding sorted
refused allowed requested = sorted (keep_if (λ i. not (contains allowed i)) (add_all [] requested))

-- The items of a list of numbers after the first, in Python's text of the list.
unfoldable pub items_text : List ℕ → Text
items_text [] = codes "]"
items_text (i ∷ ids) = codes ", " ++ str_of i ++ items_text ids

unfoldable pub list_text : List ℕ → Text
unfolding items_text
list_text [] = codes "[]"
list_text (i ∷ ids) = codes "[" ++ str_of i ++ items_text ids

unfoldable pub not_permitted : List ℕ → Exception
unfolding list_text api_error
not_permitted bad =
    api (api_error forbidden (codes "sources not permitted for this user: " ++ list_text bad))

module _ (pg : Database) (db : pg.Db) (user_id : ℕ) where
  unfoldable pub name_sources : Result (List ℕ) → Result (List ℕ × List SourceRef)
  unfolding fetch_source_names
  name_sources (raise e) = raise e
  name_sources (ok allowed) = with_names allowed (fetch_source_names pg db allowed)

  unfoldable pub hydrate_sources : Result (List ℕ × List SourceRef)
  unfolding sources_for
  hydrate_sources = name_sources (sources_for pg db user_id)

module _ (r : Redis) (lib : Stdlib) (pg : Database) (db : pg.Db) (now : ℕ) (user_id : ℕ) where
  open r use {Server}

  unfoldable pub read_config : Method Server ConfigResponse
  unfolding get_config get_config_sources hydrate_sources response_of
  read_config = do
    cfg ← get_config r lib user_id
    selected ← get_config_sources r user_id
    hydrated ← lift (hydrate_sources pg db user_id)
    lift (response_of cfg selected hydrated.1)

  -- The statements after the check.
  unfoldable pub store_config : ConfigUpdate → Method Server ConfigResponse
  unfolding upsert_config set_config_sources publish read_config
  store_config payload = do
    call (
        upsert_config r lib now user_id payload.ordering payload.display_mode payload.page_size
          payload.date_from payload.date_to)
    call (set_config_sources r user_id payload.selected_source_ids)
    call (publish r lib user_id (make_schedule_queued lib now user_id (codes "config_dirty")))
    read_config

  -- `if bad: raise ApiError(...)`
  unfoldable pub unless_refused : ConfigUpdate → List ℕ → Method Server ConfigResponse
  unfolding store_config not_permitted
  unless_refused payload [] = store_config payload
  unless_refused payload (b ∷ bad) = fail (not_permitted (b ∷ bad))

  unfoldable pub write_config : ConfigUpdate → Method Server ConfigResponse
  unfolding hydrate_sources unless_refused refused
  write_config payload = do
    hydrated ← lift (hydrate_sources pg db user_id)
    unless_refused payload (refused hydrated.0 payload.selected_source_ids)
