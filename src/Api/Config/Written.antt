-- ===== src/Api/Config/Written.antt =====
-- What `write_config` of src/tape_service/api/config.py stores and answers.
use s3p_tape_service.Prelude.{
  ℕ, ◌≡◌, refl, ap, sym, ◌∙◌, append_assoc, true, false, ◌&&◌, not, Option, some, List, [], ◌∷◌,
  ◌++◌, contains, arith,
}
use s3p_tape_service.Prelude.Sets.{IsAscending}
use s3p_tape_service.Prelude.Text.{Text, codes, str_of, text_eq_refl}
use s3p_tape_service.Errors.{Result, ok, raise, api, api_error, forbidden, status, code}
use s3p_tape_service.Errors.Answer.{IsAnswered, answered}
use s3p_tape_service.Keys.{channel_for, cfg_key, cfg_sources_key}
use s3p_tape_service.Redis.{Redis, Keyspace, reference}
use s3p_tape_service.Stdlib.{Stdlib}
use s3p_tape_service.Database.{Database}
use s3p_tape_service.Store.Events.{make_schedule_queued}
use s3p_tape_service.Store.Tape.Config.{
  TapeConfig, get_config, upsert_config, get_config_sources, sorted_ids, config_of,
}
use s3p_tape_service.Store.Tape.Sources.{get_config_sources-set_config_sources}
use s3p_tape_service.Api.Config.{
  SourceRef, ConfigUpdate, ConfigResponse, admits, is_ordering, is_display_mode, checked,
  response_of, refused, items_text, list_text, not_permitted, hydrate_sources, store_config,
  unless_refused, write_config,
}
use s3p_tape_service.Api.Config
use s3p_tape_service.Api.Config.Laws.{
  refused-IsAscending, contains-refused, no_member, write_config-Implements,
}
use s3p_tape_service.Api.Config.Stored.{
  config_for, stored, stored-config, set_config_sources-channels,
}

-- The answer to an update whose sources are `selected`.
abbrev pub response_for : ConfigUpdate → List ℕ → List SourceRef → ConfigResponse
response_for p selected available = record {
  ordering = p.ordering;
  display_mode = p.display_mode;
  page_size = p.page_size;
  date_from = p.date_from;
  date_to = p.date_to;
  dirty = true;
  selected_source_ids = selected;
  available_sources = available;
}

-- The numbers as Python writes a list of them, without the brackets.
abbrev pub joined : List ℕ → Text
joined [] = []
joined (i ∷ []) = str_of i
joined (i ∷ (j ∷ ids)) = str_of i ++ (codes ", " ++ joined (j ∷ ids))

items_text-joined :
    (i : ℕ) (ids : List ℕ) → str_of i ++ items_text ids ≡ joined (i ∷ ids) ++ codes "]"
unfolding items_text
items_text-joined i [] = refl
items_text-joined i (j ∷ ids) =
    ap (λ x. str_of i ++ (codes ", " ++ x)) (items_text-joined j ids)
    ∙ sym (append_assoc (str_of i) (codes ", " ++ joined (j ∷ ids)) (codes "]"))

list_text-joined : (ids : List ℕ) → list_text ids ≡ codes "[" ++ joined ids ++ codes "]"
unfolding list_text
list_text-joined [] = refl
list_text-joined (i ∷ ids) = ap (λ x. codes "[" ++ x) (items_text-joined i ids)

-- The message that lists the numbers.
abbrev pub refusal_text : List ℕ → Text
refusal_text bad = codes "sources not permitted for this user: [" ++ joined bad ++ codes "]"

not_permitted-text :
    (bad : List ℕ)
    → not_permitted bad ≡ api (record { error_code = forbidden; message = refusal_text bad })
unfolding not_permitted api_error
not_permitted-text bad =
    ap (λ x. api (api_error forbidden (codes "sources not permitted for this user: " ++ x)))
      (list_text-joined bad)

checked-admits :
    (p : ConfigUpdate) (selected : List ℕ) (available : List SourceRef)
    → admits p ≡ true
    → checked (response_for p selected available) ≡ ok (response_for p selected available)
unfolding checked admits
checked-admits p selected available h = ground arith

module _ (pg : Database) (db : pg.Db) (u : ℕ) where
  read_config-read :
      (lib : Stdlib) (now : ℕ) (s : Keyspace) (cfg : Option TapeConfig) (selected allowed : List ℕ)
      (available : List SourceRef)
      → config_of lib u (s.hashes (cfg_key u)) ≡ ok cfg
      → sorted_ids (s.sets (cfg_sources_key u)) ≡ ok selected
      → hydrate_sources pg db u ≡ ok (allowed, available)
      → Config.read_config reference lib pg db now u s ≡ (s, response_of cfg selected available)
  unfolding Config.read_config get_config get_config_sources
  read_config-read lib now s cfg selected allowed available configured sources labelled =
      rw (configured, sources, labelled)

  permitted :
      (allowed ids : List ℕ)
      → ((d : ℕ) → contains ids d ≡ true → contains allowed d ≡ true)
      → refused allowed ids ≡ []
  permitted allowed ids h =
      no_member (refused allowed ids) λ d. ground (arith, contains-refused allowed ids d, h d)

  module _ (lib : Stdlib) (now : ℕ) (p : ConfigUpdate) where
    -- The server after the three writes.
    abbrev pub announced : Keyspace → Keyspace
    announced s =
        (reference.publish (channel_for u)
          (lib.dumps (make_schedule_queued lib now u (codes "config_dirty")))
          (stored lib now u p s)).0

    write_config-allowed :
        (s : Keyspace) (out allowed : List ℕ) (available : List SourceRef)
        → hydrate_sources pg db u ≡ ok (allowed, available)
        → admits p ≡ true
        → ((d : ℕ) → contains p.selected_source_ids d ≡ true → contains allowed d ≡ true)
        → sorted_ids ((stored lib now u p s).sets (cfg_sources_key u)) ≡ ok out
        → write_config reference lib pg db now u p s
          ≡ (announced s, ok (response_for p out available))
    unfolding write_config unless_refused store_config response_of
    write_config-allowed s out allowed available labelled good mine sources =
        rw (labelled, permitted allowed p.selected_source_ids mine)
          (read_config-read lib now (announced s) (some (config_for u p)) out allowed available
              (stored-config lib now u p s) sources labelled
            ∙ ap (λ x. (announced s, x)) (checked-admits p out available good))

    pub write_config-announced :
        (s : Keyspace) (allowed : List ℕ) (available : List SourceRef)
        → hydrate_sources pg db u ≡ ok (allowed, available)
        → admits p ≡ true
        → ((d : ℕ) → contains p.selected_source_ids d ≡ true → contains allowed d ≡ true)
        → (write_config reference lib pg db now u p s).0 ≡ announced s
    unfolding get_config_sources
    write_config-announced s allowed available labelled good mine =
        let (out, sources, _, _) =
          get_config_sources-set_config_sources reference
            (upsert_config reference lib now u p.ordering p.display_mode p.page_size p.date_from
              p.date_to s).0
            u p.selected_source_ids in
        ap (λ (x : Keyspace × Result ConfigResponse). x.0)
          (write_config-allowed s out allowed available labelled good mine sources)

    announced-channels :
        (s : Keyspace)
        → (announced s).channels (channel_for u)
          ≡ s.channels (channel_for u)
            ++ lib.dumps (make_schedule_queued lib now u (codes "config_dirty")) ∷ []
    unfolding upsert_config
    announced-channels s = rw (
      text_eq_refl (channel_for u),
      set_config_sources-channels u p.selected_source_ids
          (upsert_config reference lib now u p.ordering p.display_mode p.page_size p.date_from
            p.date_to s).0,
    )

    -- A user who may see every requested source writes a configuration that the schema admits,
    -- while the database answers. The response and the server hold what was written, with the dirty
    -- flag set; the selected sources are the requested ones, ascending and each once; and the user's
    -- channel receives one frame, which announces a run.
    pub write_config_lem :
        (r : Redis) (srv : r.Server) (allowed : List ℕ) (available : List SourceRef)
        → hydrate_sources pg db u ≡ ok (allowed, available)
        → admits p ≡ true
        → ((d : ℕ) → contains p.selected_source_ids d ≡ true → contains allowed d ≡ true)
        → let (srv', result) = write_config r lib pg db now u p srv in
          (out : List ℕ) × (result ≡ ok (response_for p out available))
          × IsAscending out
          × ((d : ℕ) → contains out d ≡ contains p.selected_source_ids d)
          × (config_of lib u ((r.view srv').hashes (cfg_key u)) ≡ ok (some (config_for u p)))
          × (sorted_ids ((r.view srv').sets (cfg_sources_key u)) ≡ ok out)
          × ((r.view srv').channels (channel_for u)
              ≡ (r.view srv).channels (channel_for u)
                ++ lib.dumps (make_schedule_queued lib now u (codes "config_dirty")) ∷ [])
    unfolding get_config_sources
    write_config_lem r srv allowed available labelled good mine =
        let (out, sources, ascending, same) =
          get_config_sources-set_config_sources reference
            (upsert_config reference lib now u p.ordering p.display_mode p.page_size p.date_from
              p.date_to (r.view srv)).0
            u p.selected_source_ids in
        let done =
          write_config-allowed (r.view srv) out allowed available labelled good mine sources in
        let im = write_config-Implements r lib pg db now u p in
        let left : r.view (write_config r lib pg db now u p srv).0 ≡ announced (r.view srv) =
          im.state srv ∙ ap (λ (x : Keyspace × Result ConfigResponse). x.0) done in
        (
          out,
          im.result srv ∙ ap (λ (x : Keyspace × Result ConfigResponse). x.1) done,
          ascending,
          same,
          rw left (stored-config lib now u p (r.view srv)),
          rw left sources,
          rw left (announced-channels (r.view srv)),
        )

    write_config-stopped :
        (s : Keyspace) (allowed : List ℕ) (available : List SourceRef) (d : ℕ)
        → hydrate_sources pg db u ≡ ok (allowed, available)
        → (bad : List ℕ) → refused allowed p.selected_source_ids ≡ bad
        → contains bad d ≡ true
        → write_config reference lib pg db now u p s ≡ (s, raise (not_permitted bad))
    unfolding write_config unless_refused
    write_config-stopped s allowed available d labelled [] e h = cc
    write_config-stopped s allowed available d labelled (b ∷ bad) e h = rw (labelled, e)

    -- A request for a source that the user may not see is refused with FORBIDDEN and a message that
    -- lists all such sources, ascending and each once; nothing changes on the server.
    pub write_config_refused :
        (r : Redis) (srv : r.Server) (allowed : List ℕ) (available : List SourceRef) (d : ℕ)
        → hydrate_sources pg db u ≡ ok (allowed, available)
        → contains p.selected_source_ids d ≡ true
        → contains allowed d ≡ false
        → let (srv', result) = write_config r lib pg db now u p srv in
          (bad : List ℕ) × IsAnswered result 403 (codes "FORBIDDEN") (refusal_text bad)
          × IsAscending bad
          × ((i : ℕ)
              → contains bad i ≡ (contains p.selected_source_ids i && not (contains allowed i)))
          × (r.view srv' ≡ r.view srv)
    unfolding status code
    write_config_refused r srv allowed available d labelled asked hidden =
        let im = write_config-Implements r lib pg db now u p in
        let bad = refused allowed p.selected_source_ids in
        let stopped =
          write_config-stopped (r.view srv) allowed available d labelled bad refl
            (ground (arith, contains-refused allowed p.selected_source_ids d)) in
        (
          bad,
          answered _ forbidden (refusal_text bad) (
              im.result srv
              ∙ ap (λ (x : Keyspace × Result ConfigResponse). x.1) stopped
              ∙ ap (λ e. raise e) (not_permitted-text bad)),
          refused-IsAscending allowed p.selected_source_ids,
          contains-refused allowed p.selected_source_ids,
          im.state srv ∙ ap (λ (x : Keyspace × Result ConfigResponse). x.0) stopped,
        )
