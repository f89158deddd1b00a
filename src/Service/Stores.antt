-- ===== src/Service/Stores.antt =====
-- Each operation of src/tape_service/store writes by the service's commands for its user only.
use s3p_tape_service.Prelude.{◌+◌, ℕ, Bool, true, false, Option, none, some, List, [], ◌∷◌, leb}
use s3p_tape_service.Prelude.Text.{Text, codes, str_of}
use s3p_tape_service.Errors.{ok}
use s3p_tape_service.Redis.{reference}
use s3p_tape_service.Redis.Command.{live}
use s3p_tape_service.Settings.{Settings}
use s3p_tape_service.Stdlib.{Stdlib, Json, obj, Members}
use s3p_tape_service.Store.Events.{publish}
use s3p_tape_service.Store.Lock.{acquire, release, release_if, is_locked, holds_token}
use s3p_tape_service.Store.Sessions.{
  issue, validate, revoke, reject, refresh, check_dates, check_payload, check_blob, dates, key_of,
  session_of,
}
use s3p_tape_service.Store.Tape.Config.{
  get_config, upsert_config, clear_dirty, get_config_sources, set_config_sources, add_sources,
}
use s3p_tape_service.Store.Tape.Entries.{
  list_entries_page, entries_rows, count_entries, max_position, append_entries, add_entries,
  remove_entry, delete_all_entries, enumerate, added, read_rows,
}
use s3p_tape_service.Store.Tape.Runs.{create_run, finish_run}
use s3p_tape_service.Service.Follows.{
  Follows, Follows-pure, Follows-read, Follows-bind, Follows-if, Follows-for_map, enters-Follows,
  leaves-Follows, empties-Follows, configures-Follows, chooses-Follows, forgets-Follows,
  locks-Follows, unlocks-Follows, counts-Follows, logs-Follows, tells-Follows, signs_in-Follows,
  signs_out-Follows,
}

module _ {b : Bool} {l : ℕ} (u : ℕ) (lib : Stdlib) where
  pub publish-Follows : (event : Json) → Follows b l u (publish reference lib u event)
  unfolding publish
  publish-Follows event = tells-Follows u (lib.dumps event)

  pub get_config-Follows : Follows b l u (get_config reference lib u)
  unfolding get_config
  get_config-Follows = Follows-read _

  pub upsert_config-Follows :
      (now : ℕ) (ordering display_mode : Text) (page_size : ℕ) (date_from date_to : Option ℕ)
      → Follows b l u
          (upsert_config reference lib now u ordering display_mode page_size date_from date_to)
  unfolding upsert_config
  upsert_config-Follows now ordering display_mode page_size date_from date_to =
      configures-Follows u _

  pub create_run-Follows :
      (now : ℕ) (kind : Text) → Follows b l u (create_run reference lib now u kind)
  unfolding create_run
  create_run-Follows now kind = Follows-bind (counts-Follows u) λ run_id.
      Follows-bind
        (logs-Follows u (
          (codes "id", str_of run_id)
          ∷ (codes "kind", kind)
          ∷ (codes "status", codes "running")
          ∷ (codes "started_at", lib.isoformat now)
          ∷ []))
        λ _. Follows-pure run_id

  pub finish_run-Follows :
      (now run_id : ℕ) (status : Text) (added removed : ℕ)
      → Follows b l u (finish_run reference lib now u run_id status added removed)
  unfolding finish_run
  finish_run-Follows now run_id status added removed = logs-Follows u _

pub acquire-Follows :
    (u : ℕ) (st : Settings) (token : Text)
    → Follows true st.worker_advisory_lock_ttl_seconds u (acquire reference st token u)
unfolding acquire
acquire-Follows u st token = locks-Follows u token

pub release_if-Follows :
    {l : ℕ} (u : ℕ) (got : Bool) (token : Text)
    → Follows true l u (release_if reference got u token)
unfolding release_if release
release_if-Follows u false token = Follows-pure tt
release_if-Follows u true token =
    Follows-bind (Follows-read _)
      λ held. Follows-if (holds_token held token) (unlocks-Follows u) (Follows-pure tt)

module _ {b : Bool} {l : ℕ} (u : ℕ) where
  pub is_locked-Follows : Follows b l u (is_locked reference u)
  unfolding is_locked
  is_locked-Follows = Follows-read _

  pub clear_dirty-Follows : Follows b l u (clear_dirty reference u)
  unfolding clear_dirty
  clear_dirty-Follows = configures-Follows u _

  pub get_config_sources-Follows : Follows b l u (get_config_sources reference u)
  unfolding get_config_sources
  get_config_sources-Follows = Follows-read _

  add_sources-Follows : (ids : List ℕ) → Follows b l u (add_sources reference u ids)
  unfolding add_sources
  add_sources-Follows [] = Follows-pure tt
  add_sources-Follows (i ∷ ids) = chooses-Follows u (i ∷ ids)

  pub set_config_sources-Follows :
      (ids : List ℕ) → Follows b l u (set_config_sources reference u ids)
  unfolding set_config_sources
  set_config_sources-Follows ids = Follows-bind (forgets-Follows u) λ _.
      Follows-bind (add_sources-Follows ids)
        λ _. configures-Follows u ((codes "dirty", codes "1") ∷ [])

  entries_rows-Follows :
      (after : Option ℕ) (limit : ℕ) → Follows b l u (entries_rows reference u after limit)
  unfolding entries_rows
  entries_rows-Follows none limit = Follows-read _
  entries_rows-Follows (some p) limit = Follows-read _

  pub list_entries_page-Follows :
      (after : Option ℕ) (limit : ℕ) → Follows b l u (list_entries_page reference u after limit)
  unfolding list_entries_page
  list_entries_page-Follows after limit =
      Follows-bind (entries_rows-Follows after limit) λ rows. Follows-pure (read_rows rows)

  pub count_entries-Follows : Follows b l u (count_entries reference u)
  unfolding count_entries
  count_entries-Follows = Follows-read _

  pub max_position-Follows : Follows b l u (max_position reference u)
  unfolding max_position
  max_position-Follows = Follows-read _

  pub append_entries-Follows :
      (ids : List ℕ) (run_id start : ℕ)
      → Follows b l u (append_entries reference u ids run_id start)
  unfolding append_entries add_entries
  append_entries-Follows [] run_id start = Follows-pure []
  append_entries-Follows (d ∷ ids) run_id start =
      Follows-bind (Follows-for_map (enumerate 0 (d ∷ ids)) λ e. enters-Follows u e.1 (start + e.0))
        λ results. Follows-pure (added start (enumerate 0 (d ∷ ids)) results)

  pub remove_entry-Follows : (d : ℕ) → Follows b l u (remove_entry reference u d)
  unfolding remove_entry
  remove_entry-Follows d = leaves-Follows u d

  pub delete_all_entries-Follows : Follows b l u (delete_all_entries reference u)
  unfolding delete_all_entries
  delete_all_entries-Follows =
      Follows-bind (Follows-read _) λ n. Follows-bind (empties-Follows u) λ _. Follows-pure n

-- Sessions carry no user in their key.
module _ {b : Bool} {l : ℕ} (u : ℕ) (lib : Stdlib) (st : Settings) (raw : Text) where
  pub issue-Follows : (now user : ℕ) → Follows b l u (issue reference lib st now raw user)
  unfolding issue key_of
  issue-Follows now user =
      Follows-bind (signs_in-Follows u (lib.hexdigest raw) _ _) λ _. Follows-pure raw

  pub revoke-Follows : Follows b l u (revoke reference lib st raw)
  unfolding revoke key_of
  revoke-Follows = signs_out-Follows u (lib.hexdigest raw)

  reject-Follows : Follows b l u (reject reference lib st raw)
  unfolding reject key_of
  reject-Follows =
      Follows-bind (signs_out-Follows u (lib.hexdigest raw)) λ _. Follows-pure (ok none)

  check_dates-Follows :
      (now : ℕ) (m : Members) (d : Option (ℕ × ℕ × ℕ))
      → Follows b l u (check_dates reference lib st now raw m d)
  unfolding check_dates refresh key_of
  check_dates-Follows now m none = reject-Follows
  check_dates-Follows now m (some (created, expires, last_seen)) =
      Follows-if (leb expires now) reject-Follows (
        Follows-bind (signs_in-Follows u (lib.hexdigest raw) _ _)
          λ _. Follows-pure (session_of lib m created expires now))

  check_payload-Follows :
      (now : ℕ) (j : Option Json) → Follows b l u (check_payload reference lib st now raw j)
  unfolding check_payload
  check_payload-Follows now (some (obj m)) = check_dates-Follows now m (dates lib m)
  check_payload-Follows now _ = reject-Follows

  pub check_blob-Follows :
      (now : ℕ) (blob : Option Text) → Follows b l u (check_blob reference lib st now raw blob)
  unfolding check_blob
  check_blob-Follows now none = Follows-pure (ok none)
  check_blob-Follows now (some blob) = check_payload-Follows now (lib.loads blob)

  pub validate-Follows : (now : ℕ) → Follows b l u (validate reference lib st now raw)
  unfolding validate
  validate-Follows now =
      Follows-bind (Follows-read (λ s. live s.clock (s.strings (key_of lib raw))))
        λ blob. check_blob-Follows now blob
