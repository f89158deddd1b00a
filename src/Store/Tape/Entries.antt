-- ===== src/Store/Tape/Entries.antt =====
-- The tape itself, a sorted set of document ids scored by position:
-- src/tape_service/store/tape.py, section "entries".
use s3p_tape_service.Prelude.{ℕ, ◌+◌, Option, none, some, List, [], ◌∷◌, ◌==◌, if◌then◌else◌}
use s3p_tape_service.Prelude.Text.{Text, str_of, int_of}
use s3p_tape_service.Action.{Action, pure, ◌>>=◌, ◌>>◌, for_map}
use s3p_tape_service.Errors.{Result, ok, raise, value_error}
use s3p_tape_service.Keys.{entries_key}
use s3p_tape_service.Redis.{Redis}

-- `int(member)`, which raises `ValueError` on a text that is no number
unfoldable pub int_or_raise : Text → Result ℕ
unfolding int_of
int_or_raise t = elim (int_of t) [ none ↦ raise value_error | some n ↦ ok n ]

abbrev pub add_row : ℕ → Result ℕ → Result (List (ℕ × ℕ)) → Result (List (ℕ × ℕ))
add_row score (raise e) rest = raise e
add_row score (ok doc_id) (raise e) = raise e
add_row score (ok doc_id) (ok rest) = ok ((score, doc_id) ∷ rest)

-- `[(int(score), int(member)) for member, score in rows]`
unfoldable pub read_rows : List (Text × ℕ) → Result (List (ℕ × ℕ))
unfolding int_or_raise
read_rows [] = ok []
read_rows ((member, score) ∷ rows) = add_row score (int_or_raise member) (read_rows rows)

-- `enumerate(xs)`, from `i`
unfoldable pub enumerate : {A : Type 0} → ℕ → List A → List (ℕ × A)
enumerate i [] = []
enumerate i (x ∷ xs) = (i, x) ∷ enumerate (i + 1) xs

-- `[(start_position + i, int(doc_ids[i])) for i, r in enumerate(results) if int(r) == 1]`, with
-- the ids and the results side by side.
unfoldable pub added : ℕ → List (ℕ × ℕ) → List ℕ → List (ℕ × ℕ)
added start ((i, doc_id) ∷ ids) (r ∷ results) =
    let rest = added start ids results in if r == 1 then (start + i, doc_id) ∷ rest else rest
added start _ _ = []

-- `none` stands for -1.
unfoldable pub last_score : List (Text × ℕ) → Option ℕ
last_score [] = none
last_score ((_, score) ∷ _) = some score

module _ (r : Redis) where
  open r use {Server, zrange_first, zrange_above, zrange_last, zcard, zadd_nx, zrem, delete}

  unfoldable pub entries_rows : ℕ → Option ℕ → ℕ → Action Server (List (Text × ℕ))
  entries_rows user_id none limit = zrange_first (entries_key user_id) limit
  entries_rows user_id (some after) limit = zrange_above (entries_key user_id) after limit

  unfoldable pub list_entries_page : ℕ → Option ℕ → ℕ → Action Server (Result (List (ℕ × ℕ)))
  unfolding entries_rows read_rows
  list_entries_page user_id after_position limit = do
    rows ← entries_rows user_id after_position limit
    pure (read_rows rows)

  unfoldable pub count_entries : ℕ → Action Server ℕ
  count_entries user_id = zcard (entries_key user_id)

  -- `none` is the -1 that the source returns for an empty tape.
  unfoldable pub max_position : ℕ → Action Server (Option ℕ)
  unfolding last_score
  max_position user_id = do last ← zrange_last (entries_key user_id); pure (last_score last)

  -- The pipeline of ZADD NX commands.
  unfoldable pub add_entries : ℕ → ℕ → List (ℕ × ℕ) → Action Server (List ℕ)
  unfolding for_map
  add_entries user_id start ids =
      for_map ids (λ e. zadd_nx (entries_key user_id) (str_of e.1) (start + e.0))

  -- `run_id` is not used.
  unfoldable pub append_entries : ℕ → List ℕ → ℕ → ℕ → Action Server (List (ℕ × ℕ))
  unfolding add_entries added enumerate
  append_entries user_id [] run_id start_position = pure []
  append_entries user_id (d ∷ doc_ids) run_id start_position = do
    results ← add_entries user_id start_position (enumerate 0 (d ∷ doc_ids))
    pure (added start_position (enumerate 0 (d ∷ doc_ids)) results)

  unfoldable pub remove_entry : ℕ → ℕ → Action Server ℕ
  remove_entry user_id document_id = zrem (entries_key user_id) (str_of document_id)

  unfoldable pub delete_all_entries : ℕ → Action Server ℕ
  delete_all_entries user_id = do
    n ← zcard (entries_key user_id)
    delete (entries_key user_id)
    pure n
