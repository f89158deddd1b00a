-- ===== src/Api/Cors.antt =====
-- `_cors_allow_origins_from_env` of src/tape_service/main.py: the origins that the application lets
-- send credentials. `strip` is `str.strip`, and `show` is `str` of a value of JSON.
use s3p_tape_service.Prelude.{Option, none, some, List, [], ◌∷◌}
use s3p_tape_service.Prelude.Text.{Text}
use s3p_tape_service.Stdlib.{Stdlib, Json, arr, Items, nil, cons}

unfoldable pub show_items : (Json → Text) → Items → List Text
show_items show nil = []
show_items show (cons j items) = show j ∷ show_items show items

-- What follows `json.loads`; `none` is the `JSONDecodeError`.
unfoldable pub origins_of_json : (Json → Text) → Option Json → List Text
unfolding show_items
origins_of_json show (some (arr items)) = show_items show items
origins_of_json show _ = []

unfoldable pub origins_of_text : Stdlib → (Json → Text) → Text → List Text
unfolding origins_of_json
origins_of_text lib show [] = []
origins_of_text lib show (c ∷ raw) = origins_of_json show (lib.loads (c ∷ raw))

-- `raw` is the variable of the environment, `none` if it is not set.
unfoldable pub cors_allow_origins_from_env :
    Stdlib → (Text → Text) → (Json → Text) → Option Text → List Text
unfolding origins_of_text
cors_allow_origins_from_env lib strip show none = origins_of_text lib show (strip [])
cors_allow_origins_from_env lib strip show (some raw) = origins_of_text lib show (strip raw)
