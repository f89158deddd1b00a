-- ===== src/Logging.antt =====
-- src/tape_service/logging_setup.py: the fields of a line of the log, and the secrets that are kept
-- out of it. The values that the formatter makes itself are arguments.
pub mod Format
pub mod Setup
use s3p_tape_service.Prelude.{
  ℕ, ◌+◌, ◌≡◌, refl, Bool, true, false, ◌&&◌, ◌||◌, List, [], ◌∷◌, leb, ◌==◌, if◌then◌else◌,
  Bool-cases, inl, inr, All,
}
use s3p_tape_service.Prelude.Text.{Text, codes, starts_with}
use s3p_tape_service.Redis.Command.{has}
use s3p_tape_service.Stdlib.{Json, str}

-- What `re.I` makes of a character where the pattern has a small letter of ASCII: the four last
-- characters are the ones outside ASCII that it takes for `i`, `s` and `k`.
unfoldable pub fold_case : ℕ → ℕ
fold_case c =
    if leb 65 c && leb c 90
    then c + 32
    else if c == 304 || c == 305
    then 105
    else if c == 383
    then 115
    else if c == 8490
    then 107
    else c

unfoldable pub fold : Text → Text
unfolding fold_case
fold [] = []
fold (c ∷ s) = fold_case c ∷ fold s

-- The text `p` occurs in `s`.
unfoldable pub occurs : Text → Text → Bool
unfolding starts_with
occurs p [] = starts_with p []
occurs p (c ∷ s) = starts_with p (c ∷ s) || occurs p s

unfoldable pub any_occurs : List Text → Text → Bool
unfolding occurs
any_occurs [] s = false
any_occurs (p ∷ ps) s = occurs p s || any_occurs ps s

-- The alternatives of `_SECRET_KEYS`.
abbrev pub secret_keys : List Text
secret_keys =
    codes "token"
    ∷ codes "secret"
    ∷ codes "password"
    ∷ codes "cookie"
    ∷ codes "authorization"
    ∷ codes "session_hash"
    ∷ []

-- `_SECRET_KEYS.search(key)`
unfoldable pub is_secret : Text → Bool
unfolding any_occurs fold
is_secret key = any_occurs secret_keys (fold key)

abbrev pub redacted : Json
redacted = str (codes "***REDACTED***")

-- `_redact`
unfoldable pub redact : Text → Json → Json
unfolding is_secret
redact key value = if is_secret key then redacted else value

abbrev pub std_attrs : List Text
std_attrs =
    codes "args"
    ∷ codes "msg"
    ∷ codes "levelname"
    ∷ codes "name"
    ∷ codes "exc_info"
    ∷ codes "exc_text"
    ∷ codes "stack_info"
    ∷ codes "lineno"
    ∷ codes "funcName"
    ∷ codes "created"
    ∷ codes "msecs"
    ∷ codes "relativeCreated"
    ∷ codes "thread"
    ∷ codes "threadName"
    ∷ codes "processName"
    ∷ codes "process"
    ∷ codes "pathname"
    ∷ codes "filename"
    ∷ codes "module"
    ∷ codes "levelno"
    ∷ codes "taskName"
    ∷ []

-- The loop over `record.__dict__`: what it adds to the payload, in order. A field that is named like
-- one that the formatter set, such as `ts`, replaces it.
unfoldable pub extra_fields : List (Text × Json) → List (Text × Json)
unfolding redact
extra_fields [] = []
extra_fields ((k, v) ∷ fields) =
    let rest = extra_fields fields in if has std_attrs k then rest else (k, redact k v) ∷ rest

-- No field with the name of a secret leaves its value in the log.
pub extra_fields-redacted :
    (fields : List (Text × Json))
    → All (λ e. is_secret e.0 ≡ true → e.1 ≡ redacted) (extra_fields fields)
unfolding extra_fields
extra_fields-redacted [] = tt
extra_fields-redacted ((k, v) ∷ fields) = elim (Bool-cases (has std_attrs k)) [
  | inl std ↦ rw std (extra_fields-redacted fields)
  | inr extra ↦ rw extra (λ secret. rw secret refl, extra_fields-redacted fields)
]
