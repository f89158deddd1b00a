-- ===== src/Db/Probe.antt =====
-- src/tape_service/db/probe.py: what the probes make of the first row of their statements, which is an
-- argument: `none` for no row, and `none` in it for NULL. The driver may raise.
use s3p_tape_service.Prelude.{Bool, false, Option, none, some}
use s3p_tape_service.Errors.{Result, ok, raise}

-- `bool(row and row[0])`
unfoldable pub is_present : Option (Option Bool) → Bool
is_present none = false
is_present (some none) = false
is_present (some (some b)) = b

unfoldable pub tape_schema_present : Result (Option (Option Bool)) → Result Bool
unfolding is_present
tape_schema_present (raise e) = raise e
tape_schema_present (ok row) = ok (is_present row)

unfoldable pub users_auth_by_token_present : Result (Option (Option Bool)) → Result Bool
unfolding is_present
users_auth_by_token_present (raise e) = raise e
users_auth_by_token_present (ok row) = ok (is_present row)
