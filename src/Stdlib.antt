-- ===== src/Stdlib.antt =====
-- What the service takes from Python's standard library and does not implement: JSON text,
-- ISO 8601 text, and SHA-256. A datetime is a number of microseconds.
mod Value
pub use Value.{
  Json, null, bool, num, half, str, arr, obj, Items, nil, cons, Members, end, member, IsFlat,
}
unfoldable pub use Value.{field?, set_field}
use s3p_tape_service.Prelude.{ℕ, ◌≡◌, ◌≢◌, Option, some, []}
use s3p_tape_service.Prelude.Text.{Text}

pub record Stdlib : Type 0 where
  pub dumps : Json → Text
  pub loads : Text → Option Json
  pub isoformat : ℕ → Text
  pub fromisoformat : Text → Option ℕ
  pub hexdigest : Text → Text
  -- a dict of numbers and texts with distinct keys is read back as it was written
  pub loads-dumps : (m : Members) → IsFlat m → loads (dumps (obj m)) ≡ some (obj m)
  pub fromisoformat-isoformat : (t : ℕ) → fromisoformat (isoformat t) ≡ some t
  pub isoformat-ne-nil : (t : ℕ) → isoformat t ≢ []
