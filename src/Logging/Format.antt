-- ===== src/Logging/Format.antt =====
-- src/tape_service/logging_setup.py: `JsonFormatter.format`, what a line of the log is made of. What
-- the library of Python makes of the record is an argument: the time, the message and the traceback;
-- and so is `json.dumps` with the flags of this call.
use s3p_tape_service.Prelude.{
  ◌≡◌, refl, sym, ap, ◌∙◌, ◌⊎◌, inl, inr, true, false, Option, none, some, List, [], ◌∷◌,
  if◌then◌else◌, Bool-cases, All, arith,
}
use s3p_tape_service.Prelude.Text.{Text, codes, text_eq, text_eq_iff, text_eq_ne, starts_with}
use s3p_tape_service.Stdlib.{Json, str, obj, Members, end, member, field?, set_field}
use s3p_tape_service.Logging.{
  is_secret, redacted, extra_fields, extra_fields-redacted, fold, fold_case, any_occurs, occurs,
}

-- `fields` is `record.__dict__`, with values as `default=str` shows them.
pub record LogRecord : Type 0 where
  pub time : Text
  pub levelname : Text
  pub name : Text
  pub message : Text
  pub exc_text : Option Text
  pub fields : List (Text × Json)

unfoldable pub with_exc : Option Text → Members → Members
unfolding set_field
with_exc none m = m
with_exc (some exc) m = set_field (codes "exc") (str exc) m

-- `payload[k] = v` for each of them.
unfoldable pub put_fields : List (Text × Json) → Members → Members
unfolding set_field
put_fields [] m = m
put_fields ((k, v) ∷ fields) m = put_fields fields (set_field k v m)

unfoldable pub payload_of : LogRecord → Members
unfolding with_exc put_fields extra_fields
payload_of rec = put_fields (extra_fields rec.fields) (
    with_exc rec.exc_text (
      member (codes "ts") (str rec.time) (
        member (codes "level") (str rec.levelname)
          (member (codes "logger") (str rec.name) (member (codes "msg") (str rec.message) end)))))

unfoldable pub format : (Json → Text) → LogRecord → Text
unfolding payload_of
format dumps rec = dumps (obj (payload_of rec))

-- The field is not there, or hidden.
abbrev pub IsHidden : Option Json → Type 0
IsHidden x = (x ≡ none) ⊎ (x ≡ some redacted)

field?-set_field :
    (k j : Text) (v : Json) (m : Members)
    → field? k (set_field j v m) ≡ (if text_eq k j then some v else field? k m)
unfolding field? set_field
field?-set_field k j v end = refl
field?-set_field k j v (member i w m) = elim (Bool-cases (text_eq j i)) [
  | inl same ↦ rw (same, (text_eq_iff j i).0 same) (ground arith)
  | inr other ↦ rw other (elim (Bool-cases (text_eq k i)) [
    | inl here ↦ ground (arith, text_eq_iff k i, text_eq_iff k j, text_eq_ne j i)
    | inr away ↦ rw away (field?-set_field k j v m)
  ])
]

-- A key that is not secret is not the secret one.
apart : (k j : Text) → is_secret k ≡ true → is_secret j ≡ false → text_eq k j ≡ false
apart k j secret plain = text_eq_ne k j λ same. cc (ap is_secret same, secret, plain)

set_field-IsHidden :
    (k j : Text) (v : Json) (m : Members)
    → is_secret k ≡ true
    → (is_secret j ≡ true → v ≡ redacted)
    → IsHidden (field? k m)
    → IsHidden (field? k (set_field j v m))
set_field-IsHidden k j v m secret hides h =
    rw (field?-set_field k j v m) (elim (Bool-cases (text_eq k j)) [
      | inl same ↦
          rw same (inr (ap some (hides (ap is_secret (sym ((text_eq_iff k j).0 same)) ∙ secret))))
      | inr other ↦ rw other h
    ])

put_fields-IsHidden :
    (k : Text) (fields : List (Text × Json)) (m : Members)
    → is_secret k ≡ true
    → All (λ e. is_secret e.0 ≡ true → e.1 ≡ redacted) fields
    → IsHidden (field? k m)
    → IsHidden (field? k (put_fields fields m))
unfolding put_fields
put_fields-IsHidden k [] m secret hides h = h
put_fields-IsHidden k ((j, v) ∷ fields) m secret hides h =
    put_fields-IsHidden k fields (set_field j v m) secret hides.1
      (set_field-IsHidden k j v m secret hides.0 h)

module _ (k : Text) (secret : is_secret k ≡ true) where
  with_exc-IsHidden :
      (exc : Option Text) (m : Members)
      → IsHidden (field? k m)
      → IsHidden (field? k (with_exc exc m))
  unfolding with_exc is_secret fold fold_case any_occurs occurs starts_with
  with_exc-IsHidden none m h = h
  with_exc-IsHidden (some exc) m h =
      set_field-IsHidden k (codes "exc") (str exc) m secret (λ e. ground arith) h

  own-IsHidden :
      (time levelname name message : Text)
      → IsHidden (
          field? k (
            member (codes "ts") (str time) (
              member
                (codes "level")
                (str levelname)
                (member (codes "logger") (str name) (member (codes "msg") (str message) end)))))
  unfolding field? is_secret fold fold_case any_occurs occurs starts_with
  own-IsHidden time levelname name message =
      rw
        (
          apart k (codes "ts") secret refl,
          apart k (codes "level") secret refl,
          apart k (codes "logger") secret refl,
          apart k (codes "msg") secret refl,
        )
        (inl refl)

  -- Whatever a record of the log carries, and also where a field of it has the name of one that the
  -- formatter sets: a field of the line whose name looks like that of a secret has no value but the
  -- placeholder.
  pub payload_of-IsHidden : (rec : LogRecord) → IsHidden (field? k (payload_of rec))
  unfolding payload_of
  payload_of-IsHidden rec =
      put_fields-IsHidden k (extra_fields rec.fields) _ secret (extra_fields-redacted rec.fields) (
        with_exc-IsHidden rec.exc_text _ (own-IsHidden rec.time rec.levelname rec.name rec.message))
