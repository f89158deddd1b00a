-- ===== src/Stdlib/Value.antt =====
-- JSON values, as `json.loads` returns them and `json.dumps` takes them.
use s3p_tape_service.Prelude.{ℕ, ◌≡◌, Bool, Option, none, some, if◌then◌else◌}
use s3p_tape_service.Prelude.Text.{Text, text_eq}

-- Numbers are natural here; `half n` is the float n / 2.
mutual
  pub data Json : Type 0 where
    null : Json
    bool : Bool → Json
    num : ℕ → Json
    half : ℕ → Json
    str : Text → Json
    arr : Items → Json
    obj : Members → Json

  pub data Items : Type 0 where
    nil : Items
    cons : Json → Items → Items

  pub data Members : Type 0 where
    end : Members
    member : Text → Json → Members → Members

-- `d[key]` and `d.get(key)` for a dict
unfoldable pub field? : Text → Members → Option Json
field? key end = none
field? key (member k j m) = if text_eq key k then some j else field? key m

-- `d[key] = j` for a key that is present, and at the end otherwise
unfoldable pub set_field : Text → Json → Members → Members
set_field key j end = member key j end
set_field key j (member k i m) =
    if text_eq key k then member k j m else member k i (set_field key j m)

abbrev IsScalar : Json → Type 0
IsScalar (num _) = Unit
IsScalar (str _) = Unit
IsScalar _ = ⊥

-- Numbers and texts under distinct keys.
abbrev pub IsFlat : Members → Type 0
IsFlat end = Unit
IsFlat (member k j m) = IsScalar j × (field? k m ≡ none) × IsFlat m
