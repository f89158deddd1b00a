-- ===== src/Api/Roles.antt =====
-- src/tape_service/api/tape.py: `_roles_by_source`, the roles under which a user can score the
-- documents of a source. The order of a Python set is left open; `source_ids` is any order of it.
use s3p_tape_service.Prelude.{ℕ, Option, none, some, List, [], ◌∷◌, map}
use s3p_tape_service.Prelude.Dict.{Dict, get, add_all, sorted}
use s3p_tape_service.Prelude.Text.{Text}
use s3p_tape_service.Errors.{Result, ok, raise}
use s3p_tape_service.Database.{Database}
use s3p_tape_service.Db.Names.{fetch_role_names}
use s3p_tape_service.Db.Users.{roles_for}

pub record RoleRef : Type 0 where
  pub id : ℕ
  pub name : Option Text

-- `names.get(rid)`: a missing name and NULL are both `None`.
unfoldable pub name_of : Dict (Option Text) → ℕ → Option Text
unfolding get
name_of names i = elim (get i names) [ none ↦ none | some name ↦ name ]

unfoldable pub role_refs : Dict (Option Text) → List ℕ → List RoleRef
unfolding name_of
role_refs names ids = map (λ i. record { id = i; name = name_of names i }) ids

-- The second loop of `_roles_by_source`, over a dict whose keys differ.
unfoldable pub label_roles : Dict (Option Text) → Dict (List ℕ) → Dict (List RoleRef)
unfolding role_refs
label_roles names [] = []
label_roles names ((source_id, ids) ∷ rest) =
    (source_id, role_refs names ids) ∷ label_roles names rest

abbrev pub add_source : ℕ → Result (List ℕ) → Result (Dict (List ℕ)) → Result (Dict (List ℕ))
add_source s (raise e) rest = raise e
add_source s (ok ids) (raise e) = raise e
add_source s (ok ids) (ok rest) = ok ((s, ids) ∷ rest)

abbrev pub all_role_ids : Dict (List ℕ) → List ℕ
all_role_ids [] = []
all_role_ids ((_, ids) ∷ rest) = add_all (all_role_ids rest) ids

abbrev pub label_all : Dict (List ℕ) → Result (Dict (Option Text)) → Result (Dict (List RoleRef))
unfolding label_roles
label_all per_source (raise e) = raise e
label_all per_source (ok names) = ok (label_roles names per_source)

module _ (pg : Database) (db : pg.Db) (user_id : ℕ) where
  -- The first loop of `_roles_by_source`: `per_source`.
  unfoldable pub roles_per_source : List ℕ → Result (Dict (List ℕ))
  unfolding roles_for
  roles_per_source [] = ok []
  roles_per_source (s ∷ source_ids) =
      add_source s (roles_for pg db user_id (some s)) (roles_per_source source_ids)

  abbrev pub name_roles : Result (Dict (List ℕ)) → Result (Dict (List RoleRef))
  unfolding fetch_role_names sorted
  name_roles (raise e) = raise e
  name_roles (ok per_source) =
      label_all per_source (fetch_role_names pg db (sorted (all_role_ids per_source)))

  unfoldable pub roles_by_source : List ℕ → Result (Dict (List RoleRef))
  unfolding roles_per_source name_roles
  roles_by_source source_ids = name_roles (roles_per_source source_ids)
