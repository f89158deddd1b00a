-- ===== src/Db/Users.antt =====
-- src/tape_service/db/users.py: the user that a token belongs to.
use s3p_tape_service.Prelude.{
  ◌≡◌, ◌↔◌, ◌⊎◌, ◌∙◌, refl, ap, [], Bool, true, false, ◌||◌, not, ◌==◌, ℕ, List, Option, none, some,
  arith, if◌then◌else◌,
}
use s3p_tape_service.Prelude.Text.{Text, codes, text_eq, text_eq_iff}
use s3p_tape_service.Stdlib.{
  Json, null, bool, num, half, str, arr, obj, Items, nil, cons, Members, end, member, field?,
}
use s3p_tape_service.Errors.{Result, ok, raise}
use s3p_tape_service.Database.{Database}
use s3p_tape_service.Store.Sessions.{int_of_json}

pub record AuthedUser : Type 0 where
  pub user_id : ℕ
  pub privilege : Json

-- `"expert" == j`
unfoldable pub is_expert_name : Json → Bool
unfolding text_eq
is_expert_name (str t) = text_eq t (codes "expert")
is_expert_name _ = false

-- `"expert" in items`
unfoldable pub has_expert : Items → Bool
unfolding is_expert_name
has_expert nil = false
has_expert (cons j items) = is_expert_name j || has_expert items

-- `value is True`
unfoldable pub is_true : Option Json → Bool
is_true (some (bool b)) = b
is_true _ = false

unfoldable pub list_has_expert : Option Json → Bool
unfolding has_expert
list_has_expert (some (arr items)) = has_expert items
list_has_expert _ = false

unfoldable pub is_expert : AuthedUser → Bool
unfolding is_true list_has_expert field?
is_expert user = elim user.privilege [
  | obj m ↦
      if is_true (field? (codes "expert") m) then true else list_has_expert (field? (codes "bot") m)
  | arr items ↦ has_expert items
  | _ ↦ false
]

-- Python's `bool(value)`, for a value of JSON
unfoldable pub truthy : Option Json → Bool
truthy none = false
truthy (some null) = false
truthy (some (bool b)) = b
truthy (some (num n)) = not (n == 0)
truthy (some (half n)) = not (n == 0)
truthy (some (str t)) = not (text_eq t [])
truthy (some (arr nil)) = false
truthy (some (obj end)) = false
truthy (some _) = true

-- `a or b`
unfoldable pub either_of : Option Json → Option Json → Option Json
unfolding truthy
either_of a b = if truthy a then a else b

-- `priv if priv is not None else {}`
unfoldable pub or_no_privilege : Option Json → Json
or_no_privilege none = obj end
or_no_privilege (some null) = obj end
or_no_privilege (some j) = j

abbrev make_user : Json → Result ℕ → Result (Option AuthedUser)
make_user privilege (ok user_id) = ok (some (record { user_id = user_id; privilege = privilege }))
make_user privilege (raise e) = raise e

-- What follows `uid = ...`: `int(uid)` may raise.
unfoldable pub user_of_id : Option Json → Json → Result (Option AuthedUser)
unfolding int_of_json
user_of_id none privilege = ok none
user_of_id (some null) privilege = ok none
user_of_id (some j) privilege = make_user privilege (int_of_json j)

-- `if not row: return None` and what follows; the row is a dict of its columns.
unfoldable pub user_of_row : Option Members → Result (Option AuthedUser)
unfolding user_of_id either_of or_no_privilege field?
user_of_row none = ok none
user_of_row (some end) = ok none
user_of_row (some (member k j m)) =
    let row = member k j m in
    user_of_id (either_of (field? (codes "user_id") row) (field? (codes "id") row))
      (or_no_privilege (field? (codes "privilege") row))

abbrev pub then_user : Result (Option Members) → Result (Option AuthedUser)
unfolding user_of_row
then_user (ok row) = user_of_row row
then_user (raise e) = raise e

-- `if not row or row[0] is None: return []`, else the ids
abbrev pub or_nil : Result (Option (List ℕ)) → Result (List ℕ)
or_nil (ok none) = ok []
or_nil (ok (some ids)) = ok ids
or_nil (raise e) = raise e

module _ (pg : Database) (db : pg.Db) where
  unfoldable pub auth_by_token : Text → Result (Option AuthedUser)
  unfolding then_user
  auth_by_token token = then_user (pg.select_user db token)

  unfoldable pub sources_for : ℕ → Result (List ℕ)
  sources_for user_id = or_nil (pg.select_sources db user_id)

  unfoldable pub roles_for : ℕ → Option ℕ → Result (List ℕ)
  roles_for user_id none = or_nil (pg.select_all_roles db user_id)
  roles_for user_id (some source_id) = pg.select_roles db user_id source_id

-- One of the items is the text `expert`.
abbrev pub NamesExpert : Items → Type 0
NamesExpert nil = ⊥
NamesExpert (cons j items) = (j ≡ str (codes "expert")) ⊎ NamesExpert items

text_of : Json → Text
text_of (str t) = t
text_of _ = []

is_expert_name_iff : (j : Json) → (is_expert_name j ≡ true) ↔ (j ≡ str (codes "expert"))
unfolding is_expert_name text_of
is_expert_name_iff (str t) = (
  λ e. ap str ((text_eq_iff t (codes "expert")).0 e),
  λ e. (text_eq_iff t (codes "expert")).1 (ap text_of e),
)
is_expert_name_iff null = (λ e. cc, λ e. cc)
is_expert_name_iff (bool b) = (λ e. cc, λ e. cc)
is_expert_name_iff (num n) = (λ e. cc, λ e. cc)
is_expert_name_iff (half n) = (λ e. cc, λ e. cc)
is_expert_name_iff (arr items) = (λ e. cc, λ e. cc)
is_expert_name_iff (obj m) = (λ e. cc, λ e. cc)

has_expert_iff : (items : Items) → (has_expert items ≡ true) ↔ NamesExpert items
unfolding has_expert
has_expert_iff nil = ground arith
has_expert_iff (cons j items) = ground (arith, is_expert_name_iff j, has_expert_iff items)

-- What makes a user an expert: the flag `expert` of a dict, or the text `expert` in its list `bot`,
-- or in a list.
abbrev pub GrantsExpert : Json → Type 0
GrantsExpert (obj m) =
    (field? (codes "expert") m ≡ some (bool true))
    ⊎ ((items : Items) × (field? (codes "bot") m ≡ some (arr items)) × NamesExpert items)
GrantsExpert (arr items) = NamesExpert items
GrantsExpert _ = ⊥

is_true_iff : (o : Option Json) → (is_true o ≡ true) ↔ (o ≡ some (bool true))
unfolding is_true
is_true_iff none = (λ e. cc, λ e. cc)
is_true_iff (some (bool b)) = (λ e. ap (λ x. some (bool x)) e, λ e. ap is_true e)
is_true_iff (some j) = (λ e. cc, λ e. cc)

list_has_expert_iff :
    (o : Option Json)
    → (list_has_expert o ≡ true) ↔ ((items : Items) × (o ≡ some (arr items)) × NamesExpert items)
unfolding list_has_expert
list_has_expert_iff (some (arr items)) = (
  λ e. (items, refl, (has_expert_iff items).0 e),
  λ found. ap list_has_expert found.1 ∙ (has_expert_iff found.0).1 found.2,
)
list_has_expert_iff none =
    (λ e. cc, λ found. ap list_has_expert found.1 ∙ (has_expert_iff found.0).1 found.2)
list_has_expert_iff (some j) =
    (λ e. cc, λ found. ap list_has_expert found.1 ∙ (has_expert_iff found.0).1 found.2)

-- A user is an expert exactly if the privilege that the database returned grants it.
pub is_expert_iff : (user : AuthedUser) → (is_expert user ≡ true) ↔ GrantsExpert user.privilege
unfolding is_expert
is_expert_iff user = by_privilege user.privilege
  where
    by_privilege :
        (j : Json)
        → (is_expert (record { user_id = user.user_id; privilege = j }) ≡ true) ↔ GrantsExpert j
    by_privilege (obj m) = ground (
      arith,
      is_true_iff (field? (codes "expert") m),
      list_has_expert_iff (field? (codes "bot") m),
    )
    by_privilege (arr items) = has_expert_iff items
    by_privilege _ = (λ e. cc, λ e. absurd e)
