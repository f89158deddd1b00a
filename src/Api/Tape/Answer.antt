-- ===== src/Api/Tape/Answer.antt =====
-- What a page of the tape shows, described by the rows of the page, the answers of the database and
-- the configuration, for the end of `read_tape` in src/tape_service/api/tape.py.
use mathlib.Core.Option
use s3p_tape_service.Prelude.{
  ℕ, ◌≡◌, refl, ap, Bool, Option, none, some, List, [], ◌∷◌, ◌++◌, map, length, last?, ◌==◌,
  if◌then◌else◌, arith, Bool-cases, inl, inr,
}
use s3p_tape_service.Prelude.Dict.{Dict, get}
use s3p_tape_service.Prelude.Text.{Text, codes, text_eq}
use s3p_tape_service.Database.{DocumentRow}
use s3p_tape_service.Store.Tape.Config.{TapeConfig}
use s3p_tape_service.Store.Tape.View.{Tape}
use s3p_tape_service.Api.Roles.{RoleRef}
use s3p_tape_service.Api.Pages.{
  TapeDocument, TapeItem, TapePage, document_of, roles_of, item_of, collect, next_position_of,
  state_of, full_page,
}
use s3p_tape_service.Api.Tape.Sweep.{shown}

-- The rows that are not scored and whose document exists, each as its position with the document.
abbrev pub visible : (ℕ → Bool) → (ℕ → Option DocumentRow) → Tape → List (ℕ × DocumentRow)
visible scored row_of [] = []
visible scored row_of ((p, d) ∷ z) =
    let rest = visible scored row_of z in
    if scored d then rest else elim (row_of d) [ none ↦ rest | some row ↦ (p, row) ∷ rest ]

-- The text goes along only where the configuration asks for details.
abbrev pub document_for : Text → DocumentRow → TapeDocument
document_for mode d = record {
  id = d.id;
  source_id = d.sourceid;
  title = d.title;
  link = d.weblink;
  published = d.published;
  abstract = d.abstract;
  text = if text_eq mode (codes "detailed") then d.text else none;
}

-- A row with the roles for the document's source.
abbrev pub item_for : Text → Dict (List RoleRef) → ℕ × DocumentRow → TapeItem
item_for mode roles (p, d) = record {
  entry_id = p;
  position = p;
  document = document_for mode d;
  roles = elim (get d.sourceid roles) [ none ↦ [] | some refs ↦ refs ];
}

-- The position of the last of one or more rows.
abbrev pub end_of : ℕ × ℕ → Tape → ℕ
end_of e [] = e.0
end_of e (f ∷ z) = end_of f z

-- The page of the rows `row ∷ z`, of which `kept` are shown: it has a cursor exactly if it is full.
abbrev pub page_for :
    TapeConfig → Dict (List RoleRef) → ℕ × ℕ → Tape → List (ℕ × DocumentRow) → TapePage
page_for cfg roles row z kept = record {
  items = map (item_for cfg.display_mode roles) kept;
  next_position = if length (row ∷ z) == cfg.page_size then some (end_of row z) else none;
  state = if length kept == 0 then codes "empty" else codes "ok";
  display_mode = cfg.display_mode;
}

module _ (scored : ℕ → Bool) (row_of : ℕ → Option DocumentRow) (mode : Text)
    (roles : Dict (List RoleRef)) where
  collect-shown :
      (z : Tape)
      → collect (map (shown scored row_of mode roles) z)
        ≡ map (item_for mode roles) (visible scored row_of z)
  unfolding item_of document_of roles_of
  collect-shown [] = refl
  collect-shown ((p, d) ∷ z) = elim (Bool-cases (scored d)) [
    | inl out ↦ rw out (collect-shown z)
    | inr stays ↦ rw stays (found (row_of d) (collect-shown z))
  ]
    where
      found :
          (o : Option DocumentRow)
          → collect (map (shown scored row_of mode roles) z)
            ≡ map (item_for mode roles) (visible scored row_of z)
          → collect (Option.map (item_of mode roles p) o ∷ map (shown scored row_of mode roles) z)
            ≡ map (item_for mode roles) (elim o [
              | none ↦ visible scored row_of z
              | some row ↦ (p, row) ∷ visible scored row_of z
            ])
      found none rest = rest
      found (some row) rest = ap (λ x. item_for mode roles (p, row) ∷ x) rest

pub end_of-last? : (e : ℕ × ℕ) (z : Tape) → (d : ℕ) × (last? (e ∷ z) ≡ some (end_of e z, d))
end_of-last? e [] = (e.1, refl)
end_of-last? e (f ∷ z) = end_of-last? f z

next_position_of-end :
    (e : ℕ × ℕ) (z : Tape) (n : ℕ)
    → next_position_of (e ∷ z) n ≡ (if length (e ∷ z) == n then some (end_of e z) else none)
unfolding next_position_of
next_position_of-end e z n = rw (end_of-last? e z).1

state_of-map :
    (mode : Text) (roles : Dict (List RoleRef)) (kept : List (ℕ × DocumentRow))
    → state_of (map (item_for mode roles) kept)
      ≡ (if length kept == 0 then codes "empty" else codes "ok")
unfolding state_of
state_of-map mode roles [] = refl
state_of-map mode roles (k ∷ kept) = ground arith

pub visible-append :
    (scored : ℕ → Bool) (row_of : ℕ → Option DocumentRow) (y z : Tape)
    → visible scored row_of (y ++ z) ≡ visible scored row_of y ++ visible scored row_of z
visible-append scored row_of [] z = refl
visible-append scored row_of ((p, d) ∷ y) z = elim (Bool-cases (scored d)) [
  | inl out ↦ rw out (visible-append scored row_of y z)
  | inr stays ↦ rw stays (found (row_of d) (visible-append scored row_of y z))
]
  where
    found :
        (o : Option DocumentRow)
        → visible scored row_of (y ++ z) ≡ visible scored row_of y ++ visible scored row_of z
        → elim o [
          | none ↦ visible scored row_of (y ++ z)
          | some row ↦ (p, row) ∷ visible scored row_of (y ++ z)
        ]
          ≡ elim o [
            | none ↦ visible scored row_of y
            | some row ↦ (p, row) ∷ visible scored row_of y
          ]
            ++ visible scored row_of z
    found none rest = rest
    found (some row) rest = ap (λ x. (p, row) ∷ x) rest

-- What the code makes of a page is the page described here.
pub full_page-page_for :
    (scored : ℕ → Bool) (row_of : ℕ → Option DocumentRow) (cfg : TapeConfig)
    (roles : Dict (List RoleRef)) (row : ℕ × ℕ) (z : Tape)
    → full_page cfg (row ∷ z) (map (shown scored row_of cfg.display_mode roles) (row ∷ z))
      ≡ page_for cfg roles row z (visible scored row_of (row ∷ z))
unfolding full_page
full_page-page_for scored row_of cfg roles row z = rw (
  collect-shown scored row_of cfg.display_mode roles (row ∷ z),
  next_position_of-end row z cfg.page_size,
  state_of-map cfg.display_mode roles (visible scored row_of (row ∷ z)),
)
