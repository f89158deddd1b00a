-- ===== src/Prelude/Dict.antt =====
-- A Python dict whose keys are numbers, and a Python set of numbers, as lists in insertion order.
use mathlib.Core.Path.{◌≡◌, refl}
use mathlib.Core.Option.{Option, none, some}
use mathlib.Core.List.{List, [], ◌∷◌, ◌++◌}
use Prim.Native.Nat.{ℕ}
use native.Mathlib.Omega.{arith}
use s3p_tape_service.Prelude.Tests.{◌==◌, leb, if◌then◌else◌}
use s3p_tape_service.Prelude.Lists.{contains}

abbrev pub Dict : Type 0 → Type 0
Dict V = List (ℕ × V)

module _ {V : Type 0} where
  -- `d.get(k)`
  unfoldable pub get : ℕ → Dict V → Option V
  get k [] = none
  get k ((j, v) ∷ d) = if k == j then some v else get k d

  -- `d[k] = v`
  unfoldable pub put : ℕ → V → Dict V → Dict V
  put k v [] = (k, v) ∷ []
  put k v ((j, w) ∷ d) = if k == j then (k, v) ∷ d else (j, w) ∷ put k v d

  unfoldable pub put_all : Dict V → List (ℕ × V) → Dict V
  unfolding put
  put_all d [] = d
  put_all d ((k, v) ∷ rows) = put_all (put k v d) rows

  pub get-put :
      (k j : ℕ) (v : V) (d : Dict V) → get k (put j v d) ≡ (if k == j then some v else get k d)
  unfolding get put
  get-put k j v [] = refl
  get-put k j v ((i, w) ∷ d) = ground (arith, get-put k j v d)

-- `s.add(a)`
abbrev pub add : ℕ → List ℕ → List ℕ
add a s = if contains s a then s else s ++ a ∷ []

abbrev pub add_all : List ℕ → List ℕ → List ℕ
add_all s [] = s
add_all s (a ∷ xs) = add_all (add a s) xs

unfoldable pub insert_sorted : ℕ → List ℕ → List ℕ
insert_sorted a [] = a ∷ []
insert_sorted a (b ∷ bs) = if leb a b then a ∷ b ∷ bs else b ∷ insert_sorted a bs

-- `sorted(xs)`
unfoldable pub sorted : List ℕ → List ℕ
unfolding insert_sorted
sorted [] = []
sorted (a ∷ xs) = insert_sorted a (sorted xs)
