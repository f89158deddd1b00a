-- ===== src/Store/Tape/Config/Replies.antt =====
-- What the store makes of the members of a set and of the fields of a hash does not depend on the
-- order in which Redis sends them.
use s3p_tape_service.Prelude.{
  ℕ, ◌≡◌, refl, sym, ap, ap₂, ◌∙◌, Option, none, some, List, [], ◌∷◌, Permᴰ, arith,
}
use s3p_tape_service.Prelude.Sets.{insert_sorted_comm}
use s3p_tape_service.Prelude.Text.{Text, codes, text_eq_refl, int_of}
use s3p_tape_service.Errors.{Result, ok, raise, value_error}
use s3p_tape_service.Redis.{Fields, SameFields, lookup}
use s3p_tape_service.Stdlib.{Stdlib}
use s3p_tape_service.Store.Tape.Config.{
  add_id, sorted_ids, get_or, read_config, config_of, bind_result,
}
use s3p_tape_service.Store.Tape.Entries.{int_or_raise}

number : Option ℕ → Result ℕ
number n = elim n [ none ↦ raise value_error | some n ↦ ok n ]

add_ids_comm :
    (a b : Option ℕ) (rest : Result (List ℕ))
    → add_id (number a) (add_id (number b) rest) ≡ add_id (number b) (add_id (number a) rest)
unfolding number
add_ids_comm none none rest = refl
add_ids_comm none (some b) rest = refl
add_ids_comm (some a) none rest = refl
add_ids_comm (some a) (some b) (raise e) = refl
add_ids_comm (some a) (some b) (ok ids) = ap ok (insert_sorted_comm a b ids)

pub sorted_ids-Permᴰ : (ms ns : List Text) → Permᴰ ms ns → sorted_ids ms ≡ sorted_ids ns
unfolding sorted_ids int_or_raise number
sorted_ids-Permᴰ _ _ Permᴰ.nil = refl
sorted_ids-Permᴰ _ _ (Permᴰ.cons {l₁ = ms} {l₂ = ns} e p) =
    ap₂ (λ m. add_id (int_or_raise m)) e (sorted_ids-Permᴰ ms ns p)
sorted_ids-Permᴰ _ _ (Permᴰ.swap {a'} {b'} {l} e d) =
    ap₂ (λ m n. add_id (int_or_raise m) (add_id (int_or_raise n) (sorted_ids l))) e d
    ∙ add_ids_comm (int_of b') (int_of a') (sorted_ids l)
sorted_ids-Permᴰ _ _ (Permᴰ.trans {l₁ = ks} {l₂ = ms} {l₃ = ns} p q) =
    sorted_ids-Permᴰ ks ms p ∙ sorted_ids-Permᴰ ms ns q

module _ (lib : Stdlib) (user : ℕ) where
  read_config-SameFields :
      (m n : Fields) → SameFields m n → read_config lib user m ≡ read_config lib user n
  unfolding read_config get_or
  read_config-SameFields m n same = rw (
    read_config,
    get_or,
    same (codes "page_size"),
    same (codes "date_from"),
    same (codes "date_to"),
    same (codes "ordering"),
    same (codes "display_mode"),
    same (codes "dirty"),
  )

  none-ne-lookup : (k v : Text) (m : Fields) → SameFields [] ((k, v) ∷ m) → ⊥
  unfolding lookup
  none-ne-lookup k v m same = ground (arith, same k, text_eq_refl k)

  pub config_of-SameFields :
      (m n : Fields) → SameFields m n → config_of lib user m ≡ config_of lib user n
  unfolding config_of
  config_of-SameFields [] [] same = refl
  config_of-SameFields [] ((k, v) ∷ n) same = absurd (none-ne-lookup k v n same)
  config_of-SameFields ((k, v) ∷ m) [] same = absurd (none-ne-lookup k v m λ j. sym (same j))
  config_of-SameFields (f ∷ m) (g ∷ n) same =
      ap (λ c. bind_result c λ cfg. ok (some cfg)) (read_config-SameFields (f ∷ m) (g ∷ n) same)
