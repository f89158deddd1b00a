-- ===== src/Action.antt =====
-- Calls that change a state, as functions from the state to the new state and the result, and the
-- relation between an action on one state and the action on another that it implements.
use s3p_tape_service.Prelude.{
  ◌≡◌, refl, ap, ap₂, Bool, true, false, ◌∙◌, if◌then◌else◌, List, [], ◌∷◌,
}

abbrev pub Action : Type 0 → Type 0 → Type 0
Action S A = S → S × A

abbrev pub pure : {S A : Type 0} → A → Action S A
pure a s = (s, a)

infixl 5 ◌>>=◌ ◌>>◌
abbrev pub ◌>>=◌ : {S A B : Type 0} → Action S A → (A → Action S B) → Action S B
◌>>=◌ m f s = let (s', a) = m s in f a s'

abbrev pub ◌>>◌ : {S A B : Type 0} → Action S A → Action S B → Action S B
m >> n = m >>= λ _. n

-- `for x in xs: body(x)`, for what it does to the state.
unfoldable pub for_each : {S A B : Type 0} → List A → (A → Action S B) → Action S (Unit {0})
for_each [] body s = (s, tt)
for_each (x ∷ xs) body s = for_each xs body (body x s).0

-- `[body(x) for x in xs]`
unfoldable pub for_map : {S A B : Type 0} → List A → (A → Action S B) → Action S (List B)
for_map [] body s = (s, [])
for_map (x ∷ xs) body s =
    let (s', b) = body x s in let (s'', bs) = for_map xs body s' in (s'', b ∷ bs)

-- `m`, seen through `view`, does what `n` does and returns what `n` returns.
pub record Implements {S T A : Type 0} (view : S → T) (m : Action S A) (n : Action T A)
    : Type 0 where
  pub state : (s : S) → view (m s).0 ≡ (n (view s)).0
  pub result : (s : S) → (m s).1 ≡ (n (view s)).1

-- The same, except that the result of `m` only has to be what `n` returns up to `R`.
pub record Delivers {S T A : Type 0} (R : A → A → Type 0) (view : S → T) (m : Action S A)
    (n : Action T A) : Type 0 where
  pub state : (s : S) → view (m s).0 ≡ (n (view s)).0
  pub result : (s : S) → R (m s).1 (n (view s)).1

module _ {S T : Type 0} (view : S → T) where
  -- What is made of the result does not depend on more than `R` tells.
  pub Implements-Delivers :
      {A B : Type 0} {R : A → A → Type 0} {m : Action S A} {n : Action T A} (f : A → B)
      → Delivers R view m n
      → ((a b : A) → R a b → f a ≡ f b)
      → Implements view (m >>= λ a. pure (f a)) (n >>= λ a. pure (f a))
  Implements-Delivers {m} {n} f im same = record {
    state = im.state;
    result = λ s. same (m s).1 (n (view s)).1 (im.result s);
  }

  pub Implements-pure : {A : Type 0} (a : A) → Implements view (pure a) (pure a)
  Implements-pure a = record { state = λ s. refl; result = λ s. refl }

  pub Implements-bind :
      {A B : Type 0} {m : Action S A} {n : Action T A} {f : A → Action S B} {g : A → Action T B}
      → Implements view m n
      → ((a : A) → Implements view (f a) (g a))
      → Implements view (m >>= f) (n >>= g)
  Implements-bind {m} {n} {f} {g} im ik = record {
    state = λ s. (ik (m s).1).state (m s).0 ∙ ap₂ (λ a t. (g a t).0) (im.result s) (im.state s);
    result = λ s. (ik (m s).1).result (m s).0 ∙ ap₂ (λ a t. (g a t).1) (im.result s) (im.state s);
  }

  pub Implements-if :
      {A : Type 0} (b : Bool) {m m' : Action S A} {n n' : Action T A}
      → Implements view m n
      → Implements view m' n'
      → Implements view (if b then m else m') (if b then n else n')
  Implements-if true im im' = im
  Implements-if false im im' = im'

  for_each_state :
      {A B : Type 0} (xs : List A) {f : A → Action S B} {g : A → Action T B}
      → ((a : A) → Implements view (f a) (g a))
      → (s : S) → view (for_each xs f s).0 ≡ (for_each xs g (view s)).0
  unfolding for_each
  for_each_state [] ik s = refl
  for_each_state (x ∷ xs) {g} ik s =
      for_each_state xs ik _ ∙ ap (λ t. (for_each xs g t).0) ((ik x).state s)

  pub Implements-for_each :
      {A B : Type 0} (xs : List A) {f : A → Action S B} {g : A → Action T B}
      → ((a : A) → Implements view (f a) (g a))
      → Implements view (for_each xs f) (for_each xs g)
  Implements-for_each xs ik = record { state = for_each_state xs ik; result = λ s. refl }

  pub Implements-for_map :
      {A B : Type 0} (xs : List A) {f : A → Action S B} {g : A → Action T B}
      → ((a : A) → Implements view (f a) (g a))
      → Implements view (for_map xs f) (for_map xs g)
  unfolding for_map
  Implements-for_map [] ik = record { state = λ s. refl; result = λ s. refl }
  Implements-for_map (x ∷ xs) {f} {g} ik =
      Implements-bind (ik x)
        λ b. Implements-bind (Implements-for_map xs ik) λ bs. Implements-pure (b ∷ bs)
