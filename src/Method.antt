-- ===== src/Method.antt =====
-- Python calls that change a state and may raise: what was written before a raise stays written,
-- so the state comes back beside the exception.
use s3p_tape_service.Prelude.{refl, ap}
use s3p_tape_service.Action.{Action, Implements}
use s3p_tape_service.Action
use s3p_tape_service.Errors.{Exception, Result, ok, raise}

abbrev pub Method : Type 0 → Type 0 → Type 0
Method S A = Action S (Result A)

abbrev pub pure : {S A : Type 0} → A → Method S A
pure a s = (s, ok a)

abbrev pub fail : {S A : Type 0} → Exception → Method S A
fail e s = (s, raise e)

abbrev pub lift : {S A : Type 0} → Result A → Method S A
lift r s = (s, r)

-- A call that does not raise.
abbrev pub call : {S A : Type 0} → Action S A → Method S A
call m s = let (s', a) = m s in (s', ok a)

abbrev pub continue : {S A B : Type 0} → Result A → (A → Method S B) → Method S B
continue (ok a) f s = f a s
continue (raise e) f s = (s, raise e)

infixl 5 ◌>>=◌ ◌>>◌
abbrev pub ◌>>=◌ : {S A B : Type 0} → Method S A → (A → Method S B) → Method S B
◌>>=◌ m f s = let (s', r) = m s in continue r f s'

abbrev pub ◌>>◌ : {S A B : Type 0} → Method S A → Method S B → Method S B
m >> n = m >>= λ _. n

abbrev pub or_else : {S A : Type 0} → Result A → (Exception → Method S A) → Method S A
or_else (ok a) handler s = (s, ok a)
or_else (raise e) handler s = handler e s

-- A call whose value is not used.
abbrev pub no_value : {A : Type 0} → Result A → Result (Unit {0})
no_value (ok _) = ok tt
no_value (raise e) = raise e

-- `try: m except Exception as e: handler(e)`
abbrev pub try_except : {S A : Type 0} → Method S A → (Exception → Method S A) → Method S A
try_except m handler s = let (s', r) = m s in or_else r handler s'

-- `try: m finally: last`
abbrev pub try_finally : {S A : Type 0} → Method S A → Action S (Unit {0}) → Method S A
try_finally m last s = let (s', r) = m s in ((last s').0, r)

abbrev pub overridden : {A : Type 0} → Result (Unit {0}) → Result A → Result A
overridden (ok _) r = r
overridden (raise e) r = raise e

-- `try: m finally: last`, for a `last` that may raise, in place of what `m` did.
abbrev pub try_finally_do : {S A : Type 0} → Method S A → Method S (Unit {0}) → Method S A
try_finally_do m last s = let (s', r) = m s in let (s'', x) = last s' in (s'', overridden x r)

module _ {S T : Type 0} (view : S → T) where
  pub Implements-call :
      {A : Type 0} {m : Action S A} {n : Action T A}
      → Implements view m n
      → Implements view (call m) (call n)
  Implements-call im = record { state = im.state; result = λ s. ap ok (im.result s) }

  pub Implements-lift : {A : Type 0} (x : Result A) → Implements view (lift x) (lift x)
  Implements-lift x = record { state = λ s. refl; result = λ s. refl }

  pub Implements-continue :
      {A B : Type 0} (x : Result A) {f : A → Method S B} {g : A → Method T B}
      → ((a : A) → Implements view (f a) (g a))
      → Implements view (continue x f) (continue x g)
  Implements-continue (ok a) ik = ik a
  Implements-continue (raise e) ik = record { state = λ s. refl; result = λ s. refl }

  pub Implements-or_else :
      {A : Type 0} (x : Result A) {f : Exception → Method S A} {g : Exception → Method T A}
      → ((e : Exception) → Implements view (f e) (g e))
      → Implements view (or_else x f) (or_else x g)
  Implements-or_else (ok a) ik = record { state = λ s. refl; result = λ s. refl }
  Implements-or_else (raise e) ik = ik e

  pub Implements-bind :
      {A B : Type 0} {m : Method S A} {n : Method T A} {f : A → Method S B} {g : A → Method T B}
      → Implements view m n
      → ((a : A) → Implements view (f a) (g a))
      → Implements view (m >>= f) (n >>= g)
  Implements-bind im ik = Action.Implements-bind view im λ x. Implements-continue x ik

  pub Implements-try_except :
      {A : Type 0} {m : Method S A} {n : Method T A} {f : Exception → Method S A}
      {g : Exception → Method T A}
      → Implements view m n
      → ((e : Exception) → Implements view (f e) (g e))
      → Implements view (try_except m f) (try_except n g)
  Implements-try_except im ik = Action.Implements-bind view im λ x. Implements-or_else x ik

  pub Implements-try_finally :
      {A : Type 0} {m : Method S A} {n : Method T A} {f : Action S (Unit {0})}
      {g : Action T (Unit {0})}
      → Implements view m n
      → Implements view f g
      → Implements view (try_finally m f) (try_finally n g)
  Implements-try_finally im il =
      Action.Implements-bind view im λ x. Action.Implements-bind view il λ _. Implements-lift x
