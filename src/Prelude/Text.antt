-- ===== src/Prelude/Text.antt =====
-- Python's `str` as a list of code points, with `str(int)`, `int(str)`, `startswith` and
-- `removeprefix` as far as the service uses them. An `int` is a natural number: ids, positions and
-- sizes are never negative here.
pub mod RoundTrip
use Prim.Native.Nat.{ℕ, zero, suc, ◌+◌, ◌-◌, ◌*◌, ◌/◌, ◌%◌, ◌<◌}
use Prim.Native.Char.{code}
use Prim.Native.String.{String}
use mathlib.Core.Path.{◌≡◌, refl, sym, ap, ◌∙◌}
use mathlib.Core.Logic.{◌≢◌, ◌↔◌, dite}
use mathlib.Core.Bool.{Bool, true, false, ◌&&◌, ◌||◌}
use mathlib.Core.Option.{Option, none, some}
use mathlib.Core.List.{List, [], ◌∷◌, ◌++◌}
use mathlib.Core.WellFounded.{Acc}
use native.Mathlib.Decide.{dec_lt}
use native.Mathlib.Omega.{arith}
use s3p_tape_service.Prelude.Tests.{ltb, leb, ◌==◌, if◌then◌else◌}

abbrev pub Text : Type 0
Text = List ℕ

-- The code points of a literal.
abbrev pub codes : String → Text
codes String.[] = []
codes (String.◌∷◌ c s) = code c ∷ codes s

unfoldable pub text_eq : Text → Text → Bool
text_eq [] [] = true
text_eq (a ∷ s) (b ∷ t) = a == b && text_eq s t
text_eq _ _ = false

text_eq_sound : (s t : Text) → text_eq s t ≡ true → s ≡ t
unfolding text_eq
text_eq_sound [] [] h = refl
text_eq_sound [] (b ∷ t) h = cc
text_eq_sound (a ∷ s) [] h = cc
text_eq_sound (a ∷ s) (b ∷ t) h = ground (arith, text_eq_sound s t)

pub text_eq_refl : (s : Text) → text_eq s s ≡ true
unfolding text_eq
text_eq_refl [] = refl
text_eq_refl (a ∷ s) = ground (arith, text_eq_refl s)

pub text_eq_iff : (s t : Text) → (text_eq s t ≡ true) ↔ (s ≡ t)
text_eq_iff s t = (text_eq_sound s t, λ e. ap (text_eq s) (sym e) ∙ text_eq_refl s)

pub text_eq_ne : (s t : Text) → s ≢ t → text_eq s t ≡ false
text_eq_ne s t ne = ground (arith, text_eq_iff s t)

-- `s.startswith(p)`
unfoldable pub starts_with : Text → Text → Bool
starts_with [] s = true
starts_with (a ∷ p) [] = false
starts_with (a ∷ p) (b ∷ s) = a == b && starts_with p s

-- `s.removeprefix(p)`: `s` itself if it does not begin with `p`.
unfoldable pub strip : Text → Text → Option Text
strip [] s = some s
strip (a ∷ p) [] = none
strip (a ∷ p) (b ∷ s) = if a == b then strip p s else none

unfoldable pub remove_prefix : Text → Text → Text
unfolding strip
remove_prefix p s = elim (strip p s) [ none ↦ s | some rest ↦ rest ]

pub strip-append : (p s : Text) → strip p (p ++ s) ≡ some s
unfolding strip
strip-append [] s = refl
strip-append (a ∷ p) s = ground (arith, strip-append p s)

pub remove_prefix-append : (p s : Text) → remove_prefix p (p ++ s) ≡ s
unfolding remove_prefix
remove_prefix-append p s = ground (arith, strip-append p s)

-- The order of Redis and Python on texts.
unfoldable pub text_lt : Text → Text → Bool
text_lt [] [] = false
text_lt [] (b ∷ t) = true
text_lt (a ∷ s) [] = false
text_lt (a ∷ s) (b ∷ t) = ltb a b || (a == b && text_lt s t)

Acc-below : (k n : ℕ) → n < k → Acc ◌<◌ n
Acc-below zero n h = elim h [ ]
Acc-below (suc k) n h = Acc.intro n (λ m hm. Acc-below k m (omega arith))

digits_acc : (n : ℕ) → Acc ◌<◌ n → Text
digits_acc n (Acc.intro _ smaller) =
    dite (dec_lt n 10) (λ _. (b'0' + n) ∷ [])
      (λ h. digits_acc (n / 10) (smaller (n / 10) (omega arith)) ++ (b'0' + n % 10) ∷ [])

below_self : (n : ℕ) → Acc ◌<◌ n
unfolding Acc-below
below_self n = Acc-below (suc n) n (omega arith)

-- `str(n)`
unfoldable pub str_of : ℕ → Text
unfolding digits_acc below_self dec_lt
str_of n = digits_acc n (below_self n)

unfoldable pub scan_int : ℕ → Text → Option ℕ
scan_int n [] = some n
scan_int n (c ∷ s) = if leb b'0' c && leb c b'9' then scan_int (n * 10 + (c - b'0')) s else none

-- `int(s)`, with `none` for the `ValueError`. Only ASCII digits are read: the signs, blanks and
-- underscores that Python admits too are in no text that `str` of such an `int` writes.
unfoldable pub int_of : Text → Option ℕ
unfolding scan_int
int_of [] = none
int_of (c ∷ s) = scan_int 0 (c ∷ s)
