-- ===== src/Prelude/Text/RoundTrip.antt =====
-- `int(str(n)) == n`, and what it says of texts that `str` writes.
use Prim.Native.Nat.{ℕ, ◌+◌, ◌*◌, ◌/◌, ◌%◌, ◌<◌}
use mathlib.Core.Path.{◌≡◌, refl, sym, ap, ◌∙◌}
use mathlib.Core.Logic.{◌≢◌, dif_pos, dif_neg}
use mathlib.Core.Option.{none, some}
use mathlib.Core.List.{[], ◌∷◌, ◌++◌, append-nil, append_assoc}
use mathlib.Core.WellFounded.{Acc}
use native.Mathlib.Decide.{dec_lt}
use native.Mathlib.Bridge.{le_prop}
use native.Mathlib.Omega.{arith}
use s3p_tape_service.Prelude.Text.{Text, codes, below_self, digits_acc, str_of, scan_int, int_of}

scan_digit : (n d : ℕ) (s : Text) → d < 10 → scan_int n ((b'0' + d) ∷ s) ≡ scan_int (n * 10 + d) s
unfolding scan_int
scan_digit n d s h = ground arith

scan-digits : (n : ℕ) (w : Acc ◌<◌ n) (s : Text) → scan_int 0 (digits_acc n w ++ s) ≡ scan_int n s
unfolding digits_acc
scan-digits n (Acc.intro _ smaller) s = elim (dec_lt n 10) [
  | yes p ↦ rw (dif_pos _ le_prop p) (scan_digit 0 n s p ∙ ap (λ m. scan_int m s) (omega arith))
  | no p ↦
      rw (dif_neg _ p, append_assoc)
        (scan-digits (n / 10) (smaller (n / 10) (omega arith)) ((b'0' + n % 10) ∷ s)
          ∙ scan_digit (n / 10) (n % 10) s (omega arith)
          ∙ ap (λ m. scan_int m s) (omega arith))
]

append-ne-nil : (s : Text) (c : ℕ) → s ++ c ∷ [] ≢ []
append-ne-nil [] c e = cc
append-ne-nil (d ∷ s) c e = cc

digits-ne-nil : (n : ℕ) (w : Acc ◌<◌ n) → digits_acc n w ≢ []
unfolding digits_acc
digits-ne-nil n (Acc.intro _ smaller) = elim (dec_lt n 10) [
  | yes p ↦ rw (dif_pos _ le_prop p) (λ e. cc)
  | no p ↦ rw (dif_neg _ p) (append-ne-nil _ _)
]

int_of-cons : (s : Text) → s ≢ [] → int_of s ≡ scan_int 0 s
unfolding int_of
int_of-cons [] h = absurd (h refl)
int_of-cons (c ∷ s) h = refl

scan_int-nil : (n : ℕ) → scan_int n [] ≡ some n
unfolding scan_int
scan_int-nil n = refl

-- `int` reads back what `str` wrote.
pub int_of-str_of : (n : ℕ) → int_of (str_of n) ≡ some n
unfolding str_of
int_of-str_of n =
    int_of-cons (digits_acc n (below_self n)) (digits-ne-nil n (below_self n))
    ∙ ap (scan_int 0) (sym (append-nil (digits_acc n (below_self n))))
    ∙ scan-digits n (below_self n) []
    ∙ scan_int-nil n

pub str_of-injective : (m n : ℕ) → str_of m ≡ str_of n → m ≡ n
str_of-injective m n e = cc (ap int_of e, int_of-str_of m, int_of-str_of n)

-- A text that begins with `src:` is no number.
pub int_of-src : (s : Text) → int_of (codes "src:" ++ s) ≡ none
unfolding int_of
int_of-src s = refl

pub str_of-ne-src : (n : ℕ) (s : Text) → str_of n ≢ codes "src:" ++ s
str_of-ne-src n s e = cc (ap int_of e, int_of-str_of n, int_of-src s)
