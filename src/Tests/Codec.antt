-- ===== src/Tests/Codec.antt =====
-- A text format for flat JSON objects, which shows that the laws of `Stdlib` can be met.
use mathlib.Core.Option
use s3p_tape_service.Prelude.{
  zero, suc, ◌≡◌, refl, ap, sym, ◌∙◌, Option, none, some, [], ◌∷◌, ◌++◌, append_assoc, append-nil,
}
use s3p_tape_service.Prelude.Text.{Text}
use s3p_tape_service.Stdlib.{null, bool, num, half, str, arr, obj, Members, end, member, IsFlat}

-- A text is closed by 0, and its code points are raised by one.
write_text : Text → Text → Text
write_text [] rest = 0 ∷ rest
write_text (c ∷ t) rest = suc c ∷ write_text t rest

pub write : Members → Text
unfolding write_text
write end = []
write (member k (num n) m) = write_text k (0 ∷ n ∷ write m)
write (member k (str t) m) = write_text k (1 ∷ write_text t (write m))
write (member k _ m) = write m

pub data State : Type 0 where
  in_key : Text → State
  at_tag : Text → State
  at_num : Text → State
  in_text : Text → Text → State

pub scan : State → Text → Option Members
scan (in_key []) [] = some end
scan _ [] = none
scan (in_key k) (zero ∷ s) = scan (at_tag k) s
scan (in_key k) (suc c ∷ s) = scan (in_key (k ++ c ∷ [])) s
scan (at_tag k) (zero ∷ s) = scan (at_num k) s
scan (at_tag k) (suc c ∷ s) = scan (in_text k []) s
scan (at_num k) (n ∷ s) = Option.map (member k (num n)) (scan (in_key []) s)
scan (in_text k t) (zero ∷ s) = Option.map (member k (str t)) (scan (in_key []) s)
scan (in_text k t) (suc c ∷ s) = scan (in_text k (t ++ c ∷ [])) s

scan-key : (acc k s : Text) → scan (in_key acc) (write_text k s) ≡ scan (at_tag (acc ++ k)) s
unfolding scan write_text
scan-key acc [] s = ap (λ (x : Text). scan (at_tag x) s) (sym (append-nil acc))
scan-key acc (c ∷ k) s =
    scan-key (acc ++ c ∷ []) k s
    ∙ ap (λ (x : Text). scan (at_tag x) s) (append_assoc acc (c ∷ []) k)

scan-text :
    (k acc t s : Text)
    → scan (in_text k acc) (write_text t s)
      ≡ Option.map (member k (str (acc ++ t))) (scan (in_key []) s)
unfolding scan write_text
scan-text k acc [] s =
    ap (λ (x : Text). Option.map (member k (str x)) (scan (in_key []) s)) (sym (append-nil acc))
scan-text k acc (c ∷ t) s =
    scan-text k (acc ++ c ∷ []) t s
    ∙ ap (λ (x : Text). Option.map (member k (str x)) (scan (in_key []) s))
        (append_assoc acc (c ∷ []) t)

pub scan-write : (m : Members) → IsFlat m → scan (in_key []) (write m) ≡ some m
unfolding write scan
scan-write end h = refl
scan-write (member k (num n) m) h =
    scan-key [] k (0 ∷ n ∷ write m) ∙ ap (Option.map (member k (num n))) (scan-write m h.2)
scan-write (member k (str t) m) h =
    scan-key [] k (1 ∷ write_text t (write m))
    ∙ scan-text k [] t (write m)
    ∙ ap (Option.map (member k (str t))) (scan-write m h.2)
scan-write (member k null m) h = elim h.0 [ ]
scan-write (member k (bool b) m) h = elim h.0 [ ]
scan-write (member k (half b) m) h = elim h.0 [ ]
scan-write (member k (arr b) m) h = elim h.0 [ ]
scan-write (member k (obj b) m) h = elim h.0 [ ]
