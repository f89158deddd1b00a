-- ===== src/Worker/Listener/Unscored.antt =====
-- The notifications that a thread of the listener gets, and the entries that they leave on a tape.
use s3p_tape_service.Prelude.{
  ℕ, ◌<◌, ◌≡◌, ◌≢◌, refl, ap, Bool, true, false, ◌&&◌, ◌||◌, not, Option, none, some, List, [], ◌∷◌,
  ◌++◌, ◌==◌, if◌then◌else◌, keep_if, Bool-cases, inl, inr, arith, All,
}
use s3p_tape_service.Prelude.Text.{text_eq}
use s3p_tape_service.Stdlib.{Stdlib}
use s3p_tape_service.Store.Tape.Operations.{remove_doc-IsTape}
use s3p_tape_service.Store.Tape.View.{Tape, remove_doc, IsTape}
use s3p_tape_service.Worker.Listener.{ids_of}
use s3p_tape_service.Worker.Listener.Thread.{
  Notify, Rounds, waits, times_out, breaks, finds_stop, notify_channel,
}
use s3p_tape_service.Service.Untouched.{same}

-- All that a thread gets, in order.
abbrev pub heard : Rounds → List Notify
heard (waits batch) = batch
heard (times_out batch rounds) = batch ++ heard rounds
heard (breaks batch e) = batch
heard finds_stop = []

keep_if-absent :
    (c q e : ℕ) (p : ℕ → Bool) (t : Tape)
    → All (λ x. (q < x.0) × (e ≢ x.1)) t
    → c == e ≡ true
    → keep_if (λ x. not (p x.1)) t ≡ keep_if (λ x. not (c == x.1 || p x.1)) t
keep_if-absent c q e p [] h same = refl
keep_if-absent c q e p ((i, d) ∷ t) h same = ground (arith, keep_if-absent c q e p t h.1 same)

keep_if-remove_doc :
    (c : ℕ) (p : ℕ → Bool) (t : Tape)
    → IsTape t
    → keep_if (λ e. not (p e.1)) (remove_doc c t) ≡ keep_if (λ e. not (c == e.1 || p e.1)) t
keep_if-remove_doc c p [] h = refl
keep_if-remove_doc c p ((q, e) ∷ t) h = elim (Bool-cases (c == e)) [
  | inl here ↦ rw here (keep_if-absent c q e p t h.0 here)
  | inr away ↦ rw away (ground (arith, keep_if-remove_doc c p t h.1))
]

module _ (lib : Stdlib) (u : ℕ) where
  -- The user and the document that a notification of the listener's channel names.
  abbrev pub named : Notify → Option (ℕ × ℕ)
  named n = if text_eq n.channel notify_channel then ids_of (lib.loads n.payload) else none

  abbrev about : Option (ℕ × ℕ) → ℕ → Bool
  about none d = false
  about (some (v, c)) d = v == u && c == d

  -- Some notification says that the user has scored the document.
  abbrev pub tells_of : List Notify → ℕ → Bool
  tells_of [] d = false
  tells_of (n ∷ ns) d = about (named n) d || tells_of ns d

  -- The entries of which no notification tells.
  abbrev pub unscored : List Notify → Tape → Tape
  unscored ns t = keep_if (λ e. not (tells_of ns e.1)) t

  abbrev pub drop : Option (ℕ × ℕ) → Tape → Tape
  drop none t = t
  drop (some (v, c)) t = if v == u then remove_doc c t else t

  pub drop-IsTape : (o : Option (ℕ × ℕ)) (t : Tape) → IsTape t → IsTape (drop o t)
  drop-IsTape none t h = h
  drop-IsTape (some (v, c)) t h = elim (Bool-cases (v == u)) [
    | inl own ↦ rw own (remove_doc-IsTape c t h)
    | inr other ↦ rw other h
  ]

  pub keep_if-drop :
      (o : Option (ℕ × ℕ)) (p : ℕ → Bool) (t : Tape)
      → IsTape t
      → keep_if (λ e. not (p e.1)) (drop o t) ≡ keep_if (λ e. not (about o e.1 || p e.1)) t
  keep_if-drop none p t h = refl
  keep_if-drop (some (v, c)) p t h = elim (Bool-cases (v == u)) [
    | inl own ↦ rw own (keep_if-remove_doc c p t h)
    | inr other ↦ rw other refl
  ]

  pub unscored_nil : (t : Tape) → unscored [] t ≡ t
  unscored_nil [] = refl
  unscored_nil (e ∷ t) = ap (λ u. e ∷ u) (unscored_nil t)
