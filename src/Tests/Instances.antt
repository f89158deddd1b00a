-- ===== src/Tests/Instances.antt =====
-- Concrete instances of what is a parameter of the model: a standard library whose JSON text is the
-- format of Codec, databases with one document, one that answers and one that always fails, and
-- the settings with the defaults of src/tape_service/settings.py.
use mathlib.Core.Option
use s3p_tape_service.Prelude.{
  ℕ, ◌≡◌, ◌≢◌, refl, ap, sym, subst, ◌∙◌, Bool, true, false, ◌&&◌, ◌||◌, none, some, List, [], ◌∷◌,
  arith, contains, keep_if, if◌then◌else◌, Bool-cases, inl, inr, ◌==◌,
}
use s3p_tape_service.Prelude.Dict.{get, put_all}
use s3p_tape_service.Prelude.Sets.{contains-keep_if}
use s3p_tape_service.Prelude.Text.{Text, codes, text_eq, str_of, int_of}
use s3p_tape_service.Prelude.Text.RoundTrip.{int_of-str_of}
use s3p_tape_service.Errors.{Exception, Result, ok, raise, db_error, unique_violation}
use s3p_tape_service.Settings.{Settings}
use s3p_tape_service.Stdlib.{Stdlib, Json, bool, num, obj, Members, end, member}
use s3p_tape_service.Database.{
  Database, DocumentRow, Tables, by_id, is_scored, is_wanted, IsOrdered,
}
use s3p_tape_service.Tests.Codec.{write, scan, in_key, scan-write}

abbrev dumps : Json → Text
dumps (obj m) = write m
dumps _ = []

pub str_of-ne-nil : (n : ℕ) → str_of n ≢ []
str_of-ne-nil n e = cc (int_of-str_of n, ap int_of e, nil)
  where
    nil : int_of [] ≡ none
    nil = unfold int_of in refl

abbrev pub std : Stdlib
std = record {
  dumps = dumps;
  loads = λ t. Option.map obj (scan (in_key []) t);
  isoformat = str_of;
  fromisoformat = int_of;
  hexdigest = λ t. t;
  loads-dumps = λ m h. ap (Option.map obj) (scan-write m h);
  fromisoformat-isoformat = int_of-str_of;
  isoformat-ne-nil = str_of-ne-nil;
}

abbrev pub defaults : Settings
defaults = record {
  session_cookie_name = codes "s3p_session";
  session_cookie_secure = true;
  session_cookie_samesite = codes "lax";
  session_absolute_ttl_days = 30;
  session_idle_ttl_days = 14;
  cors_allow_origins = [];
  login_rate_limit_per_ip = 10;
  login_rate_limit_window_seconds = 300;
  worker_interval_seconds = 60;
  worker_advisory_lock_ttl_seconds = 600;
  log_level = codes "INFO";
}

-- One document, published at 50 by source 3, and no score.
abbrev pub document : DocumentRow
document = record {
  id = 11;
  sourceid = 3;
  title = codes "t";
  weblink = [];
  published = 50;
  abstract = none;
  text = none;
  storagelink = none;
  loaded = none;
  otherdata = none;
}

abbrev one_document : List (ℕ × ℕ) → Tables
one_document scores = record { documents = document ∷ []; scores = scores }

abbrev if_wanted : Bool → List ℕ
if_wanted true = document.id ∷ []
if_wanted false = []

contains-if_wanted :
    (b : Bool) (i : ℕ) → contains (if_wanted b) i ≡ ((i == document.id) && b || false)
contains-if_wanted b i = ground arith

value_or_nil : {A : Type 0} → Result (List A) → List A
value_or_nil (ok x) = x
value_or_nil (raise e) = []

ok-injective : {A : Type 0} (a b : List A) → ok a ≡ ok b → a ≡ b
unfolding value_or_nil
ok-injective a b e = ap value_or_nil e

pub one_wanted :
    (b : Bool) (rows : List ℕ)
    → ok (if_wanted b) ≡ ok rows
    → (i : ℕ) → contains rows i ≡ ((i == document.id) && b || false)
one_wanted b rows e i = ap (λ x. contains x i) (sym (ok-injective _ _ e)) ∙ contains-if_wanted b i

pub one-IsOrdered :
    (clause : Text) (b : Bool) (rows : List ℕ)
    → ok (if_wanted b) ≡ ok rows
    → IsOrdered clause (document ∷ []) rows
one-IsOrdered clause b rows e =
    subst (IsOrdered clause (document ∷ [])) (ok-injective _ _ e) (single b)
  where
    single : (b : Bool) → IsOrdered clause (document ∷ []) (if_wanted b)
    single true = (tt, refl, tt)
    single false = tt

pub scored_rows :
    (f : ℕ → Bool) (ids rows : List ℕ)
    → ok (keep_if f ids) ≡ ok rows
    → (i : ℕ) → contains rows i ≡ (contains ids i && f i)
scored_rows f ids rows e i =
    ap (λ x. contains x i) (sym (ok-injective _ _ e)) ∙ contains-keep_if f ids i

pub raise-ne-ok : {A B : Type 0} {a : A} → raise db_error ≡ ok a → B
raise-ne-ok e = cc

pub one_document_found :
    (ids : List ℕ) (rows : List DocumentRow)
    → ok (if contains ids document.id then document ∷ [] else []) ≡ ok rows
    → (i : ℕ)
    → get i (by_id rows) ≡ (if contains ids i then get i (by_id (document ∷ [])) else none)
unfolding get put_all
one_document_found ids rows e i =
    ap (λ x. get i (by_id x)) (sym (ok-injective _ _ e)) ∙ asked (contains ids document.id) refl
  where
    asked :
        (b : Bool)
        → contains ids document.id ≡ b
        → get i (by_id (if b then document ∷ [] else []))
          ≡ (if contains ids i then get i (by_id (document ∷ [])) else none)
    asked true h = ground arith
    asked false h = ground arith

-- One role: a second score of the same document violates uniqueness.
abbrev pub save_score : List (ℕ × ℕ) → ℕ → ℕ → List (ℕ × ℕ) × Result ℕ
save_score scores u d =
    if is_scored scores u d then (scores, raise unique_violation) else ((u, d) ∷ scores, ok 1)

pub score_added :
    (scores scores' : List (ℕ × ℕ)) (u d n : ℕ)
    → save_score scores u d ≡ (scores', ok n)
    → ((one_document scores').documents ≡ (one_document scores).documents)
      × ((v i : ℕ) → is_scored scores' v i ≡ ((v == u) && (i == d) || is_scored scores v i))
score_added scores scores' u d n e = elim (Bool-cases (is_scored scores u d)) [
  | inl old ↦ absurd (ground arith)
  | inr new ↦
      let same : scores' ≡ (u, d) ∷ scores = ground arith in
      (refl, λ v i. ap (λ (p : List (ℕ × ℕ)). is_scored p v i) same)
]

pub role_added :
    (scores scores' : List (ℕ × ℕ)) (u d n : ℕ)
    → save_score scores u d ≡ (scores', ok n)
    → (is_scored scores u d ≡ false) × (is_scored scores' u d ≡ true)
role_added scores scores' u d n e = elim (Bool-cases (is_scored scores u d)) [
  | inl old ↦ absurd (ground arith)
  | inr new ↦
      let same : scores' ≡ (u, d) ∷ scores = ground arith in
      (new, ap (λ (p : List (ℕ × ℕ)). is_scored p u d) same ∙ ground arith)
]

pub score_refused :
    (scores scores' : List (ℕ × ℕ)) (u d : ℕ) (e : Exception)
    → save_score scores u d ≡ (scores', raise e)
    → one_document scores' ≡ one_document scores
score_refused scores scores' u d x e = elim (Bool-cases (is_scored scores u d)) [
  | inl old ↦ ground arith
  | inr new ↦ absurd (ground arith)
]

abbrev pub expert_row : Members
expert_row =
    member (codes "user_id") (num 7)
      (member (codes "privilege") (obj (member (codes "expert") (bool true) end)) end)

-- `Db` is the table of scores.
abbrev pub database : Database
database = record {
  Db = List (ℕ × ℕ);
  tables = one_document;
  select_candidates = λ scores u sources from to clause.
      ok (if_wanted (is_wanted scores u sources from to document));
  candidates_wanted = λ scores u sources from to clause. one_wanted _;
  candidates_ordered = λ scores u sources from to clause. one-IsOrdered clause _;
  select_documents = λ scores ids. ok (if contains ids document.id then document ∷ [] else []);
  select_scored = λ scores u ids. ok (keep_if (is_scored scores u) ids);
  scored_lem = λ scores u. scored_rows (is_scored scores u);
  documents_found = λ scores. one_document_found;
  -- the token `expert123` belongs to user 7
  select_user =
      λ scores token. ok (if text_eq token (codes "expert123") then some expert_row else none);
  select_sources = λ scores u. ok (Option.some (3 ∷ []));
  select_all_roles = λ scores u. ok (Option.some (1 ∷ []));
  select_roles = λ scores u source. ok (1 ∷ []);
  select_role_names = λ scores ids. ok [];
  select_source_names = λ scores ids. ok [];
  save_score = λ scores u d role value comment. save_score scores u d;
  saved_scores = λ scores u d role n value comment scores'. score_added scores scores' u d n;
  has_scored = λ scores u d role. is_scored scores u d;
  saved_role = λ scores u d role n value comment scores'. role_added scores scores' u d n;
  unsaved_scores = λ scores u d role value comment scores' x. score_refused scores scores' u d x;
}

abbrev pub broken : Database
broken = record {
  Db = Unit;
  tables = λ db. one_document [];
  select_candidates = λ db u sources from to clause. raise db_error;
  candidates_wanted = λ db u sources from to clause rows e. raise-ne-ok e;
  candidates_ordered = λ db u sources from to clause rows e. raise-ne-ok e;
  select_documents = λ db ids. raise db_error;
  select_scored = λ db u ids. raise db_error;
  scored_lem = λ db u ids rows e. raise-ne-ok e;
  documents_found = λ db ids rows e. raise-ne-ok e;
  select_user = λ db token. raise db_error;
  select_sources = λ db u. raise db_error;
  select_all_roles = λ db u. raise db_error;
  select_roles = λ db u source. raise db_error;
  select_role_names = λ db ids. raise db_error;
  select_source_names = λ db ids. raise db_error;
  saved_scores = λ db u d role n value comment db' e. raise-ne-ok (ap (λ p. p.1) e);
  has_scored = λ db u d role. false;
  saved_role = λ db u d role n value comment db' e. raise-ne-ok (ap (λ p. p.1) e);
  unsaved_scores = λ db u d role value comment db' x e. refl;
  save_score = λ db u d role value comment. (db, raise db_error);
}
