-- ===== src/Store/Tape/Laws.antt =====
-- What each operation on a tape does, on any server that holds the tape.
use s3p_tape_service.Prelude.{
  ℕ, ◌≡◌, refl, ap, sym, ◌∙◌, Bool, true, false, Option, none, some, [], ◌∷◌, ◌==◌, if◌then◌else◌,
  arith, Bool-cases, inl, inr, length, take,
}
use s3p_tape_service.Errors.{Result, ok}
use s3p_tape_service.Keys.{entries_key}
use s3p_tape_service.Redis.{Redis, Keyspace, reference}
use s3p_tape_service.Redis.Command
use s3p_tape_service.Store.Tape.Entries.{
  list_entries_page, read_rows, max_position, remove_entry, delete_all_entries,
}
use s3p_tape_service.Store.Tape.View.{
  Tape, rows, has_doc, remove_doc, IsTape, put_zset, Holds, has_member-rows, remove_member-rows,
  read_rows-rows,
}
use s3p_tape_service.Store.Tape.Append.{put_zset_self}
use s3p_tape_service.Store.Tape.Operations.{
  page, take-rows, keep_if-rows, length-rows, last_position, last_row, remove_doc-IsTape,
  list_entries_page-Implements, max_position-Implements, remove_entry-Implements,
  delete_all_entries-Implements,
}

read_rows-page : (t : Tape) (limit : ℕ) → read_rows (take limit (rows t)) ≡ ok (take limit t)
read_rows-page t limit = ap read_rows (take-rows limit t) ∙ read_rows-rows (take limit t)

read_rows-first :
    (t : Tape) (limit : ℕ) (b : Bool)
    → read_rows (if b then rows t else take limit (rows t)) ≡ ok (if b then t else take limit t)
read_rows-first t limit true = read_rows-rows t
read_rows-first t limit false = read_rows-page t limit

pub list_entries_page-tape :
    (s : Keyspace) (u : ℕ) (t : Tape) (after : Option ℕ) (limit : ℕ)
    → Holds s u t
    → list_entries_page reference u after limit s ≡ (s, ok (page t after limit))
unfolding list_entries_page
list_entries_page-tape s u t none limit h =
    rw h (ap {B = Keyspace × Result Tape} (λ x. (s, x)) (read_rows-first t limit (limit == 0)))
list_entries_page-tape s u t (some after) limit h =
    rw (h, keep_if-rows after t)
      (ap {B = Keyspace × Result Tape} (λ x. (s, x)) (read_rows-page _ limit))

remove_doc_absent : (d : ℕ) (t : Tape) → has_doc d t ≡ false → remove_doc d t ≡ t
remove_doc_absent d [] h = refl
remove_doc_absent d ((p, e) ∷ t) h = ground (arith, remove_doc_absent d t)

pub remove_entry-tape :
    (s : Keyspace) (u d : ℕ) (t : Tape)
    → Holds s u t
    → remove_entry reference u d s
      ≡ (put_zset s u (rows (remove_doc d t)), if has_doc d t then 1 else 0)
unfolding remove_entry
remove_entry-tape s u d t h = elim (Bool-cases (has_doc d t)) [
  | inl here ↦ rw (h, has_member-rows d t, here, remove_member-rows d t)
  | inr absent ↦
      rw (h, has_member-rows d t, absent, remove_doc_absent d t absent)
        (ap {B = Keyspace × ℕ} (λ x. (x, 0)) (sym (put_zset_self s u t h)))
]

module _ (r : Redis) where
  open r use {view, Server}

  module _ (s : Server) (u : ℕ) (t : Tape) (h : Holds (view s) u t) where
    -- A page holds the first `limit` entries, or the first `limit` entries whose position is above
    -- `after`; reading it changes nothing and does not raise.
    pub list_entries_page_lem :
        (after : Option ℕ) (limit : ℕ)
        → (view (list_entries_page r u after limit s).0 ≡ view s)
          × ((list_entries_page r u after limit s).1 ≡ ok (page t after limit))
    list_entries_page_lem after limit =
        let on_tape = list_entries_page-tape (view s) u t after limit h in
        let im = list_entries_page-Implements r u after limit in
        (
          im.state s ∙ ap {B = Keyspace} (λ x. x.0) on_tape,
          im.result s ∙ ap {B = Result Tape} (λ x. x.1) on_tape,
        )

    -- The highest position is the position of the tape's last entry, none for the empty tape; to
    -- ask for it changes nothing.
    pub max_position_lem :
        (view (max_position r u s).0 ≡ view s) × ((max_position r u s).1 ≡ last_position t)
    max_position_lem =
        let on_tape = last_row t (view s) u h in
        let im = max_position-Implements r u in
        (
          im.state s ∙ ap {B = Keyspace} (λ x. x.0) on_tape,
          im.result s ∙ ap {B = Option ℕ} (λ x. x.1) on_tape,
        )

    -- On a well-formed tape, removing a document drops its entry, keeps every other entry and the
    -- tape well-formed, changes nothing else on the server, and returns 1 if the document was
    -- there and 0 otherwise.
    pub remove_entry_lem :
        (d : ℕ)
        → IsTape t
        → (view (remove_entry r u d s).0 ≡ put_zset (view s) u (rows (remove_doc d t)))
          × ((remove_entry r u d s).1 ≡ (if has_doc d t then 1 else 0))
          × IsTape (remove_doc d t)
    remove_entry_lem d tape =
        let on_tape = remove_entry-tape (view s) u d t h in
        let im = remove_entry-Implements r u d in
        (
          im.state s ∙ ap {B = Keyspace} (λ x. x.0) on_tape,
          im.result s ∙ ap {B = ℕ} (λ x. x.1) on_tape,
          remove_doc-IsTape d t tape,
        )

    -- Deleting the entries returns how many there were, and does to the server what DEL of the
    -- user's sorted set does.
    pub delete_all_entries_lem :
        (view (delete_all_entries r u s).0 ≡ (Command.delete (entries_key u) (view s)).0)
        × ((delete_all_entries r u s).1 ≡ length t)
    unfolding delete_all_entries
    delete_all_entries_lem = (
      (delete_all_entries-Implements r u).state s,
      (delete_all_entries-Implements r u).result s ∙ ap length h ∙ length-rows t,
    )
