-- ===== src/Store/Tape/Append.antt =====
-- `append_entries` against the list of pairs: the new documents go to the end, in order, each once.
use s3p_tape_service.Prelude.{
  ℕ, ◌+◌, ◌<◌, ◌≡◌, refl, ap, sym, ◌∙◌, fun_ext, List, [], ◌∷◌, ◌++◌, if◌then◌else◌, arith, All,
  All-append, All-map, Bool-cases, inl, inr, append-nil, append_assoc, contains, ◌||◌,
}
use s3p_tape_service.Prelude.Text.{Text, str_of, text_eq_iff, text_eq_refl}
use s3p_tape_service.Action.{Action, for_map, Implements, Implements-for_map, Implements-pure}
use s3p_tape_service.Action
use s3p_tape_service.Keys.{entries_key}
use s3p_tape_service.Redis.{Redis, Keyspace, update, reference}
use s3p_tape_service.Redis.Command
use s3p_tape_service.Store.Tape.Entries.{append_entries, add_entries, added, enumerate}
use s3p_tape_service.Store.Tape.View.{
  Tape, rows, has_doc, IsTape, put_zset, Holds, has_member-rows, insert_member-rows,
  IsTape-append_one,
}

-- The entries for the documents that the tape does not hold, the first at position `start + i`.
abbrev pub new_entries : Tape → ℕ → ℕ → List ℕ → Tape
new_entries t start i [] = []
new_entries t start i (d ∷ ds) =
    let rest = new_entries (if has_doc d t then t else t ++ (start + i, d) ∷ []) start (i + 1) ds in
    if has_doc d t then rest else (start + i, d) ∷ rest

-- The replies to ZADD NX.
abbrev replies : Tape → ℕ → ℕ → List ℕ → List ℕ
replies t start i [] = []
replies t start i (d ∷ ds) =
    (if has_doc d t then 0 else 1)
    ∷ replies (if has_doc d t then t else t ++ (start + i, d) ∷ []) start (i + 1) ds

added-replies :
    (t : Tape) (start i : ℕ) (ds : List ℕ)
    → added start (enumerate i ds) (replies t start i ds) ≡ new_entries t start i ds
unfolding added enumerate
added-replies t start i [] = refl
added-replies t start i (d ∷ ds) = elim (Bool-cases (has_doc d t)) [
  | inl old ↦ rw old (added-replies t start (i + 1) ds)
  | inr new ↦
      rw new (ap (◌∷◌ (start + i, d)) (added-replies (t ++ (start + i, d) ∷ []) start (i + 1) ds))
]

update_self : {A : Type 0} (f : Text → A) (k : Text) (j : Text) → update f k (f k) j ≡ f j
update_self f k j = ground (arith, text_eq_iff j k, λ (e : j ≡ k). ap f e)

update_twice :
    {A : Type 0} (f : Text → A) (k : Text) (v w : A) (j : Text)
    → update (update f k v) k w j ≡ update f k w j
update_twice f k v w j = ground arith

pub put_zset_self : (s : Keyspace) (u : ℕ) (t : Tape) → Holds s u t → put_zset s u (rows t) ≡ s
put_zset_self s u t h =
    ap (λ (z : Text → List (Text × ℕ)). record s { zsets = z })
      (fun_ext λ j.
        ap (λ (v : List (Text × ℕ)). update s.zsets (entries_key u) v j) (sym h)
        ∙ update_self s.zsets (entries_key u) j)

put_zset_twice :
    (s : Keyspace) (u : ℕ) (y z : List (Text × ℕ)) → put_zset (put_zset s u y) u z ≡ put_zset s u z
put_zset_twice s u y z =
    ap (λ (m : Text → List (Text × ℕ)). record s { zsets = m })
      (fun_ext λ j. update_twice s.zsets (entries_key u) y z j)

pub put_zset-Holds : (s : Keyspace) (u : ℕ) (t : Tape) → Holds (put_zset s u (rows t)) u t
put_zset-Holds s u t = rw (text_eq_refl (entries_key u))

-- One ZADD NX on a tape whose positions are all lower.
zadd_nx-tape :
    (s : Keyspace) (u d p : ℕ) (t : Tape)
    → Holds s u t
    → All (λ e. e.0 < p) t
    → Command.zadd_nx (entries_key u) (str_of d) p s ≡ (
      put_zset s u (rows (if has_doc d t then t else t ++ (p, d) ∷ [])),
      if has_doc d t then 0 else 1,
    )
zadd_nx-tape s u d p t h low = elim (Bool-cases (has_doc d t)) [
  | inl old ↦
      rw (h, has_member-rows d t, old)
        (ap {B = Keyspace × ℕ} (λ x. (x, 0)) (sym (put_zset_self s u t h)))
  | inr new ↦ rw (h, has_member-rows d t, new, insert_member-rows d p t low)
]

-- The tape after one document, and the bound on its positions.
abbrev grown : Tape → ℕ → ℕ → Tape
grown t p d = if has_doc d t then t else t ++ (p, d) ∷ []

grown-low :
    (t : Tape) (start i d : ℕ)
    → All (λ e. e.0 < start + i) t
    → All (λ e. e.0 < start + (i + 1)) (grown t (start + i) d)
grown-low t start i d low = elim (Bool-cases (has_doc d t)) [
  | inl old ↦ rw old higher
  | inr new ↦
      rw new
        (All-append (λ e. e.0 < start + (i + 1)) t ((start + i, d) ∷ []) higher (omega arith, tt))
]
  where
    higher : All (λ e. e.0 < start + (i + 1)) t
    higher = All-map (λ e. e.0 < start + i) (λ e. e.0 < start + (i + 1)) (λ e h. omega arith) t low

grown-IsTape : (t : Tape) (p d : ℕ) → IsTape t → All (λ e. e.0 < p) t → IsTape (grown t p d)
grown-IsTape t p d h low = elim (Bool-cases (has_doc d t)) [
  | inl old ↦ rw old h
  | inr new ↦ rw new (IsTape-append_one p d t h low new)
]

append-new_entries :
    (t : Tape) (start i d : ℕ) (ds : List ℕ)
    → grown t (start + i) d ++ new_entries (grown t (start + i) d) start (i + 1) ds
      ≡ t ++ new_entries t start i (d ∷ ds)
append-new_entries t start i d ds = elim (Bool-cases (has_doc d t)) [
  | inl old ↦ rw old
  | inr new ↦ rw new (append_assoc t ((start + i, d) ∷ []) _)
]

-- The pipeline on a tape whose positions are all below the first new one.
add_entries-tape :
    (s : Keyspace) (u start i : ℕ) (t : Tape) (ds : List ℕ)
    → Holds s u t
    → All (λ e. e.0 < start + i) t
    → add_entries reference u start (enumerate i ds) s
      ≡ (put_zset s u (rows (t ++ new_entries t start i ds)), replies t start i ds)
unfolding add_entries enumerate for_map
add_entries-tape s u start i t [] h low =
    ap {B = Keyspace × List ℕ} (λ x. (x, []))
      (sym (put_zset_self s u t h) ∙ ap (λ (y : Tape). put_zset s u (rows y)) (sym (append-nil t)))
add_entries-tape s u start i t (d ∷ ds) h low = rw (zadd_nx-tape s u d (start + i) t h low) (
    ap {B = Keyspace × List ℕ} (λ x. (x.0, reply ∷ x.1))
      (add_entries-tape (put_zset s u (rows t')) u start (i + 1) t' ds (put_zset-Holds s u t')
        (grown-low t start i d low))
    ∙ ap {B = Keyspace × List ℕ} (λ x. (x, reply ∷ replies t' start (i + 1) ds))
        (put_zset_twice s u (rows t') (rows (t' ++ new_entries t' start (i + 1) ds))
          ∙ ap (λ (y : Tape). put_zset s u (rows y)) (append-new_entries t start i d ds)))
  where
    t' : Tape
    t' = grown t (start + i) d

    reply : ℕ
    reply = if has_doc d t then 0 else 1

pub append_entries-tape :
    (s : Keyspace) (u run_id start : ℕ) (t : Tape) (ds : List ℕ)
    → Holds s u t
    → All (λ e. e.0 < start + 0) t
    → append_entries reference u ds run_id start s
      ≡ (put_zset s u (rows (t ++ new_entries t start 0 ds)), new_entries t start 0 ds)
unfolding append_entries
append_entries-tape s u run_id start t [] h low =
    ap {B = Keyspace × Tape} (λ x. (x, []))
      (sym (put_zset_self s u t h) ∙ ap (λ (y : Tape). put_zset s u (rows y)) (sym (append-nil t)))
append_entries-tape s u run_id start t (d ∷ ds) h low =
    ap {B = Keyspace × Tape} (λ x. (x.0, added start (enumerate 0 (d ∷ ds)) x.1))
      (add_entries-tape s u start 0 t (d ∷ ds) h low)
    ∙ ap {B = Keyspace × Tape} (λ y. (put_zset s u (rows (t ++ new_entries t start 0 (d ∷ ds))), y))
        (added-replies t start 0 (d ∷ ds))

pub new_entries-IsTape_from :
    (t : Tape) (start i : ℕ) (ds : List ℕ)
    → IsTape t
    → All (λ e. e.0 < start + i) t
    → IsTape (t ++ new_entries t start i ds)
new_entries-IsTape_from t start i [] h low = rw append-nil h
new_entries-IsTape_from t start i (d ∷ ds) h low = rw (← append-new_entries t start i d ds) (
    new_entries-IsTape_from (grown t (start + i) d) start (i + 1) ds
      (grown-IsTape t (start + i) d h low) (grown-low t start i d low))

module _ (r : Redis) where
  open r use {view, Server, zadd_nx_law}

  pub append_entries-Implements :
      (u : ℕ) (ds : List ℕ) (run_id start : ℕ)
      → Implements view
          (append_entries r u ds run_id start)
          (append_entries reference u ds run_id start)
  unfolding append_entries add_entries
  append_entries-Implements u [] run_id start = Implements-pure view []
  append_entries-Implements u (d ∷ ds) run_id start =
      Action.Implements-bind view
        (Implements-for_map view (enumerate 0 (d ∷ ds))
          (λ e. zadd_nx_law (entries_key u) (str_of e.1) (start + e.0)))
        λ results. Implements-pure view (added start (enumerate 0 (d ∷ ds)) results)

  -- On a well-formed tape whose positions are all below `start`, `append_entries` puts the documents
  -- that the tape does not hold at its end, in the order given and each once, at the positions that
  -- count from `start`; it returns these new entries, keeps the tape well-formed, and changes
  -- nothing else on the server.
  pub append_entries_refines :
      (s : Server) (u run_id start : ℕ) (t : Tape) (ds : List ℕ)
      → Holds (view s) u t
      → IsTape t
      → All (λ e. e.0 < start) t
      → (view (append_entries r u ds run_id start s).0
          ≡ put_zset (view s) u (rows (t ++ new_entries t start 0 ds)))
        × ((append_entries r u ds run_id start s).1 ≡ new_entries t start 0 ds)
        × IsTape (t ++ new_entries t start 0 ds)
  append_entries_refines s u run_id start t ds h tape low = (
    im.state s ∙ ap {B = Keyspace} (λ x. x.0) on_tape,
    im.result s ∙ ap {B = Tape} (λ x. x.1) on_tape,
    new_entries-IsTape_from t start 0 ds tape low',
  )
    where
      im :
          Implements view
            (append_entries r u ds run_id start)
            (append_entries reference u ds run_id start)
      im = append_entries-Implements u ds run_id start

      low' : All (λ e. e.0 < start + 0) t
      low' = All-map (λ e. e.0 < start) (λ e. e.0 < start + 0) (λ e p. omega arith) t low

      on_tape :
          append_entries reference u ds run_id start (view s)
          ≡ (put_zset (view s) u (rows (t ++ new_entries t start 0 ds)), new_entries t start 0 ds)
      on_tape = append_entries-tape (view s) u run_id start t ds h low'

has_doc-append : (d : ℕ) (t u : Tape) → has_doc d (t ++ u) ≡ (has_doc d t || has_doc d u)
has_doc-append d [] u = refl
has_doc-append d ((p, e) ∷ t) u = ground (arith, has_doc-append d t u)

-- The tape after `append_entries` holds exactly the old documents and the given ones.
pub has_doc-new_entries :
    (d : ℕ) (t : Tape) (start i : ℕ) (ds : List ℕ)
    → has_doc d (t ++ new_entries t start i ds) ≡ (has_doc d t || contains ds d)
has_doc-new_entries d t start i [] = rw append-nil (ground arith)
has_doc-new_entries d t start i (e ∷ ds) = rw (← append-new_entries t start i e ds) (
    has_doc-new_entries d (grown t (start + i) e) start (i + 1) ds
    ∙ ground (arith, has_doc-append d t ((start + i, e) ∷ [])))
