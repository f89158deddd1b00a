-- ===== src/Worker/Listener.antt =====
-- src/tape_service/worker/listener.py: `_handle`, what the worker does with a notification of the
-- platform that a document was scored. The subscription itself is input and output, and calls of
-- Redis do not raise here.
pub mod Thread
pub mod Unscored
pub mod Heard
use s3p_tape_service.Prelude.{
  ℕ, ◌≡◌, refl, ◌∙◌, Bool, true, false, Option, none, some, ◌==◌, if◌then◌else◌, [], ◌∷◌, ◌++◌, sym,
  append-nil, Bool-cases, inl, inr,
}
use s3p_tape_service.Prelude.Text.{Text, codes, text_eq_refl}
use s3p_tape_service.Action.{Action, pure, ◌>>=◌, ◌>>◌}
use s3p_tape_service.Errors.{Result, ok}
use s3p_tape_service.Redis.{Redis, Keyspace}
use s3p_tape_service.Redis.Command
use s3p_tape_service.Stdlib.{Stdlib, Json, obj, field?}
use s3p_tape_service.Keys.{channel_for, entries_key}
use s3p_tape_service.Store.Events.{publish, make_tape_entry_removed}
use s3p_tape_service.Store.Sessions.{int_of_field}
use s3p_tape_service.Store.Tape.Entries.{remove_entry}
use s3p_tape_service.Store.Tape.View.{Tape, rows, has_doc, remove_doc, IsTape, Holds, put_zset}
use s3p_tape_service.Store.Tape.Operations.{remove_doc-IsTape}
use s3p_tape_service.Store.Tape.Laws.{remove_entry_lem}

abbrev both_ids : Result ℕ → Result ℕ → Option (ℕ × ℕ)
both_ids (ok user_id) (ok doc_id) = some (user_id, doc_id)
both_ids _ _ = none

-- The first `try`: `none` where a `KeyError`, `TypeError` or `ValueError` is caught.
unfoldable pub ids_of : Option Json → Option (ℕ × ℕ)
unfolding int_of_field field?
ids_of (some (obj m)) =
    both_ids (int_of_field (field? (codes "user_id") m))
      (int_of_field (field? (codes "document_id") m))
ids_of _ = none

module _ (r : Redis) (lib : Stdlib) (now : ℕ) where
  open r use {view, Server, publish_law}

  -- `if removed: events.publish(...)`
  unfoldable pub announce_removed : ℕ → ℕ → ℕ → Action Server Unit
  unfolding publish make_tape_entry_removed
  announce_removed user_id doc_id removed =
      if removed == 0
      then pure tt
      else publish r lib user_id (make_tape_entry_removed lib now user_id doc_id) >> pure tt

  unfoldable pub clear_entry : Option (ℕ × ℕ) → Action Server Unit
  unfolding announce_removed remove_entry
  clear_entry none = pure tt
  clear_entry (some (user_id, doc_id)) = do
    removed ← remove_entry r user_id doc_id
    announce_removed user_id doc_id removed

  unfoldable pub handle : Text → Action Server Unit
  unfolding clear_entry ids_of
  handle payload = clear_entry (ids_of (lib.loads payload))

  announced :
      (ks : Keyspace) (srv : Server) (u d n : ℕ) (b : Bool)
      → view srv ≡ ks
      → n ≡ (if b then 1 else 0)
      → view (announce_removed u d n srv).0 ≡ (
          if b
          then (Command.publish
              (channel_for u)
              (lib.dumps (make_tape_entry_removed lib now u d))
              ks).0
          else ks)
  unfolding announce_removed
  announced ks srv u d n true e m = rw m ((publish_law _ _).state srv ∙ rw e)
  announced ks srv u d n false e m = rw m e

  handle-removed :
      (srv : Server) (payload : Text) (u d : ℕ) (t : Tape)
      → ids_of (lib.loads payload) ≡ some (u, d)
      → Holds (view srv) u t
      → IsTape t
      → view (handle payload srv).0 ≡ (
          if has_doc d t
          then (Command.publish
              (channel_for u)
              (lib.dumps (make_tape_entry_removed lib now u d))
              (put_zset (view srv) u (rows (remove_doc d t)))).0
          else put_zset (view srv) u (rows (remove_doc d t)))
  unfolding handle clear_entry
  handle-removed srv payload u d t ids h tape =
      let (state, result, kept) = remove_entry_lem r srv u t h d tape in
      rw ids (
        announced _ (remove_entry r u d srv).0 u d (remove_entry r u d srv).1 (has_doc d t) state
          result)

  -- On a notification with the ids of a user and a document, for a user with the well-formed tape
  -- `t`: the tape loses the document and stays well-formed, and the user's channel receives one
  -- frame that says so if the document was on the tape, and none if it was not.
  pub handle_lem :
      (srv : Server) (payload : Text) (u d : ℕ) (t : Tape)
      → ids_of (lib.loads payload) ≡ some (u, d)
      → Holds (view srv) u t
      → IsTape t
      → Holds (view (handle payload srv).0) u (remove_doc d t)
        × IsTape (remove_doc d t)
        × ((view (handle payload srv).0).channels (channel_for u)
            ≡ (view srv).channels (channel_for u)
              ++ (if has_doc d t then lib.dumps (make_tape_entry_removed lib now u d) ∷ [] else []))
  handle_lem srv payload u d t ids h tape =
      rw (handle-removed srv payload u d t ids h tape) (elim (Bool-cases (has_doc d t)) [
        | inl here ↦
            rw (here, text_eq_refl (entries_key u), text_eq_refl (channel_for u))
              (refl, remove_doc-IsTape d t tape, refl)
        | inr absent ↦
            rw (absent, text_eq_refl (entries_key u))
              (refl, remove_doc-IsTape d t tape, sym (append-nil _))
      ])
