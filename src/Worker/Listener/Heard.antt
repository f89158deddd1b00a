-- ===== src/Worker/Listener/Heard.antt =====
-- What a thread of the listener makes of all the notifications that it gets.
use s3p_tape_service.Prelude.{
  false, ℕ, ◌≡◌, ◌≢◌, subst, refl, sym, ap, ◌∙◌, Bool, ◌&&◌, Option, none, some, List, [], ◌∷◌,
  ◌++◌, ◌==◌, if◌then◌else◌, append-nil, append_assoc, Bool-cases, inl, inr, arith,
}
use s3p_tape_service.Prelude.Text.{Text, text_eq}
use s3p_tape_service.Action.{Action, Implements, for_each}
use s3p_tape_service.Action
use s3p_tape_service.Keys.{channel_for}
use s3p_tape_service.Redis.{Redis, reference}
use s3p_tape_service.Stdlib.{Stdlib}
use s3p_tape_service.Store.Events.{make_tape_entry_removed}
use s3p_tape_service.Store.Events.Laws.{publish-Implements}
use s3p_tape_service.Store.Tape.Operations.{remove_entry-Implements}
use s3p_tape_service.Store.Tape.View.{Tape, rows, has_doc, IsTape, Holds}
use s3p_tape_service.Worker.Listener.{handle, handle_lem, ids_of, clear_entry, announce_removed}
use s3p_tape_service.Worker.Listener.Thread.{
  Notify, Rounds, waits, times_out, breaks, finds_stop, Phase, receive, listen, notify_channel,
}
use s3p_tape_service.Service.Requests.{clear_entry-Follows}
use s3p_tape_service.Service.Untouched.{Untouched, Steps-Untouched}
use s3p_tape_service.Errors.{Exception, Result, ok, raise}
use s3p_tape_service.Worker.Listener.Thread.{
  Listener, run, start, stop, new_listener, leave, after_loop, listening, ended,
}
use s3p_tape_service.Worker.Listener.Unscored.{
  heard, named, unscored, drop, drop-IsTape, keep_if-drop, unscored_nil, tells_of,
}

for_each-append :
    {S A B : Type 0} (xs ys : List A) (body : A → Action S B) (s : S)
    → (for_each (xs ++ ys) body s).0 ≡ (for_each ys body (for_each xs body s).0).0
unfolding for_each
for_each-append [] ys body s = refl
for_each-append (x ∷ xs) ys body s = for_each-append xs ys body (body x s).0

module _ (lib : Stdlib) (u : ℕ) where
  module _ (now : ℕ) where
    -- The frame that a notification is answered by.
    abbrev told : Option (ℕ × ℕ) → Tape → List Text
    told none t = []
    told (some (v, c)) t =
        if v == u && has_doc c t then lib.dumps (make_tape_entry_removed lib now u c) ∷ [] else []

    -- The frames of all of them: one for each entry, when it leaves the tape.
    abbrev pub all_told : List Notify → Tape → List Text
    all_told [] t = []
    all_told (n ∷ ns) t = told (named lib u n) t ++ all_told ns (drop lib u (named lib u n) t)

    module _ (r : Redis) where
      open r use {view, Server}

      clear_entry-Implements :
          (o : Option (ℕ × ℕ))
          → Implements view (clear_entry r lib now o) (clear_entry reference lib now o)
      unfolding clear_entry announce_removed
      clear_entry-Implements none = Action.Implements-pure view tt
      clear_entry-Implements (some (v, c)) =
          Action.Implements-bind view (remove_entry-Implements r v c) λ removed.
            Action.Implements-if view (removed == 0) (Action.Implements-pure view tt) (
              Action.Implements-bind view
                (publish-Implements r lib v (make_tape_entry_removed lib now v c))
                λ _. Action.Implements-pure view tt)

      other-Untouched :
          (srv : Server) (v c : ℕ)
          → v ≢ u
          → Untouched u (view srv) (view (clear_entry r lib now (some (v, c)) srv).0)
      other-Untouched srv v c ne =
          subst (Untouched u (view srv)) (sym ((clear_entry-Implements (some (v, c))).state srv)) (
            Steps-Untouched false 0 v u ne (view srv)
              (clear_entry reference lib now (some (v, c)) (view srv)).0
              ((clear_entry-Follows lib now v c).at (view srv)))

      -- The user's tape is `t`, and the messages of the user's channel are those of `srv` and `ms`.
      abbrev IsAt : Server → Tape → List Text → Server → Type 0
      IsAt srv t ms srv' =
          Holds (view srv') u t
          × ((view srv').channels (channel_for u) ≡ (view srv).channels (channel_for u) ++ ms)

      handle-IsAt :
          (srv : Server) (payload : Text) (t : Tape) (o : Option (ℕ × ℕ))
          → ids_of (lib.loads payload) ≡ o
          → Holds (view srv) u t
          → IsTape t
          → IsAt srv (drop lib u o t) (told o t) (handle r lib now payload srv).0
      unfolding handle clear_entry
      handle-IsAt srv payload t none ids h tape = rw ids (h, sym (append-nil _))
      handle-IsAt srv payload t (some (v, c)) ids h tape = elim (Bool-cases (v == u)) [
        | inl own ↦
            let (holds, _, frames) =
              handle_lem r lib now srv payload u c t (ids ∙ ap (λ w. some (w, c)) (ground arith)) h
                tape in
            rw own (holds, frames)
        | inr other ↦
            let un = other-Untouched srv v c (ground arith) in
            rw (other, ids) (un.tape ∙ h, un.frames ∙ sym (append-nil _))
      ]

      receive-IsAt :
          (srv : Server) (n : Notify) (t : Tape)
          → Holds (view srv) u t
          → IsTape t
          → IsAt srv
              (drop lib u (named lib u n) t)
              (told (named lib u n) t)
              (receive r lib now n srv).0
      unfolding receive
      receive-IsAt srv n t h tape = elim (Bool-cases (text_eq n.channel notify_channel)) [
        | inl mine ↦
            rw mine (handle-IsAt srv n.payload t (ids_of (lib.loads n.payload)) refl h tape)
        | inr foreign ↦ rw foreign (h, sym (append-nil _))
      ]

      for_each-IsAt :
          (ns : List Notify) (srv : Server) (t : Tape)
          → Holds (view srv) u t
          → IsTape t
          → IsAt srv (unscored lib u ns t) (all_told ns t) (for_each ns (receive r lib now) srv).0
      unfolding for_each
      for_each-IsAt [] srv t h tape = (h ∙ ap rows (sym (unscored_nil lib u t)), sym (append-nil _))
      for_each-IsAt (n ∷ ns) srv t h tape =
          let (holds, frames) = receive-IsAt srv n t h tape in
          let (holds', frames') =
            for_each-IsAt ns (receive r lib now n srv).0 (drop lib u (named lib u n) t) holds
              (drop-IsTape lib u (named lib u n) t tape) in
          (
            holds' ∙ ap rows (keep_if-drop lib u (named lib u n) (tells_of lib u ns) t tape),
            frames'
                ∙ ap (λ ms. ms ++ all_told ns (drop lib u (named lib u n) t)) frames
                ∙ append_assoc ((view srv).channels (channel_for u)) (told (named lib u n) t) _,
          )

      listen-for_each :
          (rounds : Rounds) (srv : Server)
          → (listen r lib now rounds srv).0 ≡ (for_each (heard rounds) (receive r lib now) srv).0
      unfolding listen for_each
      listen-for_each (waits batch) srv = refl
      listen-for_each (times_out batch rounds) srv =
          listen-for_each rounds (for_each batch (receive r lib now) srv).0
          ∙ sym (for_each-append batch (heard rounds) (receive r lib now) srv)
      listen-for_each (breaks batch e) srv = refl
      listen-for_each finds_stop srv = refl

      -- Once a thread of the listener is connected, whatever it goes through and however it ends, and
      -- for a user with the well-formed tape `t`: the tape has lost exactly the entries of which one
      -- of the notifications on its channel tells, wherever that stands among notifications of other
      -- users, of other channels and without readable ids; the rest keeps its order; and the user's
      -- channel has received one frame for each entry that went, in the order of the notifications,
      -- and no other.
      pub run-heard :
          {T : Type 0} (operational : Exception → Bool) (rounds : Rounds) (l : Listener T)
          (srv : Server) (t : Tape)
          → Holds (view srv) u t
          → IsTape t
          → let srv' = (run r lib now operational (ok tt) rounds (l, srv)).0.1 in
            Holds (view srv') u (unscored lib u (heard rounds) t)
            × ((view srv').channels (channel_for u)
                ≡ (view srv).channels (channel_for u) ++ all_told (heard rounds) t)
      unfolding run
      run-heard operational rounds l srv t h tape =
          rw (listen-for_each rounds srv) (for_each-IsAt (heard rounds) srv t h tape)

after_loop-thread :
    {T : Type 0} (operational : Exception → Bool) (phase : Phase) (l : Listener T)
    → (after_loop operational phase l).0.thread ≡ l.thread
unfolding after_loop leave
after_loop-thread operational listening l = refl
after_loop-thread operational (ended (ok _)) l = refl
after_loop-thread operational (ended (raise e)) l = refl

start-none :
    {T : Type 0} (made first : T) (l : Listener T) → l.thread ≡ some first → (start made l).1 ≡ none
unfolding start
start-none made first l e = rw e

module _ (r : Redis) (lib : Stdlib) (now : ℕ) {T : Type 0} (operational : Exception → Bool) where
  run-thread :
      (connected : Result Unit) (rounds : Rounds) (l : Listener T) (srv : r.Server)
      → (run r lib now operational connected rounds (l, srv)).0.0.thread ≡ l.thread
  unfolding run leave
  run-thread (ok _) rounds l srv = after_loop-thread operational (listen r lib now rounds srv).1 l
  run-thread (raise e) rounds l srv = refl

  -- A listener that was started, and whose thread has gone through anything, the loss of its
  -- connection included: starting it again starts no thread, until it has been stopped.
  pub start-run :
      (connected : Result Unit) (rounds : Rounds) (first made : T) (srv : r.Server)
      → let l = (start first new_listener).0 in
        let l' = (run r lib now operational connected rounds (l, srv)).0.0 in
        ((start made l').1 ≡ none) × ((start made (stop l').0).1 ≡ some made)
  unfolding start stop
  start-run connected rounds first made srv =
      (start-none made first _ (run-thread connected rounds (start first new_listener).0 srv), refl)
