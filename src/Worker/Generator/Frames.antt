-- ===== src/Worker/Generator/Frames.antt =====
-- Publishing on the keyspace: frames are added to the user's channel and nothing else changes.
use s3p_tape_service.Prelude.{
  ℕ, ◌≡◌, ap, ◌∙◌, fun_ext, Bool, List, [], ◌∷◌, ◌++◌, map, append-nil, append_assoc, arith,
}
use s3p_tape_service.Prelude.Text.{Text, text_eq_refl, text_eq_iff}
use s3p_tape_service.Action.{for_each}
use s3p_tape_service.Keys.{channel_for}
use s3p_tape_service.Redis.{Keyspace, reference, update}
use s3p_tape_service.Stdlib.{Stdlib}
use s3p_tape_service.Settings.{Settings}
use s3p_tape_service.Database.{Database}
use s3p_tape_service.Store.Events.{make_tape_entry_added, publish}
use s3p_tape_service.Worker.Generator.{announce}

-- The keyspace after the messages have been published to the user, in order.
abbrev pub said : ℕ → List Text → Keyspace → Keyspace
said u ms s = record s {
  channels = update s.channels (channel_for u) (s.channels (channel_for u) ++ ms);
}

said_nil : (u : ℕ) (s : Keyspace) → s ≡ said u [] s
said_nil u s = ap (λ (c : Text → List Text). record s { channels = c }) (fun_ext here)
  where
    here :
        (j : Text)
        → s.channels j ≡ update s.channels (channel_for u) (s.channels (channel_for u) ++ []) j
    here j = ground (
      arith,
      append-nil (s.channels (channel_for u)),
      text_eq_iff j (channel_for u),
      λ (e : j ≡ channel_for u). ap s.channels e,
    )

pub said-said :
    (u : ℕ) (ms ns : List Text) (s : Keyspace) → said u ns (said u ms s) ≡ said u (ms ++ ns) s
said-said u ms ns s = ap (λ (c : Text → List Text). record s { channels = c }) (fun_ext here)
  where
    k : Text
    k = channel_for u

    here : (j : Text) → (said u ns (said u ms s)).channels j ≡ (said u (ms ++ ns) s).channels j
    here j =
        ground
          (arith, text_eq_refl (channel_for u), append_assoc (s.channels (channel_for u)) ms ns)

module _ (lib : Stdlib) (st : Settings) (pg : Database) (db : pg.Db) (token : Text) (now : ℕ)
    (u : ℕ) (dirty : Bool) where
  -- The frames of the entries that were added.
  abbrev pub added_frames : List (ℕ × ℕ) → List Text
  added_frames = map (λ e. lib.dumps (make_tape_entry_added lib now u e.0 e.1))

  pub announce_all :
      (new : List (ℕ × ℕ)) (s : Keyspace)
      → (for_each new (announce reference lib st pg db token now u dirty) s).0
        ≡ said u (added_frames new) s
  unfolding for_each announce publish
  announce_all [] s = said_nil u s
  announce_all ((p, d) ∷ new) s =
      announce_all new (said u (lib.dumps (make_tape_entry_added lib now u p d) ∷ []) s)
      ∙ said-said u (lib.dumps (make_tape_entry_added lib now u p d) ∷ []) (added_frames new) s
