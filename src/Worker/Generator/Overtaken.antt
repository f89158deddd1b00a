-- ===== src/Worker/Generator/Overtaken.antt =====
-- A configuration that is written while a full run of the generator goes on.
use s3p_tape_service.Prelude.{
  ℕ, ◌≡◌, refl, ap, ◌∙◌, true, false, Option, some, none, List, [], ◌∷◌, length, arith,
}
use s3p_tape_service.Prelude.Text.{Text, codes, text_eq, text_eq_refl}
use s3p_tape_service.Errors.{Result, ok, raise}
use s3p_tape_service.Keys.{cfg_key, entries_key}
use s3p_tape_service.Redis.{Keyspace, Fields, reference, merge}
use s3p_tape_service.Stdlib.{Stdlib}
use s3p_tape_service.Settings.{Settings}
use s3p_tape_service.Database.{Database}
use s3p_tape_service.Db.Candidates.{candidates_for_user}
use s3p_tape_service.Store.Tape.Config.{
  TapeConfig, config_of, read_config, get_or, is_one, bind_result,
}
use s3p_tape_service.Store.Tape.RoundTrip.{lookup-insert, insert-ne-nil, config_of-read}
use s3p_tape_service.Store.Tape.View.{Holds}
use s3p_tape_service.Store.Tape.Append.{new_entries}
use s3p_tape_service.Worker.Generator.{fill, kind_of}
use s3p_tape_service.Worker.Generator.Runs.{fill-filled}

-- The dirty flag taken off.
abbrev pub settled : TapeConfig → TapeConfig
settled cfg = record cfg { dirty = false }

abbrev settle : Result TapeConfig → Result TapeConfig
settle x = bind_result x λ cfg. ok (settled cfg)

abbrev clean : Fields → Fields
clean m = merge m ((codes "dirty", codes "0") ∷ [])

read_three :
    (x : Result ℕ) (y z : Result (Option ℕ)) (f : ℕ → Option ℕ → Option ℕ → TapeConfig)
    → bind_result x (λ a. bind_result y λ b. bind_result z λ c. ok (settled (f a b c)))
      ≡ settle (bind_result x λ a. bind_result y λ b. bind_result z λ c. ok (f a b c))
read_three (raise e) y z f = refl
read_three (ok a) (raise e) z f = refl
read_three (ok a) (ok b) (raise e) f = refl
read_three (ok a) (ok b) (ok c) f = refl

config_found :
    (x : Result TapeConfig) (cfg : TapeConfig)
    → bind_result x (λ c. ok (some c)) ≡ ok (some cfg)
    → x ≡ ok cfg
config_found (ok c) cfg e = cc
config_found (raise x) cfg e = ground arith

module _ (lib : Stdlib) (u : ℕ) where
  read_config-clean : (m : Fields) → read_config lib u (clean m) ≡ settle (read_config lib u m)
  unfolding read_config get_or is_one merge text_eq
  read_config-clean m =
      rw
        (
          read_config,
          get_or,
          lookup-insert (codes "page_size") (codes "dirty") (codes "0") m,
          lookup-insert (codes "date_from") (codes "dirty") (codes "0") m,
          lookup-insert (codes "date_to") (codes "dirty") (codes "0") m,
          lookup-insert (codes "ordering") (codes "dirty") (codes "0") m,
          lookup-insert (codes "display_mode") (codes "dirty") (codes "0") m,
          lookup-insert (codes "dirty") (codes "dirty") (codes "0") m,
        )
        (read_three _ _ _ _)

  config_of-clean :
      (m : Fields) (cfg : TapeConfig)
      → config_of lib u m ≡ ok (some cfg)
      → config_of lib u (clean m) ≡ ok (some (settled cfg))
  unfolding config_of merge
  config_of-clean [] cfg e = ground arith
  config_of-clean (f ∷ m) cfg e =
      config_of-read lib 0 u [] [] 0 none none (clean (f ∷ m)) (settled cfg)
        (read_config-clean (f ∷ m) ∙ ap settle (config_found (read_config lib u (f ∷ m)) cfg e))
        (insert-ne-nil (codes "dirty") (codes "0") (f ∷ m))

  module _ (st : Settings) (pg : Database) (db : pg.Db) (token : Text) (now : ℕ) where
    -- Let a full run be under way for a configuration and sources that it has read, and have emptied
    -- the tape, and let the server now hold a configuration `other`, which a request may have written
    -- since. Then the rest of the run, if its query succeeds, fills the tape for the configuration
    -- that it has read, and takes the dirty flag off `other`, which it has not looked at.
    pub fill_overtaken :
        (s : Keyspace) (other cfg : TapeConfig) (sources ids : List ℕ) (run_id removed : ℕ)
        → config_of lib u (s.hashes (cfg_key u)) ≡ ok (some other)
        → Holds s u []
        → candidates_for_user pg db u sources cfg.date_from cfg.date_to cfg.ordering [] ≡ ok ids
        → let (s', result) =
            fill reference lib st pg db token now u true cfg sources run_id (removed, 0, []) s in
          (result ≡ ok (codes "full", length (new_entries [] 0 0 ids)))
          × Holds s' u (new_entries [] 0 0 ids)
          × (config_of lib u (s'.hashes (cfg_key u)) ≡ ok (some (settled other)))
    unfolding kind_of
    fill_overtaken s other cfg sources ids run_id removed configured empty found =
        let run =
          fill-filled lib st pg db token now u true s cfg sources run_id removed 0 [] ids [] empty
            tt found in
        (
          ap (λ (y : Keyspace × Result (Text × ℕ)). y.1) run,
          ap (λ (y : Keyspace × Result (Text × ℕ)). y.0.zsets (entries_key u)) run
              ∙ rw (text_eq_refl (entries_key u)),
          ap (λ (y : Keyspace × Result (Text × ℕ)). config_of lib u (y.0.hashes (cfg_key u))) run
              ∙ rw (text_eq_refl (cfg_key u))
                  (config_of-clean (s.hashes (cfg_key u)) other configured),
        )
