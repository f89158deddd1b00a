-- ===== src/Tests/Tapes.antt =====
-- The tape's operations at concrete inputs.
use s3p_tape_service.Prelude.{ℕ, ◌≡◌, List, [], ◌∷◌, ◌++◌, arith}
use s3p_tape_service.Redis.{reference}
use s3p_tape_service.Store.Tape.Entries.{append_entries}
use s3p_tape_service.Store.Tape.View.{rows, IsTape, put_zset}
use s3p_tape_service.Store.Tape.Append.{new_entries, append_entries_refines}
use s3p_tape_service.Tests.Samples.{tape, tape-IsTape, configured, configured-Holds}

abbrev documents : List ℕ
documents = 8 ∷ 9 ∷ 8 ∷ 1 ∷ []

append_entries_refines_example :
    ((append_entries reference 7 documents 1 5 configured).0
      ≡ put_zset configured 7 (rows (tape ++ new_entries tape 5 0 documents)))
    × ((append_entries reference 7 documents 1 5 configured).1 ≡ new_entries tape 5 0 documents)
    × IsTape (tape ++ new_entries tape 5 0 documents)
append_entries_refines_example =
    append_entries_refines reference configured 7 1 5 tape documents configured-Holds tape-IsTape
      (omega arith, (omega arith, (omega arith, tt)))
