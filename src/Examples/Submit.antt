-- ===== src/Examples/Submit.antt =====
-- Statuses of one submission that reach the cache in a bad order, while Redis fails at times.
use fuzoj.Prelude.Text.{is_word}
use fuzoj.Prelude.{◌≡◌, ◌≢◌, refl, ◌⊎◌, ◌↔◌, List, [], ◌∷◌, String, true, false, none, some, str_eq}
use fuzoj.Prelude.Int.{pos}
use fuzoj.Prelude.Assoc.{find_or, put}
use fuzoj.Submit.Payload.{StatusPayload, Json, build_summary, is_final_status}
use fuzoj.Submit.Monotonic.{
  Position, stage_unknown, stage_final, status_stage, should_accept_at, should_accept,
}
use fuzoj.Submit.Monotonic.Order.{Later, should_accept_iff}
use fuzoj.Submit.Cache.{Store, Faults, hit, get, set, get-set}
use fuzoj.Prelude.Assoc.{find}
use fuzoj.Submit.Writer.{
  Submission, World, WriteFaults, cache_error, finished_at_or, write_all, write_final_status,
}
use fuzoj.Submit.Writer.First.{write_all-first}
use fuzoj.Submit.Writer.Retry.{write_final_status-retried}
use fuzoj.Submit.Flow.{apply_all, apply_summary, apply_loaded, compare_current, write_summary}
use fuzoj.Submit.Flow.Order.{Holds, Forward, apply_all-Forward}

abbrev status_of : String → StatusPayload
status_of s = record {
  submission_id = "s1";
  status = s;
  verdict = "";
  score = pos 0;
  language = "go";
  summary = "";
  compile = none;
  tests = [];
  received_at = pos 1;
  finished_at = pos 0;
  total_tests = pos 3;
  done_tests = pos 0;
  error_code = pos 0;
  error_message = "";
}

-- A code for the statuses above: the text is the status.
abbrev by_status : Json
by_status = record { encode = λ p. p.status; decode = λ s. some (status_of s) }

abbrev short : String → String
short s = s

abbrev no_faults : Faults
no_faults = record {
  get_primary = false;
  get_legacy = false;
  set_primary = false;
  set_legacy = false;
  publish = false;
}

abbrev legacy_fails : Faults
legacy_fails = record no_faults { set_legacy = true }

abbrev cached : Store
cached = record { primary = ("s1", "Running") ∷ []; legacy = [] }

abbrev updates : List (Faults × StatusPayload)
updates =
    (no_faults, status_of "Compiling")
    ∷ (legacy_fails, status_of "Finished")
    ∷ (no_faults, status_of "Judging")
    ∷ []

-- The final status stays.
final_stays : find_or (apply_all by_status short cached updates).primary "s1" "" ≡ "Finished"
unfolding find_or apply_summary apply_loaded get compare_current should_accept should_accept_at
    status_stage is_word write_summary set put build_summary
final_stays = refl

running_stage : status_stage "Running" ≡ pos 4
unfolding status_stage is_word
running_stage = refl

running_known : status_stage "Running" ≢ stage_unknown
running_known = rw running_stage (λ h. cc)

apply_all-Forward_example :
    (q : StatusPayload) × Holds by_status short "s1" (apply_all by_status short cached updates) q
    × Forward by_status short "s1" (status_of "Running") q
unfolding find_or build_summary
apply_all-Forward_example =
    apply_all-Forward by_status short "s1" cached (status_of "Running")
      (refl, running_known, record { reads_back = refl; nonempty = refl; not_null = refl }) refl
      updates
      (
        record { reads_back = refl; nonempty = refl; not_null = refl },
        (
          record { reads_back = refl; nonempty = refl; not_null = refl },
          (record { reads_back = refl; nonempty = refl; not_null = refl }, tt),
        ),
      )

abbrev judged_two : Position
judged_two = record { stage = pos 4; done = pos 2; total = pos 3 }

abbrev judged_three : Position
judged_three = record { stage = pos 4; done = pos 3; total = pos 3 }

should_accept_iff_example : ((should_accept_at judged_two judged_three).0 ≡ true) ↔ (
    (pos 4 ≢ stage_unknown)
    × ((pos 4 ≡ stage_unknown) ⊎ ((pos 4 ≢ stage_final) × Later judged_two judged_three)))
should_accept_iff_example = should_accept_iff judged_two judged_three

get-set_example :
    (get short no_faults (set short legacy_fails cached "s2" "Pending").1 "s2" ≡ hit "Pending")
    × ((other : String)
        → str_eq "s2" other ≡ false
        → str_eq (find_or cached.primary other "") "" ≡ false
        → get short no_faults (set short legacy_fails cached "s2" "Pending").1 other
          ≡ get short no_faults cached other)
get-set_example = get-set short legacy_fails no_faults cached "s2" "Pending" refl refl refl refl

abbrev no_write_faults : WriteFaults
no_write_faults = record { exec = false; rows_affected = false; query = false; redis = no_faults }

abbrev redis_fails : WriteFaults
redis_fails = record no_write_faults { redis = record no_faults { set_primary = true } }

abbrev unfinished : Submission
unfinished = record { final_status = none; final_status_at = none }

abbrev world : World
world = record { submissions = ("s1", unfinished) ∷ []; cache = cached }

write_all-first_example :
    find
      (write_all by_status short world (
        (redis_fails, pos 9, status_of "Finished")
        ∷ (no_write_faults, pos 12, status_of "Failed")
        ∷ [])).submissions
      "s1"
    ≡ some (record {
      final_status = some "Finished";
      final_status_at = some (finished_at_or (pos 9) (status_of "Finished"));
    })
unfolding is_final_status is_word find
write_all-first_example =
    write_all-first by_status short redis_fails (pos 9) world (status_of "Finished") unfinished refl
      refl refl refl refl ((no_write_faults, pos 12, status_of "Failed") ∷ [])

write_final_status-retried_example :
    let once =
      write_final_status by_status short redis_fails (pos 9) world (status_of "Finished") in
    let again =
      write_final_status by_status short no_write_faults (pos 12) once.1 (status_of "Finished") in
    (once.0 ≡ some cache_error) × (again.0 ≡ none) × (again.1.cache ≡ world.cache)
unfolding is_final_status is_word find
write_final_status-retried_example =
    write_final_status-retried by_status short (status_of "Finished") refl refl world redis_fails
      no_write_faults (pos 9) (pos 12) unfinished refl refl refl refl refl refl refl
