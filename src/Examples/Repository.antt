-- ===== src/Examples/Repository.antt =====
-- A batch of four ids, one of them twice: one cached, one cached as empty, one only in the database.
use fuzoj.Prelude.{
  ◌≡◌, refl, List, [], ◌∷◌, map, String, true, false, none, some, if◌then◌else◌, str_eq,
}
use fuzoj.Prelude.Assoc.{find, put}
use fuzoj.Submit.Cache.{Store, Faults}
use fuzoj.Submit.Repository.{StatusRepository, Database, get_batch, add_value, cached_status}
use fuzoj.Submit.Repository.Batch.{AsksFor, answer_for, get_batch-map}

abbrev repository : StatusRepository String
repository = record {
  has_cache = true;
  short_hash = λ id. id;
  get_submission_id = λ s. "s3";
  encode = λ s. some s;
  decode = λ s. some s;
  build_unknown = λ id. "Unknown";
  is_final_status = λ s. str_eq s "Finished";
}

abbrev database : Database String
database = record {
  load_one = λ id. some none;
  load_batch = λ ids. some (("s3", "Finished") ∷ []);
  load_final = none;
}

abbrev no_faults : Faults
no_faults = record {
  get_primary = false;
  get_legacy = false;
  set_primary = false;
  set_legacy = false;
  publish = false;
}

abbrev text : String → String
text id = if str_eq id "s1" then "Running" else if str_eq id "s2" then "$NULL$" else ""

abbrev ids : List String
ids = "s1" ∷ "s3" ∷ "s2" ∷ "s3" ∷ []

abbrev empty_store : Store
empty_store = record { primary = []; legacy = [] }

answers :
    (get_batch repository database no_faults empty_store (some (map text ids)) ids).0
    ≡ some ("Running" ∷ "Finished" ∷ "Unknown" ∷ "Finished" ∷ [])
unfolding get_batch add_value cached_status find put
answers = refl

get_batch-map_example :
    (missing : List String) × AsksFor repository text ids missing
    × ((get_batch repository database no_faults empty_store (some (map text ids)) ids).0
        ≡ some (map (answer_for repository text (("s3", "Finished") ∷ [])) ids))
get_batch-map_example =
    get_batch-map repository text database no_faults empty_store ids
      (λ missing. ("s3", "Finished") ∷ []) refl refl (λ missing. refl)
