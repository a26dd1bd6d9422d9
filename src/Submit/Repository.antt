-- ===== src/Submit/Repository.antt =====
-- `StatusRepository` (pkg/submit/statusrepo/status_repository.go), which reads statuses through the
-- cache of Submit/Cache. The type of a status, its JSON text and the database are parameters; `none`
-- is an error. A repository with all its functions but, perhaps, without Redis.
pub mod Batch
use fuzoj.Prelude.{
  ◌≡◌, List, [], ◌∷◌, ◌++◌, String, Bool, true, false, not, Option, none, some, if◌then◌else◌,
  str_eq, contains,
}
use fuzoj.Prelude.Assoc.{Assoc, find, find_or, put}
use fuzoj.Submit.Payload.{StatusPayload, Json}
use fuzoj.Submit.Flow.{Reply, error, replied, apply_summary}
use fuzoj.Submit.Cache.{Store, Faults, Loaded, load_failed, miss, hit, get, set}

-- StatusRepositoryConfig
pub record StatusRepository (T : Type 0) : Type 0 where
  pub has_cache : Bool
  pub short_hash : String → String
  pub get_submission_id : T → String
  pub encode : T → Option String
  pub decode : String → Option T
  pub build_unknown : String → T
  pub is_final_status : T → Bool

-- The database at the time of a call: an error, no status, or one.
pub record Database (T : Type 0) : Type 0 where
  pub load_one : String → Option (Option T)
  pub load_batch : List String → Option (Assoc T)
  pub load_final : Option (String → Option (Option T))

-- The guards of `GetBatch`.
abbrev pub is_refused : List String → Bool
is_refused [] = true
is_refused (id ∷ ids) = contains (id ∷ ids) ""

module _ {T : Type 0} (r : StatusRepository T) where
  -- cacheStatus, of which nothing is returned
  unfoldable pub cache_status : Faults → Store → T → Store
  unfolding set
  cache_status f st status = elim (r.encode status) [
    | none ↦ st
    | some payload ↦
        if not r.has_cache
        then st
        else if str_eq (r.get_submission_id status) ""
        then st
        else if str_eq payload ""
        then st
        else (set r.short_hash f st (r.get_submission_id status) payload).1
  ]

  -- `Get` from the database on.
  unfoldable pub from_database : Faults → Store → String → Option (Option T) → Option T × Store
  unfolding cache_status
  from_database f st id none = (none, st)
  from_database f st id (some none) =
      (some (r.build_unknown id), cache_status f st (r.build_unknown id))
  from_database f st id (some (some status)) = (some status, cache_status f st status)

  -- What a text of the cache says; `none` sends the reader to the database.
  unfoldable pub cached_status : String → String → Option T
  cached_status id text =
      if str_eq text ""
      then none
      else if str_eq text "$NULL$"
      then some (r.build_unknown id)
      else r.decode text

  unfoldable pub after_cache : Database T → Faults → Store → String → Loaded → Option T × Store
  unfolding from_database cached_status
  after_cache db f st id load_failed = (none, st)
  after_cache db f st id miss = from_database f st id (db.load_one id)
  after_cache db f st id (hit text) = elim (cached_status id text) [
    | some status ↦ (some status, st)
    | none ↦ from_database f st id (db.load_one id)
  ]

  -- Get, which is GetLatestStatus too
  unfoldable pub get_status : Database T → Faults → Store → String → Option T × Store
  unfolding after_cache get
  get_status db f st id =
      if str_eq id ""
      then (none, st)
      else if r.has_cache
      then after_cache db f st id (get r.short_hash f st id)
      else from_database f st id (db.load_one id)

  -- GetFinalDetail, which is GetFinalStatus too
  unfoldable pub get_final_detail : Database T → Faults → Store → String → Option T × Store
  unfolding get_status
  get_final_detail db f st id = if str_eq id "" then (none, st) else elim db.load_final [
    | none ↦ get_status db f st id
    | some load ↦ elim (load id) [
      | none ↦ (none, st)
      | some none ↦ (some (r.build_unknown id), st)
      | some (some status) ↦ (some status, st)
    ]
  ]

  -- What the loop over the values of the cache has found, and the ids that are missing.
  pub record Found : Type 0 where
    pub status_by_id : Assoc T
    pub missing_ids : List String

  unfoldable pub add_missing : Found → List String → Found
  add_missing a [] = a
  add_missing a (id ∷ ids) =
      add_missing
        (if contains a.missing_ids id
          then a
          else record a { missing_ids = a.missing_ids ++ id ∷ [] })
        ids

  unfoldable pub add_value : Found → String → Option T → Found
  add_value a id (some status) = record a { status_by_id = put a.status_by_id id status }
  add_value a id none =
      if contains a.missing_ids id then a else record a { missing_ids = a.missing_ids ++ id ∷ [] }

  unfoldable pub read_value : Found → String → String → Found
  read_value a id raw =
      if str_eq raw ""
      then record a { missing_ids = a.missing_ids ++ id ∷ [] }
      else add_value a id (cached_status id raw)

  -- The loop, and the ids past the last value.
  unfoldable pub read_values : Found → List String → List String → Found
  unfolding read_value add_missing
  read_values a [] values = a
  read_values a (id ∷ ids) [] = add_missing a (id ∷ ids)
  read_values a (id ∷ ids) (raw ∷ values) = read_values (read_value a id raw) ids values

  -- The loop over the missing ids, with what the database has or the unknown status.
  abbrev pub stored : Assoc T → String → T
  stored found id = elim (find found id) [ some status ↦ status | none ↦ r.build_unknown id ]

  unfoldable pub fill : Faults → Assoc T → Assoc T → Store → List String → Assoc T × Store
  unfolding cache_status
  fill f found by_id st [] = (by_id, st)
  fill f found by_id st (id ∷ ids) =
      fill f found (put by_id id (stored found id)) (cache_status f st (stored found id)) ids

  -- The statuses in the order of the ids.
  unfoldable pub collect : Assoc T → List String → List T
  collect by_id [] = []
  collect by_id (id ∷ ids) =
      let rest = collect by_id ids in
      elim (find by_id id) [ some status ↦ status ∷ rest | none ↦ rest ]

  -- `GetBatch` from the loop over the missing ids on.
  unfoldable pub complete :
      Database T → Faults → Store → List String → Assoc T → List String → Option (List T) × Store
  unfolding fill collect
  complete db f st ids by_id [] = (some (collect by_id ids), st)
  complete db f st ids by_id (m ∷ ms) = elim (db.load_batch (m ∷ ms)) [
    | none ↦ (none, st)
    | some found ↦
        let (filled, st') = fill f found by_id st (m ∷ ms) in (some (collect filled ids), st')
  ]

  -- GetBatch; `values` is the answer of `MGet`, with "" for a key that is not there.
  unfoldable pub get_batch :
      Database T → Faults → Store → Option (List String) → List String → Option (List T) × Store
  unfolding complete read_values
  get_batch db f st values ids =
      if is_refused ids
      then (none, st)
      else if r.has_cache
      then elim values [
        | none ↦ (none, st)
        | some texts ↦
            let a = read_values (record { status_by_id = []; missing_ids = [] }) ids texts in
            complete db f st ids a.status_by_id a.missing_ids
      ]
      else complete db f st ids [] ids

  -- Save: whether it returns no error, whether the final status was handed to the hook, and the cache.
  -- `to_payload` and `json` are those of the writer.
  unfoldable pub returns_no_error : Reply → Bool
  returns_no_error error = false
  returns_no_error (replied accept reason) = true

  unfoldable pub apply_payload : Json → Faults → Store → Option StatusPayload → Bool × Store
  unfolding returns_no_error
  apply_payload json f st none = (false, st)
  apply_payload json f st (some payload) =
      let (reply, st') = apply_summary json r.short_hash f st payload in
      (returns_no_error reply, st')

  unfoldable pub save :
      Json → (T → Option StatusPayload) → Faults → Store → T → Bool × (Bool × Store)
  unfolding apply_payload
  save json to_payload f st status =
      if str_eq (r.get_submission_id status) ""
      then (false, (false, st))
      else let hooked = r.is_final_status status in
        if not r.has_cache
        then (true, (hooked, st))
        else let (ok, st') = apply_payload json f st (to_payload status) in (ok, (hooked, st'))
