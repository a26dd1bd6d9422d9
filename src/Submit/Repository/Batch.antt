-- ===== src/Submit/Repository/Batch.antt =====
-- What `GetBatch` returns.
use fuzoj.Prelude.{
  ◌≡◌, ◌⊎◌, refl, ap, subst, ◌∙◌, List, [], ◌∷◌, ◌++◌, map, String, true, false, Option, none, some,
  if◌then◌else◌, str_eq, str_eq_iff, str_eq_refl, contains, All, All-append, Bool-cases, inl, inr,
  arith,
}
use fuzoj.Prelude.ListLaws.{All-imp}
use fuzoj.Prelude.Assoc.{Assoc, find, put, find-put}
use fuzoj.Submit.Cache.{Store, Faults}
use fuzoj.Submit.Repository.{
  StatusRepository, Database, Found, cached_status, add_value, read_value, read_values, stored,
  fill, collect, complete, get_batch, is_refused, cache_status,
}

All-contains-of :
    (P : String → Type 0) (xs : List String) (k : String) → All P xs → contains xs k ≡ true → P k
All-contains-of P [] k h e = absurd (ground arith)
All-contains-of P (x ∷ xs) k h e = elim (Bool-cases (str_eq x k)) [
  | inl q ↦ subst P ((str_eq_iff x k).0 q) h.0
  | inr q ↦ All-contains-of P xs k h.1 (ground arith)
]

contains-append :
    (xs : List String) (x k : String)
    → contains (xs ++ x ∷ []) k ≡ (if contains xs k then true else str_eq x k)
contains-append [] x k = ground arith
contains-append (y ∷ xs) x k = ground (arith, contains-append xs x k)

module _ {T : Type 0} (r : StatusRepository T) (text : String → String) where
  -- A status that is found is the cache's, and an id is missing where the cache has none.
  abbrev Fits : Found r → Type 0
  Fits a =
      ((k : String) (s : T) → find a.status_by_id k ≡ some s → cached_status r k (text k) ≡ some s)
      × All (λ m. cached_status r m (text m) ≡ none) a.missing_ids

  abbrev Covered : Found r → String → Type 0
  Covered a k = (contains a.missing_ids k ≡ true) ⊎ ((s : T) × (find a.status_by_id k ≡ some s))

  missing-Fits :
      (a : Found r) (id : String)
      → cached_status r id (text id) ≡ none
      → Fits a
      → let b = record a { missing_ids = a.missing_ids ++ id ∷ [] } in
        Fits b × Covered b id × ((k : String) → Covered a k → Covered b k)
  missing-Fits a id e (found, missing) = (
    (
      found,
      All-append (λ m. cached_status r m (text m) ≡ none) a.missing_ids (id ∷ []) missing (e, tt),
    ),
    inl (ground (arith, contains-append a.missing_ids id id, str_eq_refl id)),
    λ k c. elim c [
      | inl x ↦ inl (ground (arith, contains-append a.missing_ids id k, x))
      | inr y ↦ inr y
    ],
  )

  found-Fits :
      (a : Found r) (id : String) (status : T)
      → cached_status r id (text id) ≡ some status
      → Fits a
      → let b = record a { status_by_id = put a.status_by_id id status } in
        Fits b × Covered b id × ((k : String) → Covered a k → Covered b k)
  found-Fits a id status e (found, missing) = (
    (
      λ k s q. elim (Bool-cases (str_eq id k)) [
        | inl x ↦
            let same : id ≡ k = (str_eq_iff id k).0 x in
            let value : status ≡ s = ground (arith, find-put a.status_by_id id k status, x, q) in
            subst (λ k. cached_status r k (text k) ≡ some s) same (e ∙ ap some value)
        | inr x ↦ found k s (ground (arith, find-put a.status_by_id id k status, x, q))
      ],
      missing,
    ),
    inr (status, ground (arith, find-put a.status_by_id id id status, str_eq_refl id)),
    λ k c. elim c [
      | inl x ↦ inl x
      | inr (s, q) ↦ elim (Bool-cases (str_eq id k)) [
        | inl x ↦ inr (status, ground (arith, find-put a.status_by_id id k status, x))
        | inr x ↦ inr (s, ground (arith, find-put a.status_by_id id k status, x, q))
      ]
    ],
  )

  cached_status-empty : (id raw : String) → str_eq raw "" ≡ true → cached_status r id raw ≡ none
  unfolding cached_status
  cached_status-empty id raw e = ground arith

  add_value-Fits :
      (a : Found r) (id : String) (o : Option T)
      → cached_status r id (text id) ≡ o
      → Fits a
      → let b = add_value r a id o in
        Fits b × Covered b id × ((k : String) → Covered a k → Covered b k)
  unfolding add_value
  add_value-Fits a id (some s) q h = found-Fits a id s q h
  add_value-Fits a id none q h = elim (Bool-cases (contains a.missing_ids id)) [
    | inl c ↦ rw (c, add_value) (h, inl c, λ k x. x)
    | inr c ↦ rw (c, add_value) (missing-Fits a id q h)
  ]

  read_value-Fits :
      (a : Found r) (id : String)
      → Fits a
      → let b = read_value r a id (text id) in
        Fits b × Covered b id × ((k : String) → Covered a k → Covered b k)
  unfolding read_value
  read_value-Fits a id h = elim (Bool-cases (str_eq (text id) "")) [
    | inl e ↦ rw (e, read_value) (missing-Fits a id (cached_status-empty id (text id) e) h)
    | inr e ↦ rw (e, read_value) (add_value-Fits a id (cached_status r id (text id)) refl h)
  ]

  read_values-Fits :
      (a : Found r) (ids : List String)
      → Fits a
      → let b = read_values r a ids (map text ids) in
        Fits b × All (Covered b) ids × ((k : String) → Covered a k → Covered b k)
  unfolding read_values
  read_values-Fits a [] h = (h, tt, λ k c. c)
  read_values-Fits a (id ∷ ids) h =
      let (one, here, kept) = read_value-Fits a id h in
      let (all, rest, later) = read_values-Fits (read_value r a id (text id)) ids one in
      (all, (later id here, rest), λ k c. later k (kept k c))

  find-fill :
      (f : Faults) (found by_id : Assoc T) (st : Store) (ids : List String) (k : String)
      → find (fill r f found by_id st ids).0 k
        ≡ (if contains ids k then some (stored r found k) else find by_id k)
  unfolding fill
  find-fill f found by_id st [] k = refl
  find-fill f found by_id st (id ∷ ids) k =
      let rest =
        find-fill f found (put by_id id (stored r found id))
          (cache_status r f st (stored r found id)) ids k in
      let own = find-put by_id id k (stored r found id) in
      elim (Bool-cases (str_eq id k)) [
        | inr e ↦ ground (arith, rest, own, e)
        | inl e ↦
            let same : stored r found id ≡ stored r found k =
              ap (stored r found) ((str_eq_iff id k).0 e) in
            ground (arith, rest, own, e, same)
      ]

  -- What the answer has for an id: what the cache says, or what the database has.
  abbrev pub answer_for : Assoc T → String → T
  answer_for found id = elim (cached_status r id (text id)) [
    | some s ↦ s
    | none ↦ stored r found id
  ]

  collect-map :
      (by_id found : Assoc T) (ids : List String)
      → All (λ id. find by_id id ≡ some (answer_for found id)) ids
      → collect r by_id ids ≡ map (answer_for found) ids
  unfolding collect
  collect-map by_id found [] h = refl
  collect-map by_id found (id ∷ ids) h =
      rw (h.0, collect) (ap (◌∷◌ (answer_for found id)) (collect-map by_id found ids h.1))

  -- After the missing ids are filled in, every id of the batch has its answer.
  answered :
      (f : Faults) (found : Assoc T) (st : Store) (a : Found r) (k : String)
      → Fits a
      → Covered a k
      → find (fill r f found a.status_by_id st a.missing_ids).0 k ≡ some (answer_for found k)
  answered f found st a k (fits, missing) c =
      let filled = find-fill f found a.status_by_id st a.missing_ids k in
      elim (Bool-cases (contains a.missing_ids k)) [
        | inl e ↦
            let none_cached =
              All-contains-of (λ m. cached_status r m (text m) ≡ none) a.missing_ids k missing e in
            ground (arith, filled, e, none_cached)
        | inr e ↦ elim c [
          | inl x ↦ absurd (ground arith)
          | inr (s, q) ↦ let cached = fits k s q in ground (arith, filled, e, q, cached)
        ]
      ]

  collect_after_fill :
      (f : Faults) (found : Assoc T) (st : Store) (ids : List String) (a : Found r)
      → Fits a
      → All (Covered a) ids
      → collect r (fill r f found a.status_by_id st a.missing_ids).0 ids
        ≡ map (answer_for found) ids
  collect_after_fill f found st ids a fits covered =
      let by_id = (fill r f found a.status_by_id st a.missing_ids).0 in
      collect-map by_id found ids (
        All-imp (Covered a) (λ id. find by_id id ≡ some (answer_for found id)) ids
          (λ id c. answered f found st a id fits c) covered)

  complete-map :
      (db : Database T) (f : Faults) (st : Store) (ids : List String) (by_id : Assoc T)
      (missing : List String) (found : Assoc T)
      → Fits (record { status_by_id = by_id; missing_ids = missing })
      → All (Covered (record { status_by_id = by_id; missing_ids = missing })) ids
      → db.load_batch missing ≡ some found
      → (complete r db f st ids by_id missing).0 ≡ some (map (answer_for found) ids)
  unfolding complete fill
  complete-map db f st ids by_id [] found fits covered loaded = ap some (
      collect_after_fill f found st ids (record { status_by_id = by_id; missing_ids = [] }) fits
        covered)
  complete-map db f st ids by_id (m ∷ ms) found fits covered loaded =
      rw (loaded, complete)
        (ap some (
          collect_after_fill f found st ids (record { status_by_id = by_id; missing_ids = m ∷ ms })
            fits covered))

-- The ids that the database is asked for: the cache has no status for them, and for every other id
-- of the batch it has one.
abbrev pub AsksFor :
    {T : Type 0} → StatusRepository T → (String → String) → List String → List String → Type 0
AsksFor {T} r text ids missing =
    All (λ m. cached_status r m (text m) ≡ none) missing
    × All (λ id. (contains missing id ≡ true) ⊎ ((s : T) × (cached_status r id (text id) ≡ some s)))
        ids

-- A batch for which the cache and the database answer is answered id by id, in order and with
-- repetitions: by what the cache's text says of the id, which is the unknown status for a marker of
-- an empty entry, or where there is no text that can be read, by the database's status or the unknown
-- one; and the database is asked for the latter ids only.
pub get_batch-map :
    {T : Type 0} (r : StatusRepository T) (text : String → String) (db : Database T) (f : Faults)
    (st : Store) (ids : List String) (table : List String → Assoc T)
    → r.has_cache ≡ true
    → is_refused ids ≡ false
    → ((missing : List String) → db.load_batch missing ≡ some (table missing))
    → (missing : List String) × AsksFor r text ids missing
      × ((get_batch r db f st (some (map text ids)) ids).0
          ≡ some (map (answer_for r text (table missing)) ids))
unfolding get_batch find
get_batch-map {T} r text db f st ids table c n loaded =
    let a = read_values r (record { status_by_id = []; missing_ids = [] }) ids (map text ids) in
    let (fits, covered, kept) =
      read_values-Fits r text (record { status_by_id = []; missing_ids = [] }) ids
        ((λ k s q. absurd (ground arith)), tt) in
    let has = λ (id : String).
      (contains a.missing_ids id ≡ true) ⊎ ((s : T) × (cached_status r id (text id) ≡ some s)) in
    (
      a.missing_ids,
      (
        fits.1,
        All-imp (Covered r text a) has ids
            (λ id x. elim x [ inl y ↦ inl y | inr (s, q) ↦ inr (s, fits.0 id s q) ]) covered,
      ),
      simp (n, c)
          (complete-map r text db f st ids a.status_by_id a.missing_ids (table a.missing_ids) fits
            covered (loaded a.missing_ids)),
    )
