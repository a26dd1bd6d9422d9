-- ===== src/Submit/Cache.antt =====
-- The status cache (pkg/submit/statuscache/cache.go). Primary and legacy keys have prefixes of
-- which neither begins the other, so the store keeps them apart; the hash of a legacy key is a
-- parameter. Each call of Redis succeeds or fails as the caller says, and what was written before a
-- failure stays. An entry's expiry is not modelled.
use fuzoj.Prelude.{◌≡◌, String, Bool, true, false, not, if◌then◌else◌, str_eq, arith, str_eq_refl}
use fuzoj.Prelude.Assoc.{Assoc, find_or, put, find_or-put}

-- The entries of Redis under `judge:status:id` and `js:hash`; a missing entry reads as "".
pub record Store : Type 0 where
  pub primary : Assoc String
  pub legacy : Assoc String

-- Which of the calls of Redis fail.
pub record Faults : Type 0 where
  pub get_primary : Bool
  pub get_legacy : Bool
  pub set_primary : Bool
  pub set_legacy : Bool
  pub publish : Bool

pub data Loaded : Type 0 where
  load_failed : Loaded
  miss : Loaded
  hit : String → Loaded

module _ (short_hash : String → String) where
  -- Get, of a client that is there
  unfoldable pub get : Faults → Store → String → Loaded
  get f st id =
      if str_eq id ""
      then miss
      else if f.get_primary
      then load_failed
      else if not (str_eq (find_or st.primary id "") "")
      then hit (find_or st.primary id "")
      else if f.get_legacy
      then load_failed
      else if str_eq (find_or st.legacy (short_hash id) "") ""
      then miss
      else hit (find_or st.legacy (short_hash id) "")

  -- Set, of a client that is there: whether it succeeded, and the store after it
  unfoldable pub set : Faults → Store → String → String → Bool × Store
  set f st id value =
      if str_eq id ""
      then (true, st)
      else if f.set_primary
      then (false, st)
      else let st' = record st { primary = put st.primary id value } in
        if f.set_legacy
        then (false, st')
        else (true, record st' { legacy = put st.legacy (short_hash id) value })

  -- Once a status is written, no fault of the legacy key hides it: it is what the next reader of
  -- its id gets, and readers of another id that has an entry of its own get what they did before.
  pub get-set :
      (f g : Faults) (st : Store) (id value : String)
      → str_eq id "" ≡ false
      → str_eq value "" ≡ false
      → f.set_primary ≡ false
      → g.get_primary ≡ false
      → (get g (set f st id value).1 id ≡ hit value)
        × ((other : String)
            → str_eq id other ≡ false
            → str_eq (find_or st.primary other "") "" ≡ false
            → get g (set f st id value).1 other ≡ get g st other)
  unfolding get set
  get-set f g st id value i v s p = (
    ground (arith, find_or-put st.primary id id value "", str_eq_refl id),
    λ other ne there. ground (arith, find_or-put st.primary id other value ""),
  )
