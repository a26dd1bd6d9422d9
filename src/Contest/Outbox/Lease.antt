-- ===== src/Contest/Outbox/Lease.antt =====
-- The lease on a contest's outbox (AcquireContestLease, RenewContestLease and ReleaseContestLease of
-- rank_outbox_repository.go). MySQL counts as affected the rows that an update changes or, on a
-- connection with clientFoundRows, those that it finds: which of the two is a parameter.
use fuzoj.Prelude.{
  ℕ, ◌+◌, ◌<◌, ◌≤◌, ◌≡◌, refl, subst, String, Bool, true, false, not, ◌&&◌, ◌||◌, Option, none,
  some, if◌then◌else◌, leb, ◌==◌, str_eq, str_eq_refl, arith, Bool-cases, inl, inr,
}
use fuzoj.Prelude.Assoc.{Assoc, find, put, find-put}
use fuzoj.Contest.Outbox.{or_default}

-- A row of the lock table, under its contest.
pub record LockRow : Type 0 where
  pub owner_id : String
  pub lease_until : ℕ
  pub updated_at : ℕ

-- `insert ignore`
unfoldable pub insert_ignore : Assoc LockRow → String → LockRow → Assoc LockRow
insert_ignore t contest new = elim (find t contest) [ none ↦ put t contest new | some r ↦ t ]

-- The condition `owner_id = owner or lease_until <= now`
abbrev pub may_take : String → ℕ → LockRow → Bool
may_take owner now r = str_eq r.owner_id owner || leb r.lease_until now

abbrev pub same_row : LockRow → LockRow → Bool
same_row r s =
    str_eq r.owner_id s.owner_id && r.lease_until == s.lease_until && r.updated_at == s.updated_at

-- The update: whether a row is affected, and the table.
unfoldable pub take_lease :
    Bool → Assoc LockRow → String → LockRow → Option LockRow → Bool × Assoc LockRow
take_lease found_rows t contest new none = (false, t)
take_lease found_rows t contest new (some r) =
    if may_take new.owner_id new.updated_at r
    then (found_rows || not (same_row r new), put t contest new)
    else (false, t)

-- AcquireContestLease; `none` is an error.
unfoldable pub acquire_contest_lease :
    Bool → ℕ → ℕ → String → String → Assoc LockRow → Option (Bool × Assoc LockRow)
unfolding insert_ignore take_lease
acquire_contest_lease found_rows now duration contest owner t =
    let new : LockRow = record {
      owner_id = owner;
      lease_until = now + or_default 5_000_000_000 duration;
      updated_at = now;
    } in
    let t' = insert_ignore t contest new in
    if str_eq contest "" || str_eq owner ""
    then none
    else some (take_lease found_rows t' contest new (find t' contest))

-- `owner_id = owner`, with another lease
unfoldable pub change_lease : ℕ → ℕ → String → String → Assoc LockRow → Assoc LockRow
change_lease now lease contest owner t = elim (find t contest) [
  | none ↦ t
  | some r ↦
      if str_eq r.owner_id owner
      then put t contest (record { owner_id = owner; lease_until = lease; updated_at = now })
      else t
]

-- RenewContestLease and ReleaseContestLease, where they return no error
unfoldable pub renew_contest_lease : ℕ → ℕ → String → String → Assoc LockRow → Assoc LockRow
unfolding change_lease
renew_contest_lease now duration contest owner t =
    change_lease now (now + or_default 5_000_000_000 duration) contest owner t

unfoldable pub release_contest_lease : ℕ → String → String → Assoc LockRow → Assoc LockRow
unfolding change_lease
release_contest_lease now contest owner t = change_lease now now contest owner t

insert_ignore-there :
    (t : Assoc LockRow) (contest : String) (new r : LockRow)
    → find t contest ≡ some r
    → insert_ignore t contest new ≡ t
unfolding insert_ignore
insert_ignore-there t contest new r h = rw (h, insert_ignore) refl

insert_ignore-free :
    (t : Assoc LockRow) (contest : String) (new : LockRow)
    → find t contest ≡ none
    → insert_ignore t contest new ≡ put t contest new
unfolding insert_ignore
insert_ignore-free t contest new h = rw (h, insert_ignore) refl

-- A contest's lease that is with an owner until a time.
abbrev pub HeldBy : String → String → ℕ → Assoc LockRow → Type 0
HeldBy contest owner until t =
    (r : LockRow) × (find t contest ≡ some r) × (r.owner_id ≡ owner) × (until ≤ r.lease_until)

take_lease-HeldBy :
    (found_rows : Bool) (t t' : Assoc LockRow) (contest : String) (new : LockRow)
    (o : Option LockRow)
    → take_lease found_rows t contest new o ≡ (true, t')
    → HeldBy contest new.owner_id new.lease_until t'
unfolding take_lease
take_lease-HeldBy found_rows t t' contest new none h = absurd (ground arith)
take_lease-HeldBy found_rows t t' contest new (some r) h =
    elim (Bool-cases (may_take new.owner_id new.updated_at r)) [
      | inl e ↦
          let same : put t contest new ≡ t' = ground arith in
          let there : find (put t contest new) contest ≡ some new =
            ground (arith, find-put t contest contest new, str_eq_refl contest) in
          subst (HeldBy contest new.owner_id new.lease_until) same (new, there, refl, omega arith)
      | inr e ↦ absurd (ground arith)
    ]

pub acquire_contest_lease-HeldBy :
    (found_rows : Bool) (now duration : ℕ) (contest owner : String) (t t' : Assoc LockRow)
    → acquire_contest_lease found_rows now duration contest owner t ≡ some (true, t')
    → HeldBy contest owner (now + or_default 5_000_000_000 duration) t'
unfolding acquire_contest_lease
acquire_contest_lease-HeldBy found_rows now duration contest owner t t' h =
    let new : LockRow = record {
      owner_id = owner;
      lease_until = now + or_default 5_000_000_000 duration;
      updated_at = now;
    } in
    let t0 = insert_ignore t contest new in
    let taken : take_lease found_rows t0 contest new (find t0 contest) ≡ (true, t') =
      ground arith in
    take_lease-HeldBy found_rows t0 t' contest new (find t0 contest) taken

-- While an owner holds the lease of a contest, another one that asks for it does not get it, and the
-- table stays as it is.
pub acquire_contest_lease-held :
    (found_rows : Bool) (now duration until : ℕ) (contest owner other : String) (t : Assoc LockRow)
    → str_eq contest "" ≡ false
    → str_eq other "" ≡ false
    → str_eq owner other ≡ false
    → now < until
    → HeldBy contest owner until t
    → acquire_contest_lease found_rows now duration contest other t ≡ some (false, t)
unfolding acquire_contest_lease insert_ignore take_lease
acquire_contest_lease-held found_rows now duration until contest owner other t c o n h
      (r, f, s, u) =
    let other_owner : str_eq r.owner_id other ≡ false = rw s n in
    let held : may_take other now r ≡ false = ground arith in
    let new : LockRow = record {
      owner_id = other;
      lease_until = now + or_default 5_000_000_000 duration;
      updated_at = now;
    } in
    let refused : take_lease found_rows t contest new (some r) ≡ (false, t) =
      rw (held, take_lease) refl in
    simp (c, o, insert_ignore-there t contest new r f, f, refused) refl

-- An owner that gets the lease of a contest keeps every other one from it until the lease ends: what
-- another one asks for in that time is refused, and the lease is still the owner's.
pub acquire_contest_lease-excludes :
    (found_rows : Bool) (now duration later longer : ℕ) (contest owner other : String)
    (t t' : Assoc LockRow)
    → str_eq contest "" ≡ false
    → str_eq other "" ≡ false
    → str_eq owner other ≡ false
    → acquire_contest_lease found_rows now duration contest owner t ≡ some (true, t')
    → later < now + or_default 5_000_000_000 duration
    → (acquire_contest_lease found_rows later longer contest other t' ≡ some (false, t'))
      × HeldBy contest owner (now + or_default 5_000_000_000 duration) t'
acquire_contest_lease-excludes found_rows now duration later longer contest owner other t t' c o n h
      l =
    let held = acquire_contest_lease-HeldBy found_rows now duration contest owner t t' h in
    (
      acquire_contest_lease-held found_rows later longer (now + or_default 5_000_000_000 duration)
          contest owner other t' c o n l held,
      held,
    )

-- For a contest whose lease nobody has asked for, the table afterwards has the lease with the owner,
-- but it is reported as acquired only if the connection counts the rows that an update finds.
pub acquire_contest_lease-free :
    (found_rows : Bool) (now duration : ℕ) (contest owner : String) (t : Assoc LockRow)
    → str_eq contest "" ≡ false
    → str_eq owner "" ≡ false
    → find t contest ≡ none
    → (t' : Assoc LockRow) × (acquire_contest_lease found_rows now duration contest owner t
        ≡ some (found_rows, t'))
      × HeldBy contest owner (now + or_default 5_000_000_000 duration) t'
unfolding acquire_contest_lease insert_ignore take_lease
acquire_contest_lease-free found_rows now duration contest owner t c o f =
    let new : LockRow = record {
      owner_id = owner;
      lease_until = now + or_default 5_000_000_000 duration;
      updated_at = now;
    } in
    let t1 = put t contest new in
    let there : find t1 contest ≡ some new =
      ground (arith, find-put t contest contest new, str_eq_refl contest) in
    let again : find (put t1 contest new) contest ≡ some new =
      ground (arith, find-put t1 contest contest new, str_eq_refl contest) in
    let may : may_take owner now new ≡ true = ground (arith, str_eq_refl owner) in
    let same : same_row new new ≡ true = ground (arith, str_eq_refl owner) in
    let reported : (found_rows || not (same_row new new)) ≡ found_rows = ground (arith, same) in
    let taken : take_lease found_rows t1 contest new (some new) ≡ (found_rows, put t1 contest new) =
      rw (may, reported, take_lease) refl in
    (
      put t1 contest new,
      simp (c, o, insert_ignore-free t contest new f, there, taken) refl,
      (new, again, refl, omega arith),
    )
