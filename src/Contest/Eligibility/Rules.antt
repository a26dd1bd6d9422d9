-- ===== src/Contest/Eligibility/Rules.antt =====
-- When a submission is eligible.
use fuzoj.Prelude.{ℕ, ◌≡◌, String, true, false}
use fuzoj.Contest.Eligibility.{
  ContestMeta, is_before, is_after, is_participant_eligible, can_submit_by_contest_status,
}

-- What must hold of a request whose contest, problem and participant are found.
abbrev pub Admits : ContestMeta → String → ℕ → Type 0
Admits meta status now =
    (is_before now meta.start_at ≡ false)
    × (is_after now meta.end_at ≡ false)
    × (can_submit_by_contest_status meta.status ≡ true)
    × (is_participant_eligible status ≡ true)
