-- ===== src/Examples/Batcher.antt =====
-- A batcher of two updates a batch whose first batch the repository refuses.
use fuzoj.Prelude.{ℕ, ◌≡◌, ◌⊎◌, refl, [], ◌∷◌, ◌++◌, String, true, false, some}
use fuzoj.Prelude.Int.{pos}
use fuzoj.Rank.Batcher.{
  QueuedRankUpdate, UpdateBatcher, draining, stopped, new_update_batcher, add, take_in, finish,
  adds, takes, Reach, here, next,
}
use fuzoj.Rank.Batcher.Fifo.{added, Reach-line_of}
use fuzoj.Rank.Batcher.Stop.{finish-drops}

abbrev update_of : String → ℕ → QueuedRankUpdate
update_of member at = record {
  event = record {
    contest_id = "c1";
    member_id = member;
    problem_id = "1";
    sort_score = pos 0;
    score_total = pos 0;
    penalty = pos 0;
    ac_count = pos 0;
    detail_json = "{}";
    version = "1";
    result_id = at;
    updated_at = 0;
  };
  enqueued_at = at;
}

-- The first update is refused, the second one waits in the buffer, and the batcher is to stop.
abbrev refused : UpdateBatcher
refused = record (new_update_batcher 1) {
  pending = update_of "ann" 1 ∷ [];
  retry_delay = 200_000_000;
  next_retry = some 200_000_010;
}

abbrev to_stop : UpdateBatcher
to_stop = record refused { buffer = update_of "bob" 2 ∷ []; stop = true; phase = draining }

refused_reached : Reach (new_update_batcher 1) refused
unfolding add new_update_batcher take_in
refused_reached = next (next here (adds (update_of "ann" 1) refl)) (takes 5 10 true refl refl)

Reach-line_of_example :
    refused.applied ++ (refused.pending ++ (refused.buffer ++ refused.queue))
    ≡ added refused_reached
Reach-line_of_example = Reach-line_of 1 refused_reached

finish-drops_example :
    let ended = record to_stop { phase = stopped } in
    (ended.buffer ≡ to_stop.buffer)
    × ((ended.applied ≡ to_stop.applied) ⊎ (ended.applied ≡ to_stop.applied ++ to_stop.pending))
unfolding finish new_update_batcher
finish-drops_example =
    finish-drops 20 20 false to_stop (record to_stop { phase = stopped })
      (record to_stop { phase = stopped }) (update_of "ann" 1) [] refl refl here
