-- ===== src/Coordinator/Tests.antt =====
-- A supervised run.
use rowtrail.Base.{List, Option, [], false, find, map_option, modify, refl, some, true, ℕ, ◌∷◌, ◌≡◌}
use rowtrail.Jobs.{Job, Tables, budget_exhausted, terminal}
use rowtrail.Jobs.Queue.{cancel, is_waiting, set_schema, set_worker, stop_requested_of}
use rowtrail.Jobs.Publish.{publish}
use rowtrail.Jobs.Finish.{finish}
use rowtrail.Jobs.Tests.{
  all_well, no_kinds, query_spec, running_tables, running_tables_sound, second_part, staged_disk,
}
use rowtrail.Coordinator.{Signal, part_message, schema_message, supervise, tick}
use rowtrail.Coordinator.Held.{Held}
use rowtrail.Coordinator.Ends.{HasEnded, supervise-HasEnded}

-- The worker publishes a part, the run times out, and the worker is killed after its grace period.
abbrev timed_out : List (ℕ × Signal)
timed_out =
    (10, schema_message 4)
    ∷ (11, part_message second_part true)
    ∷ (12, tick true false)
    ∷ (13, tick true true)
    ∷ []

abbrev plain_decode : List ℕ → Option (List ℕ)
plain_decode raw = some raw

abbrev no_digest : List ℕ → ℕ
no_digest bytes = 0

abbrev after_run : Tables
after_run =
    supervise plain_decode no_digest query_spec [] all_well 77 10 14 timed_out running_tables
      staged_disk

running_Held : Held query_spec no_kinds running_tables
running_Held = (
  (unfold find in ((unfold terminal in refl), (unfold is_waiting in refl), tt)),
  (running_tables_sound, unfold find in tt),
)

-- The stored request decides the state, and the part that was published stays.
budget_wins : map_option (λ (job : Job). job.state) (find 1 after_run.jobs) ≡ some budget_exhausted
unfolding supervise find publish set_schema modify set_worker stop_requested_of cancel terminal
    finish
budget_wins = refl

supervise-HasEnded_example : HasEnded 1 after_run
supervise-HasEnded_example =
    supervise-HasEnded plain_decode no_digest query_spec [] no_kinds refl all_well 77 10 14
      timed_out running_tables staged_disk running_Held
