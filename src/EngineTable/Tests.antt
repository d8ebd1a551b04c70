-- ===== src/EngineTable/Tests.antt =====
-- Runs of the upserts on `engine_cooldowns`.
use topicstreams.EngineTable.{EngineTable}
use topicstreams.Base.{some, [], ◌∷◌}

abbrev published : EngineTable
published =
    (
      "bing",
      record {
        failures = 1;
        next_probe_at = some 400;
        overdue_count = 3;
        max_lateness = 70;
        updated_at = 100;
      },
    )
    ∷ []
