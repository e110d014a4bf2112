-- ===== src/Netwatch/Tests.antt =====
-- Small runs of block requests, and the theorem at an input that meets its hypotheses.
use excubitor.Prelude.{
  ℕ, ◌≡◌, refl, String, List, [], ◌∷◌, Option, none, some, true, false, arith, map,
}
use excubitor.Netwatch.BlockRegistry.{
  BlockKind, BlockEntry, add, add_entry, list, find_same, same, restore,
}
use excubitor.Netwatch.BlockService.{
  BlockSettings, State, add_block, AddBlockInput, handle, handle_ready, ready, add_checked,
  add_target, commit_added, commit,
}
use excubitor.Prelude.Sorting.{sort_by}
use excubitor.Netwatch.BlockService.Consistency.{Step, run, IsConsistent, run-IsConsistent}

abbrev settings : BlockSettings
settings = record { default_ttl_ms = 1000; max_ttl_ms = 60000; max_entries = 2 }

abbrev block : String → Option ℕ → AddBlockInput
block value minutes = record {
  target = some (record { kind = BlockKind.address; value = value });
  ttl_minutes = minutes;
  reason = "scan";
  actor = "ops";
}

abbrev empty : State
empty = record { registry = record { entries = []; failed = none }; file = [] }

abbrev keep : String → String
keep s = s

-- The second write fails, the third request repeats the first, and the fourth comes after all
-- expired.
abbrev steps : List Step
steps =
    record {
      settings = some settings;
      now = 1;
      writes = true;
      request = add_block "a" (block "203.0.113.7" none);
    }
    ∷ record {
      settings = some settings;
      now = 2;
      writes = false;
      request = add_block "b" (block "203.0.113.8" (some 1));
    }
    ∷ record {
      settings = some settings;
      now = 3;
      writes = true;
      request = add_block "c" (block "203.0.113.7" none);
    }
    ∷ []

ids_run : map (λ (e : BlockEntry). e.id) (run keep steps empty).file ≡ "a" ∷ []
unfolding run handle handle_ready ready add_checked add_target commit_added commit add add_entry
    list sort_by find_same same restore
ids_run = refl

run-IsConsistent_example : IsConsistent keep 2 (run keep steps empty)
run-IsConsistent_example =
    run-IsConsistent keep 2 steps empty (omega arith, (omega arith, (omega arith, tt)))
      (refl, (tt, omega arith))
