-- ===== src/Store/Tests/Writes.antt =====
-- The theorems about the store's writes at concrete inputs, on a database in memory.
use aether_code.Base.{
  Text, Option, none, some, true, [], ◌∷◌, codes, text_eq, nat_eq, ok, ◌≡◌, ◌≢◌, refl, text_beq,
  keep,
}
use aether_code.Text.{trim_space, drop_left, drop_right}
use aether_code.Store.Versions.{bump_config_version, bump_config_versions}
use aether_code.Store.Versions.Bump.{
  version_in, version_in-head, Bumped, bump_config_version-Bumped,
}
use aether_code.Store.Mutations.{deletes_channel, mutate, then_bump, delete_provider_channel}
use aether_code.Store.Mutations.Laws.{Raises, mutate-Raises}
use aether_code.Store.Cache.{new_cache, replace}
use aether_code.Store.Sync.{
  System, Reaches, here, then_step, starts, reads_providers, reads_channels, replaces, routing_rows,
  is_loaded,
}
use aether_code.Store.Sync.Laws.{Current, ready-Current}
use aether_code.Store.Memory.{memory}
use aether_code.Store.Memory.Routing.{State, versions, versions-IsTable, store, store-IsStore}

abbrev start : State
start = record {
  providers = [];
  channels = [];
  versions = record { name = codes "providers"; version = 4; updated_at = 0 } ∷ [];
}

abbrev bumped : State
bumped = record start {
  versions = record { name = codes "providers"; version = 5; updated_at = 7 } ∷ [];
}

-- What evaluating a write unfolds.
write_runs : Unit {0}
unfolding bump_config_version bump_config_versions trim_space drop_left drop_right text_beq keep
    mutate delete_provider_channel then_bump
write_runs = tt

run : bump_config_version (memory State) versions (codes " providers") 7 start ≡ ok bumped
unfolding write_runs
run = refl

bump_config_version-Bumped_example :
    (trim_space (codes " providers") ≢ [])
    × Bumped (memory State) versions versions-IsTable (trim_space (codes " providers")) start bumped
bump_config_version-Bumped_example =
    bump_config_version-Bumped (memory State) versions versions-IsTable (codes " providers") 7 start
      bumped run

mutate-Raises_example :
    Raises
      (memory State)
      store
      store-IsStore
      start
      (mutate (memory State) store (deletes_channel 3) 7 start).0
      (mutate (memory State) store (deletes_channel 3) 7 start).1
mutate-Raises_example = mutate-Raises (memory State) store store-IsStore (deletes_channel 3) 7 start

writes : (mutate (memory State) store (deletes_channel 3) 7 start).0 ≡ true
unfolding write_runs
writes = refl

abbrev getenv : Text → Text
getenv name = []

abbrev read_file : Text → Option Text
read_file path = none

abbrev Process : Type 0
Process = System getenv read_file (memory State) store

abbrev empty : Process
empty = record { db = start; cache = new_cache; reloads = [] }

abbrev loaded : Process
loaded = record {
  db = start;
  cache = replace (routing_rows getenv read_file (memory State) store [] []) 4 9;
  reloads = [];
}

version_four : version_in (codes "providers") start.versions ≡ some 4
version_four = version_in-head (codes "providers") 4 0 []

-- One reload, without an interruption.
loads : Reaches getenv read_file (memory State) store empty loaded
loads =
    then_step
      (then_step (then_step (then_step here (starts 4 version_four)) (reads_providers [] [] 4 refl))
        (reads_channels [] [] 4 [] refl))
      (replaces [] [] 4 [] [] 9 refl)

ready-Current_example :
    Current getenv read_file (memory State) store store-IsStore start loaded.cache
ready-Current_example =
    ready-Current getenv read_file (memory State) store store-IsStore empty loaded 3 version_four
      refl refl loads (unfold replace is_loaded in rw version_four refl)
