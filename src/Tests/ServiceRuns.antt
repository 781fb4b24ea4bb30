-- ===== src/Tests/ServiceRuns.antt =====
-- The task of an instance, the prices, and a connection to a worker, at concrete inputs.
use wapo.Prelude.{
  ℕ, ◌≡◌, ◌+◌, ◌*◌, ◌++◌, ◌/◌, refl, arith, List, [], ◌∷◌, none, some, true, false, min, u128_max,
}
use wapo.Prelude.Result.{ok, err}
use wapo.Host.Service.{
  Config, Run, Event, break, stopped, stop, exited, returned, run_ended, control, push_query,
  need_restart, on_event, select, limited, serve, new_run, exit_reason,
}
use wapo.Host.Service.Runs.{Spaced, left, serve-Spaced}
use wapo.Host.Service.Ends.{Ends, commands, serve-stops, serve-commands}
use wapo.Prices.{AppMetrics, Prices, add_mul, cost_of}
use wapo.Prices.Cost.{due, cost_of-total}
use wapo.Worker.{WorkerState, AppState, get_app}
use wapo.Worker.Queries.{QueryGuard, prepare_instance_for_query, choose_instance}
use wapo.Worker.Rpc.{no_command_sender, connect_vm}
use wapo.Worker.Rpc.Connect.{connect_vm-misses}
use wapo.Tests.WorkerRuns.{launch, run_of, busy_app, worker}

abbrev second : ℕ
second = 1_000_000_000

abbrev restarting : Config
restarting = record { auto_restart = true; time_limit = none; rerun = λ n. true }

abbrev ends_twice : List (ℕ × Event)
ends_twice = (11 * second, run_ended returned) ∷ (12 * second, run_ended returned) ∷ []

-- The first end is eleven seconds after the start, the second one only one second after the first.
restarted_once :
    serve restarting ends_twice (new_run 0 1)
    ≡ break
        (12 * second)
        (exited 0)
        (record (new_run 0 1) { since = 11 * second; start_time = 11 * second; restarts = 1 })
unfolding serve new_run select limited on_event need_restart exit_reason
restarted_once = refl

serve-Spaced_example : Spaced (new_run 0 1) (left (serve restarting ends_twice (new_run 0 1)))
serve-Spaced_example = serve-Spaced restarting ends_twice (new_run 0 1)

serve-stops_example :
    Ends (serve restarting (ends_twice ++ (40 * second, control (some stop)) ∷ []) (new_run 0 1))
serve-stops_example = serve-stops restarting ends_twice [] (40 * second) (new_run 0 1)

abbrev on_demand : Config
on_demand = record { auto_restart = false; time_limit = some (60 * second); rerun = λ n. true }

abbrev every_minute : List ℕ
every_minute = 50 * second ∷ 100 * second ∷ 150 * second ∷ []

-- An instance with a limit of one minute runs for three and a half.
serve-commands_example :
    (s : Run) × (serve on_demand (commands push_query every_minute) (new_run 0 1)
      ≡ break (210 * second) stopped s)
unfolding new_run
serve-commands_example =
    serve-commands on_demand (60 * second) push_query every_minute (new_run 0 1) refl
      (omega arith, (omega arith, (omega arith, tt)))

abbrev used : AppMetrics
used = record {
  address = 7;
  session = 1;
  running_time_ms = 5_500;
  gas_consumed = 1_000;
  network_ingress = 10;
  network_egress = 20;
  storage_read = 0;
  storage_write = 0;
  storage_used = 0;
  memory_used = 0;
  tip = 3;
  starts = 1;
}

abbrev asked : Prices
asked = record {
  general_fee_per_second = some 2;
  gas_price = some 3;
  net_ingress_price = none;
  net_egress_price = some 1;
  storage_read_price = none;
  storage_write_price = none;
  storage_price = none;
  memory_price = none;
  tip_price = some u128_max;
}

cost_of-used : cost_of (record asked { tip_price = none }) used ≡ 3_030
unfolding cost_of add_mul
cost_of-used = refl

cost_of-total_example :
    cost_of asked used
    ≡ min u128_max (
        due (some 2) (5_500 / 1000)
        + due (some 3) 1_000
        + due none 10
        + due (some 1) 20
        + due none 0
        + due none 0
        + due none 0
        + due none 0
        + due (some u128_max) 3)
cost_of-total_example = cost_of-total asked used

-- The app at 8 has its second and third run in place of its first.
abbrev later_app : AppState
later_app = record busy_app { instances = run_of 1 ∷ run_of 2 ∷ [] }

abbrev later_worker : WorkerState
later_worker = record worker { apps = (8, later_app) ∷ [] }

connect_vm-misses_example :
    ((connect_vm launch 0 (some 8) true later_worker).0 ≡ err no_command_sender)
    × ((g : QueryGuard) × ((prepare_instance_for_query launch 0 8 0 later_worker).0 ≡ ok g)
        × (choose_instance g (prepare_instance_for_query launch 0 8 0 later_worker).1
            ≡ ok (run_of 1).1.vm_handle))
unfolding get_app
connect_vm-misses_example =
    connect_vm-misses launch 0 8 later_app later_worker 1 (run_of 1).1 (run_of 2 ∷ []) true refl
      refl refl (refl, (refl, tt))
