-- ===== src/WorkerPool/Examples.antt =====
-- A pool with a worker that fails to clean up, and the theorem on its calls.
use clearml_yolo.Base.Int.{pos}
use clearml_yolo.Base.{◌≤◌, ◌≡◌, refl, false, some, List, [], ◌∷◌}
use clearml_yolo.WorkerPool.{
  new_pool, WorkerCommand, running, Call, call_enter, call_start, call_poll, call_exit, run,
}
use clearml_yolo.WorkerPool.Reports.{reports, run-reports}

command : WorkerCommand
command = record { argv = "python" ∷ [] }

-- The key is used again, and polled again.
calls : List Call
unfolding command
calls =
    call_enter
    ∷ call_start "a" command running
    ∷ call_poll (λ _. some (pos 1, "TimeoutExpired" ∷ []))
    ∷ call_start "a" command running
    ∷ call_poll (λ _. some (pos 1, []))
    ∷ call_exit []
    ∷ []

one_report :
    (run new_pool calls).1
    ≡ record {
      key = "a";
      exit_code = pos 1;
      cleanup_complete = false;
      diagnostic = "TimeoutExpired";
    }
      ∷ []
unfolding run calls
one_report = refl

run-reports_example : reports "a" (run new_pool calls).1 ≤ 1
run-reports_example = run-reports calls "a"
