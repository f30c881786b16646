-- ===== src/Tests/Runs.antt =====
-- Whole sessions and the reconnect loop at work, and the retry of a failed purge.
use decent_render.Prelude.{ℕ, inl, refl, true, false, List, [], ◌∷◌, some, codes, arith}
use decent_render.Protocol.{JobAssignMessage, job_assign}
use decent_render.Status.{Observability, default_status, update_status}
use decent_render.Connection.Session.{
  Env, leave, send, set_connection, drain_in_flight_jobs, drain_in_flight, drain_list, join_drained,
  signal_cancel,
}
use decent_render.Connection.Timers.{set_phase}
use decent_render.Connection.Server.{
  Event, text_frame, stream_end, step, text_arm, assign_arm, prepare, start_job,
}
use decent_render.Connection.Connect.{connects, begin, flush_acks, ack_trace}
use decent_render.Connection.Ownership.{Keeps}
use decent_render.Connection.Run.{Script, Carried, run_connected, run_loop, run_session}
use decent_render.Connection.Run.Started.{IsSpawned}
use decent_render.Connection.Run.Jobs.{trace_of, IsReportedFrom, run_connected_lem}
use decent_render.Connection.Run.Acks.{CarriesFew, run_session-CarriesFew}
use decent_render.Connection.Run.Exits.{IsDrained, run_connected-IsDrained}
use decent_render.Tests.Sessions.{config, registration, world, assignment, acks}

abbrev observed : Observability
observed = record { status = some default_status; allow_flag = true; auto_upgrade_flag = false }

abbrev assigned : JobAssignMessage
assigned = record { fields = assignment }

-- A job is assigned, and then the stream ends.
abbrev one_job : List (Env × Event)
one_job = (world, text_frame (job_assign assigned)) ∷ (world, stream_end) ∷ []

job_starts : IsSpawned 8 (
    trace_of (
      run_connected config registration one_job
        (begin config registration 0 true (λ n. true) observed [] acks)))
unfolding run_connected begin run_loop step text_arm assign_arm prepare start_job send
    set_connection set_phase leave drain_in_flight_jobs drain_in_flight drain_list join_drained
    signal_cancel flush_acks ack_trace update_status
job_starts = inl refl

run_connected_lem_example :
    Keeps 8
      (IsReportedFrom config registration 8 one_job
        (begin config registration 0 true (λ n. true) observed [] acks))
      (run_connected config registration one_job
        (begin config registration 0 true (λ n. true) observed [] acks))
run_connected_lem_example =
    run_connected_lem config registration 8 one_job 0 true (λ n. true) observed [] acks job_starts

run_connected-IsDrained_example : IsDrained (
    run_connected config registration one_job
      (begin config registration 0 true (λ n. true) observed [] acks))
run_connected-IsDrained_example =
    run_connected-IsDrained config registration one_job 0 true (λ n. true) observed [] acks

abbrev script : Script ℕ
script = record {
  attempts = λ n. record { answer = connects; stopped_in_pause = false };
  connected_at = 0;
  register_ok = true;
  takes = λ n. false;
  events = one_job;
  elapsed = 5;
  draw = 1;
  stopped_in_backoff = false;
}

abbrev carried : Carried
carried = record { obs = observed; protected_keys = []; pending_cancel_acks = acks }

run_session-CarriesFew_example :
    CarriesFew (run_session config registration (codes "no route") script carried)
run_session-CarriesFew_example =
    run_session-CarriesFew config registration (codes "no route") script carried (omega arith)
