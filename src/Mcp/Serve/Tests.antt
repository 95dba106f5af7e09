-- ===== src/Mcp/Serve/Tests.antt =====
-- A request that is cancelled while its handler runs, and the theorems at it.
use pty_mcp.Base.{◌≡◌, refl, true, false, some}
use pty_mcp.Mcp.Inflight.{mem, refs, new_registry, add, cancel, finish, erase}
use pty_mcp.Base.Dict.{insert, lookup, remove}
use pty_mcp.Mcp.Serve.{
  CancelParams, message, Request, Phase, spawned, queued, running, Job, Serving, initial, spawn,
  on_request, on_line, set_phase, check, start, complete, reads, checks, starts, completes, Reach,
  here, next, handle_cancellation, leave,
}
use pty_mcp.Mcp.Serve.Bounds.{IsBounded, Reach-IsBounded}
use pty_mcp.Mcp.Serve.Settled.{IsSettled}
use pty_mcp.Mcp.Serve.Responses.{Reach-IsSettled, cancelled-unsent}

abbrev call : Request
call = record {
  id = "1";
  method = "tools/call";
  cancel_params = some (record { request_id = ""; id = "" });
}

abbrev target : CancelParams
target = record { request_id = "1"; id = "" }

abbrev cancelling : Request
cancelling = record { id = ""; method = "notifications/cancelled"; cancel_params = some target }

abbrev job_in : Phase → Job
job_in p = record { key = "1"; phase = p }

abbrev called : Serving
called = on_line initial (message call)

abbrev checked : Serving
checked = check called 0 (job_in spawned)

abbrev started : Serving
started = start checked 0 (job_in queued)

abbrev cancelled : Serving
cancelled = on_line started (message cancelling)

abbrev finished : Serving
finished = complete cancelled 0 (job_in running)

-- answered, where no cancellation comes
abbrev replied : Serving
replied = complete started 0 (job_in running)

to_started : Reach initial started
unfolding on_line on_request initial spawn check set_phase start new_registry add cancel refs mem
    insert lookup handle_cancellation
to_started =
    next
      (next (next here (reads initial (message call))) (checks called 0 (job_in spawned) refl refl))
      (starts checked 0 (job_in queued) refl refl refl)

to_finished : Reach cancelled finished
unfolding on_line on_request initial spawn check set_phase start new_registry add cancel refs mem
    insert lookup handle_cancellation
to_finished = next here (completes cancelled 0 (job_in running) refl refl)

to_replied : Reach initial replied
unfolding on_line on_request initial spawn check set_phase start new_registry add cancel refs mem
    insert lookup handle_cancellation
to_replied = next to_started (completes started 0 (job_in running) refl refl)

reply_sent : mem 0 replied.sent ≡ true
unfolding on_line on_request initial spawn check set_phase start new_registry add cancel refs mem
    insert lookup handle_cancellation complete finish leave erase remove
reply_sent = refl

Reach-IsBounded_example : IsBounded started
Reach-IsBounded_example = Reach-IsBounded to_started

Reach-IsSettled_example : IsSettled replied
Reach-IsSettled_example = Reach-IsSettled to_replied

cancelled-unsent_example : mem 0 finished.sent ≡ false
unfolding on_line on_request initial spawn check set_phase start new_registry add cancel refs mem
    insert lookup handle_cancellation
cancelled-unsent_example =
    cancelled-unsent 0 (job_in running) target "notifications/cancelled" to_started refl refl refl
      refl refl refl to_finished
