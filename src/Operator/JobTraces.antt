-- ===== src/Operator/JobTraces.antt =====
-- operator/reconciler.py, the tracing part of _process_pool: the spans of a job's life, queue_wait
-- while it is pending and job_running while it runs. The tracing library is outside the repository:
-- opening and closing a span are effects, and a span's parent context is left out.
use kelpflux.Base.{
  Option, none, some, List, [], ◌∷◌, map, Text, codes, starts_with, strip, split_on, drop, mem_text,
  lookup, insert, erase, keys, if◌then◌else◌,
}
use kelpflux.Operator.Effects.{
  JobState, pending_state, running_state, other_state, RawJob, list_jobs, get_job_admin_comment,
  start_span, end_span, World, Action, pure, get, modify, ◌>>=◌, ◌>>◌, for_each, note, peek, ask,
}

abbrev queue_wait : Text
queue_wait = codes "queue_wait"

abbrev job_running : Text
job_running = codes "job_running"

-- The value of the first part of the comment that begins with `otel=`.
find_otel : List Text → Text
find_otel [] = []
find_otel (part ∷ parts) =
    if starts_with (strip part) (codes "otel=") then drop 5 (strip part) else find_otel parts

unfoldable pub traceparent : Text → Text
unfolding find_otel
traceparent comment = find_otel (split_on b';' comment)

module _ (world : World) where
  -- The submitter's trace context, from the job's admin comment.
  unfoldable pub read_traceparent : Text → Action Text
  read_traceparent jid = do
    comment ← peek (get_job_admin_comment jid) (λ tick. world.admin_comment tick jid)
    pure (traceparent comment)

  unfoldable pub open_pending : Text → Action (Unit {0})
  open_pending jid = do
    tp ← read_traceparent jid
    note (start_span queue_wait jid)
    modify (λ s. record s { job_pending_trace = insert jid tp s.job_pending_trace })

  -- A job that was seen pending runs now: its first span ends and its second begins.
  unfoldable pub start_running : Text → Text → Action (Unit {0})
  start_running jid tp = do
    modify (λ s. record s { job_pending_trace = erase jid s.job_pending_trace })
    note (end_span queue_wait jid)
    note (start_span job_running jid)
    modify (λ s. record s { job_running_trace = insert jid tp s.job_running_trace })

  -- A job that runs when it is first seen.
  unfoldable pub open_running : Text → Action (Unit {0})
  open_running jid = do
    tp ← read_traceparent jid
    note (start_span job_running jid)
    modify (λ s. record s { job_running_trace = insert jid tp s.job_running_trace })

  -- By the job's state and its entries in the two dictionaries.
  unfoldable pub track : Text → JobState → Option Text → Option Text → Action (Unit {0})
  track jid pending_state none running = open_pending jid
  track jid pending_state (some tp) running = pure tt
  track jid running_state (some tp) running = start_running jid tp
  track jid running_state none none = open_running jid
  track jid running_state none (some tp) = pure tt
  track jid other_state pending running = pure tt

  unfoldable pub track_named : Text → JobState → Action (Unit {0})
  track_named [] state = pure tt
  track_named (c ∷ rest) state = do
    app ← get
    track (c ∷ rest) state (lookup (c ∷ rest) app.job_pending_trace)
        (lookup (c ∷ rest) app.job_running_trace)

  unfoldable pub track_job : RawJob → Action (Unit {0})
  track_job jraw = track_named jraw.job_id jraw.job_state

  unfoldable pub close_pending : List Text → Text → Action (Unit {0})
  close_pending visible_ids jid =
      if mem_text jid visible_ids
      then pure tt
      else modify (λ s. record s { job_pending_trace = erase jid s.job_pending_trace })
        >> note (end_span queue_wait jid)

  unfoldable pub close_running : List Text → Text → Action (Unit {0})
  close_running visible_ids jid =
      if mem_text jid visible_ids
      then pure tt
      else modify (λ s. record s { job_running_trace = erase jid s.job_running_trace })
        >> note (end_span job_running jid)

  -- Close the spans of the jobs that have left the visible set.
  unfoldable pub close_gone : List Text → Action (Unit {0})
  close_gone visible_ids = do
    app ← get
    for_each (close_pending visible_ids) (keys app.job_pending_trace)
    app' ← get
    for_each (close_running visible_ids) (keys app'.job_running_trace)

  unfoldable pub track_jobs : List RawJob → Action (Unit {0})
  track_jobs raw_jobs = do for_each track_job raw_jobs; close_gone (map (λ j. j.job_id) raw_jobs)

  unfoldable pub update_traces : Text → Action (Unit {0})
  update_traces partition = do
    raw_jobs ← ask world (list_jobs partition) (λ tick. world.raw_jobs tick partition)
    track_jobs raw_jobs
