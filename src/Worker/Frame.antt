-- ===== src/Worker/Frame.antt =====
-- What the waiting requests, the proxied model requests and `stop` of
-- packages/agent-runtime-worker/src/AgentWorkerHost.ts leave alone.
use my_note_book.Base.{
  ℕ, String, Bool, true, Option, none, some, List, [], ◌∷◌, ◌++◌, map, ◌≡◌, ◌≢◌, ◌⊎◌, refl, sym, ap,
  ◌∙◌, append-nil, append_assoc, arith, if◌then◌else◌, nat_eq, lookup, Bool-cases, Option-cases,
  inl, inr,
}
use my_note_book.Worker.Messages.{
  Thrown, AgentRuntimeEvent, AgentWorkerMessage, run_event, AgentWorkerProviderRequest,
  provider_request, provider_cancel, heartbeat, runtime_hello, tool_cancel, shutdown,
}
use my_note_book.Worker.Host.{
  Signal, aborted, RuntimeCall, starts, cancels_run, Settlement, WorkerHost,
  PendingProviderResponse, emit_heartbeat, start, plain_error, abort_error, StopStage, draining,
  send, PendingHostReply,
}
use my_note_book.Worker.Replies.{
  Channel, tools, authorizations, tool_records, pending_of, with_pending, delete_first,
  notify_abort, abort_found, wait_for_host_reply, resolve_pending, reply_aborted, reject_replies,
}
use my_note_book.Worker.Provider.{
  provider_fetch_refused, provider_fetch_sent, start_provider_response, push_provider_chunk,
  finish_provider_response, fail_provider_response, provider_aborted, stream_cancelled, fail_each,
}
use my_note_book.Worker.Runs.{refused_protocol, stop, stop_cancelled, reject_pending, stop_finished}

module _ {P : Type 0} where
  abbrev pub event_of : AgentWorkerMessage P → List (AgentRuntimeEvent P)
  event_of (run_event event) = event ∷ []
  event_of _ = []

  -- The run events among the messages.
  unfoldable pub events : List (AgentWorkerMessage P) → List (AgentRuntimeEvent P)
  events [] = []
  events (message ∷ l) = event_of message ++ events l

  abbrev pub start_of : RuntimeCall P → List String
  start_of (starts request) = request.run_id ∷ []
  start_of _ = []

  -- The ids of the runs that the runtime was told to start.
  unfoldable pub started : List (RuntimeCall P) → List String
  started [] = []
  started (c ∷ l) = start_of c ++ started l

  pub events-append : (l r : List (AgentWorkerMessage P)) → events (l ++ r) ≡ events l ++ events r
  unfolding events
  events-append [] r = refl
  events-append (m ∷ l) r =
      ap (λ x. event_of m ++ x) (events-append l r)
      ∙ sym (append_assoc (event_of m) (events l) (events r))

  pub events-send :
      (l : List (AgentWorkerMessage P)) (m : AgentWorkerMessage P)
      → events (l ++ m ∷ []) ≡ events l ++ event_of m
  unfolding events
  events-send l m = events-append l (m ∷ []) ∙ ap (λ x. events l ++ x) (append-nil (event_of m))

  pub started-append : (l r : List (RuntimeCall P)) → started (l ++ r) ≡ started l ++ started r
  unfolding started
  started-append [] r = refl
  started-append (c ∷ l) r =
      ap (λ x. start_of c ++ x) (started-append l r)
      ∙ sym (append_assoc (start_of c) (started l) (started r))

  pub started_call :
      (l : List (RuntimeCall P)) (c : RuntimeCall P)
      → start_of c ≡ []
      → started (l ++ c ∷ []) ≡ started l
  unfolding started
  started_call l c e =
      started-append l (c ∷ []) ∙ ap (λ x. started l ++ (x ++ [])) e ∙ append-nil (started l)

  started-cancels :
      (l : List (RuntimeCall P)) (ids : List String)
      → started (l ++ map cancels_run ids) ≡ started l
  unfolding started
  started-cancels l ids =
      started-append l (map cancels_run ids)
      ∙ ap (λ x. started l ++ x) (none_started ids)
      ∙ append-nil (started l)
    where
      none_started : (ids : List String) → started (map cancels_run ids) ≡ []
      none_started [] = refl
      none_started (id ∷ ids) = none_started ids

  -- The state of the runs is the same, and so are the events sent and the runs started.
  pub record Frame (s u : WorkerHost P) : Type 0 where
    pub claimed : u.claimed_run_ids ≡ s.claimed_run_ids
    pub terminal : u.terminal_run_ids ≡ s.terminal_run_ids
    pub active : u.active_run_ids ≡ s.active_run_ids
    pub promises : u.active_run_promises ≡ s.active_run_promises
    pub sent_events : events u.sent ≡ events s.sent
    pub started_runs : started u.runtime_calls ≡ started s.runtime_calls

  pub Frame-trans : {s u w : WorkerHost P} → Frame s u → Frame u w → Frame s w
  Frame-trans f g = record {
    claimed = g.claimed ∙ f.claimed;
    terminal = g.terminal ∙ f.terminal;
    active = g.active ∙ f.active;
    promises = g.promises ∙ f.promises;
    sent_events = g.sent_events ∙ f.sent_events;
    started_runs = g.started_runs ∙ f.started_runs;
  }

  pub Frame-refl : (s : WorkerHost P) → Frame s s
  Frame-refl s = record {
    claimed = refl;
    terminal = refl;
    active = refl;
    promises = refl;
    sent_events = refl;
    started_runs = refl;
  }

  -- Sending a message that is no run event.
  pub sent_plain :
      (s : WorkerHost P) (m : AgentWorkerMessage P)
      → event_of m ≡ []
      → events (s.sent ++ m ∷ []) ≡ events s.sent
  sent_plain s m e =
      events-send s.sent m ∙ ap (λ x. events s.sent ++ x) e ∙ append-nil (events s.sent)

draining-cases :
    (stage : StopStage)
    → ((reason : String) × (ids : List String) × (stage ≡ draining reason ids))
      ⊎ ((reason : String) (ids : List String) → stage ≢ draining reason ids)
draining-cases (draining reason ids) = inl (reason, ids, refl)
draining-cases _ = inr (λ reason ids e. cc)

module _ {P : Type 0} (s : WorkerHost P) where
  -- An abort notifies of one tool call at most.
  notify_abort-Frame : (cancels : Option String) → Frame s (notify_abort cancels s)
  notify_abort-Frame none = Frame-refl s
  notify_abort-Frame (some id) = ground (arith, sent_plain s (tool_cancel id) refl)

module _ {P : Type 0} (s : WorkerHost P) where
  aborted-Frame :
      (c : Channel) (k reason : String) (reply : PendingHostReply)
      → Frame s (abort_found c k reason (some reply) s)
  unfolding abort_found
  aborted-Frame tools k reason reply =
      let t : WorkerHost P = with_pending tools (delete_first k s.pending_tools) s in
      ground (arith, notify_abort-Frame t reply.cancels)
  aborted-Frame authorizations k reason reply =
      let t : WorkerHost P =
        with_pending authorizations (delete_first k s.pending_authorizations) s in
      ground (arith, notify_abort-Frame t reply.cancels)
  aborted-Frame tool_records k reason reply =
      let t : WorkerHost P = with_pending tool_records (delete_first k s.pending_tool_records) s in
      ground (arith, notify_abort-Frame t reply.cancels)

  pub wait_for_host_reply-Frame :
      (c : Channel) (k : String) (signal : Signal) (cancels : Option String)
      (message : AgentWorkerMessage P)
      → event_of message ≡ []
      → Frame s (wait_for_host_reply c k signal cancels message s)
  unfolding wait_for_host_reply
  wait_for_host_reply-Frame tools k (aborted _) cancels m e = ground (arith, sent_plain s m e)
  wait_for_host_reply-Frame tools k _ cancels m e = ground (arith, sent_plain s m e)
  wait_for_host_reply-Frame authorizations k (aborted _) cancels m e =
      ground (arith, sent_plain s m e)
  wait_for_host_reply-Frame authorizations k _ cancels m e = ground (arith, sent_plain s m e)
  wait_for_host_reply-Frame tool_records k (aborted _) cancels m e =
      ground (arith, sent_plain s m e)
  wait_for_host_reply-Frame tool_records k _ cancels m e = ground (arith, sent_plain s m e)

  pub resolve_pending-Frame :
      (c : Channel) (k : String) (value : Settlement P) → Frame s (resolve_pending c k value s)
  unfolding resolve_pending
  resolve_pending-Frame tools k value = ground arith
  resolve_pending-Frame _ k value = ground arith

  pub reply_aborted-Frame : (c : Channel) (k reason : String) → Frame s (reply_aborted c k reason s)
  unfolding reply_aborted
  reply_aborted-Frame c k reason = elim (Option-cases (lookup k (pending_of c s))) [
    | inl e ↦ rw e (Frame-refl s)
    | inr (reply, e) ↦ rw e (aborted-Frame c k reason reply)
  ]

  pub provider_fetch_refused-Frame : (reason : String) → Frame s (provider_fetch_refused reason s)
  unfolding provider_fetch_refused
  provider_fetch_refused-Frame reason = ground arith

  pub provider_fetch_sent-Frame :
      (request : AgentWorkerProviderRequest) (late : Bool)
      → Frame s (provider_fetch_sent request late s)
  unfolding provider_fetch_sent
  provider_fetch_sent-Frame request late =
      ground (arith, sent_plain s (provider_request request) refl)

  pub start_provider_response-Frame :
      (k : String) (status : ℕ) (headers : List (String × String))
      → Frame s (start_provider_response k status headers s)
  unfolding start_provider_response
  start_provider_response-Frame k status headers = ground arith

  pub push_provider_chunk-Frame : (k body : String) → Frame s (push_provider_chunk k body s)
  unfolding push_provider_chunk
  push_provider_chunk-Frame k body = ground arith

  pub finish_provider_response-Frame : (k : String) → Frame s (finish_provider_response k s)
  unfolding finish_provider_response
  finish_provider_response-Frame k = ground arith

  pub fail_provider_response-Frame :
      (k : String) (error : Thrown) → Frame s (fail_provider_response k error s)
  unfolding fail_provider_response
  fail_provider_response-Frame k error = ground arith

  pub stream_cancelled-Frame : (k : String) → Frame s (stream_cancelled k s)
  unfolding stream_cancelled
  stream_cancelled-Frame k = ground (arith, sent_plain s (provider_cancel k) refl)

  pub emit_heartbeat-Frame : (now : ℕ) → Frame s (emit_heartbeat now s)
  unfolding emit_heartbeat
  emit_heartbeat-Frame now =
      ground
        (arith, sent_plain s (heartbeat s.identity.worker_instance_id s.active_run_ids now) refl)

  pub stop-Frame : (reason : String) → Frame s (stop reason s)
  unfolding stop
  stop-Frame reason = ground (arith, started-cancels s.runtime_calls s.active_run_ids)

  pub refuse_protocol-Frame :
      (version : ℕ) → Frame s (if nat_eq version 1 then s else stop (refused_protocol version) s)
  refuse_protocol-Frame version = elim (Bool-cases (nat_eq version 1)) [
    | inl e ↦ rw e (Frame-refl s)
    | inr e ↦ rw e (stop-Frame (refused_protocol version))
  ]

  pub stop_cancelled-Frame : Frame s (stop_cancelled s)
  unfolding stop_cancelled
  stop_cancelled-Frame = ground arith

module _ {P : Type 0} where
  pub fail_each-Frame :
      (error : Thrown) (m : List (String × PendingProviderResponse)) (s : WorkerHost P)
      → Frame s (fail_each error m s)
  unfolding fail_each
  fail_each-Frame error [] s = Frame-refl s
  fail_each-Frame error ((k, p) ∷ m) s =
      Frame-trans (fail_provider_response-Frame s k error)
        (fail_each-Frame error m (fail_provider_response k error s))

  pub reject_pending-Frame :
      (reason : String) (s : WorkerHost P) → Frame s (reject_pending reason s)
  unfolding reject_pending reject_replies
  reject_pending-Frame reason s =
      let t = reject_replies reason s in
      let f = fail_each-Frame (plain_error reason) s.pending_provider_responses t in
      record {
        claimed = f.claimed;
        terminal = f.terminal;
        active = f.active;
        promises = f.promises;
        sent_events = f.sent_events;
        started_runs = f.started_runs;
      }

  pub send-Frame :
      (s : WorkerHost P) (m : AgentWorkerMessage P) → event_of m ≡ [] → Frame s (send m s)
  send-Frame s m e = ground (arith, sent_plain s m e)

  pub provider_aborted-Frame :
      (s : WorkerHost P) (k reason : String) → Frame s (provider_aborted k reason s)
  unfolding provider_aborted
  provider_aborted-Frame s k reason =
      let t : WorkerHost P = send (provider_cancel k) s in
      ground (
        arith,
        Frame-trans (send-Frame s (provider_cancel k) refl)
            (fail_provider_response-Frame t k (abort_error reason)),
      )

  pub start-Frame : (s : WorkerHost P) (now : ℕ) → Frame s (start now s)
  unfolding start
  start-Frame s now =
      let t : WorkerHost P = send (runtime_hello s.identity) (record s { subscribed = true }) in
      ground (
        arith,
        sent_plain s (runtime_hello s.identity) refl,
        sent_plain t (heartbeat s.identity.worker_instance_id s.active_run_ids now) refl,
      )

  pub stop_finished-Frame : (s : WorkerHost P) → Frame s (stop_finished s)
  unfolding stop_finished
  stop_finished-Frame s = elim (draining-cases s.stop_stage) [
    | inl (reason, ids, e) ↦ ground (
      arith,
      e,
      Frame-trans (reject_pending-Frame reason s) (
          send-Frame (reject_pending reason s) (shutdown s.identity.worker_instance_id reason)
            refl),
    )
    | inr other ↦ grind (arith, other)
  ]
