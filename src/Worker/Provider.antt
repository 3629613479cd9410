-- ===== src/Worker/Provider.antt =====
-- Model requests that the supervisor proxies, with their streamed responses, in
-- packages/agent-runtime-worker/src/AgentWorkerHost.ts. `proxyProviderFetch` is cut at its `await`
-- of the request's body. A chunk is logged in base64: `decodeBase64` is not modelled.
use my_note_book.Base.{
  ℕ, ◌+◌, String, Bool, true, false, not, ◌||◌, Option, none, some, List, [], ◌∷◌, ◌++◌,
  if◌then◌else◌, lookup, insert,
}
use my_note_book.Worker.Messages.{
  Thrown, AgentWorkerProviderRequest, provider_request, provider_cancel,
}
use my_note_book.Worker.Host.{
  PendingProviderResponse, responded, rejected, StreamEvent, enqueued, closed, errored, WorkerHost,
  send, settle, abort_error, plain_error,
}
use my_note_book.Worker.Replies.{delete_first}

watched_entry : Option PendingProviderResponse → Bool
watched_entry none = false
watched_entry (some pending) = pending.watched

module _ {P : Type 0} where
  -- `if (signal.aborted) throw abortError(signal)`: the promise of the call is rejected at once.
  unfoldable pub provider_fetch_refused : String → WorkerHost P → WorkerHost P
  provider_fetch_refused reason s =
      settle s.next_ticket (rejected (abort_error reason))
        (record s { next_ticket = s.next_ticket + 1 })

  -- The rest of `proxyProviderFetch`, after the request's body is read: an abort listener that is
  -- added to a signal which has been aborted meanwhile never runs.
  unfoldable pub provider_fetch_sent :
      AgentWorkerProviderRequest → Bool → WorkerHost P → WorkerHost P
  provider_fetch_sent request aborted_meanwhile s =
      let entry : PendingProviderResponse = record {
        ticket = s.next_ticket;
        response_started = false;
        resolved = false;
        finished = false;
        watched = not aborted_meanwhile;
      } in
      let t = record s {
        next_ticket = s.next_ticket + 1;
        pending_provider_responses = insert request.request_id entry s.pending_provider_responses;
      } in
      send (provider_request request) t

  stream : String → StreamEvent → WorkerHost P → WorkerHost P
  stream request_id event s = record s { streams = s.streams ++ (request_id, event) ∷ [] }

  -- `new Response` may throw, after `responseStarted` was set; the exception leaves `onMessage`, and
  -- the promise stays as it was. A promise that is resolved a second time stays as it is.
  start_found :
      String
      → ℕ
      → List (String × String)
      → Option PendingProviderResponse
      → WorkerHost P
      → WorkerHost P
  start_found request_id status headers none s = s
  start_found request_id status headers (some pending) s =
      if pending.finished || pending.resolved
      then s
      else if s.builds_response status headers
      then settle pending.ticket (responded status headers) (record s {
        pending_provider_responses =
            insert request_id (record pending { response_started = true; resolved = true })
              s.pending_provider_responses;
      })
      else record s {
        pending_provider_responses =
            insert request_id (record pending { response_started = true })
              s.pending_provider_responses;
        unbuilt = s.unbuilt ++ pending.ticket ∷ [];
      }

  unfoldable pub start_provider_response :
      String → ℕ → List (String × String) → WorkerHost P → WorkerHost P
  unfolding start_found
  start_provider_response request_id status headers s =
      start_found request_id status headers (lookup request_id s.pending_provider_responses) s

  chunk_found : String → String → Option PendingProviderResponse → WorkerHost P → WorkerHost P
  unfolding stream
  chunk_found request_id body_base64 none s = s
  chunk_found request_id body_base64 (some pending) s =
      if pending.finished || not pending.response_started
      then s
      else stream request_id (enqueued body_base64) s

  unfoldable pub push_provider_chunk : String → String → WorkerHost P → WorkerHost P
  unfolding chunk_found
  push_provider_chunk request_id body_base64 s =
      chunk_found request_id body_base64 (lookup request_id s.pending_provider_responses) s

  -- The end of a response: its entry is removed, and its stream or its promise is ended.
  unfoldable pub end_found :
      String → StreamEvent → Thrown → Option PendingProviderResponse → WorkerHost P → WorkerHost P
  unfolding stream
  end_found request_id ending error none s = s
  end_found request_id ending error (some pending) s =
      let t = record s {
        pending_provider_responses = delete_first request_id s.pending_provider_responses;
      } in
      if pending.finished
      then s
      else if pending.response_started
      then stream request_id ending t
      else settle pending.ticket (rejected error) t

  unfoldable pub finish_provider_response : String → WorkerHost P → WorkerHost P
  unfolding end_found
  finish_provider_response request_id s =
      end_found request_id closed (plain_error "Provider 响应在返回响应头前结束。")
        (lookup request_id s.pending_provider_responses) s

  unfoldable pub fail_provider_response : String → Thrown → WorkerHost P → WorkerHost P
  unfolding end_found
  fail_provider_response request_id error s =
      end_found request_id (errored error) error (lookup request_id s.pending_provider_responses) s

  -- The abort listener of a request; it is registered while the request is pending.
  unfoldable pub provider_aborted : String → String → WorkerHost P → WorkerHost P
  unfolding watched_entry
  provider_aborted request_id reason s =
      if watched_entry (lookup request_id s.pending_provider_responses)
      then fail_provider_response request_id (abort_error reason)
          (send (provider_cancel request_id) s)
      else s

  -- `cancel` of the body stream.
  cancel_found : String → Option PendingProviderResponse → WorkerHost P → WorkerHost P
  cancel_found request_id none s = s
  cancel_found request_id (some pending) s = record s {
    pending_provider_responses = delete_first request_id s.pending_provider_responses;
  }

  unfoldable pub stream_cancelled : String → WorkerHost P → WorkerHost P
  unfolding cancel_found
  stream_cancelled request_id s =
      let t = send (provider_cancel request_id) s in
      cancel_found request_id (lookup request_id t.pending_provider_responses) t

  -- The loop of `rejectPending` over the responses.
  unfoldable pub fail_each :
      Thrown → List (String × PendingProviderResponse) → WorkerHost P → WorkerHost P
  fail_each error [] s = s
  fail_each error ((request_id, pending) ∷ m) s =
      fail_each error m (fail_provider_response request_id error s)
