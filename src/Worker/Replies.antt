-- ===== src/Worker/Replies.antt =====
-- Requests to the supervisor that wait for one reply: `waitForHostReply`, `resolvePending` and
-- their callers in packages/agent-runtime-worker/src/AgentWorkerHost.ts.
use Prim.Native.String
use my_note_book.Base.{
  ℕ, ◌+◌, String, Bool, true, false, Option, none, some, List, [], ◌∷◌, ◌++◌, ◌==◌, if◌then◌else◌,
  is_some, lookup, insert,
}
use my_note_book.Worker.Messages.{
  Thrown, AgentWorkerToolInvocation, AgentWorkerAuthorizationRequest, AgentWorkerMessage,
  tool_invoke, tool_cancel, tool_record, authorization_request,
}
use my_note_book.Worker.Host.{
  Signal, live, aborted, PendingHostReply, Settlement, rejected, WorkerHost, send, settle,
  abort_error, plain_error,
}

-- `Map.delete`; a map has a key once.
unfoldable pub delete_first {ℓ} : {V : Type ℓ} → String → List (String × V) → List (String × V)
delete_first k [] = []
delete_first k ((j, v) ∷ m) = if j == k then m else (j, v) ∷ delete_first k m

abbrev is_live : Signal → Bool
is_live live = true
is_live _ = false

-- One of the three maps of `PendingHostReply`.
pub data Channel : Type 0 where
  tools authorizations tool_records : Channel

module _ {P : Type 0} where
  abbrev pub pending_of : Channel → WorkerHost P → List (String × PendingHostReply)
  pending_of tools s = s.pending_tools
  pending_of authorizations s = s.pending_authorizations
  pending_of tool_records s = s.pending_tool_records

  abbrev pub with_pending : Channel → List (String × PendingHostReply) → WorkerHost P → WorkerHost P
  with_pending tools m s = record s { pending_tools = m }
  with_pending authorizations m s = record s { pending_authorizations = m }
  with_pending tool_records m s = record s { pending_tool_records = m }

  -- A new promise, rejected or waiting; `message` is what `send` sends.
  register :
      Channel
      → String
      → Signal
      → Option String
      → AgentWorkerMessage P
      → ℕ
      → WorkerHost P
      → WorkerHost P
  register c request_id (aborted reason) cancels message ticket s =
      settle ticket (rejected (abort_error reason)) s
  register c request_id signal cancels message ticket s =
      let entry : PendingHostReply = record {
        ticket = ticket;
        watched = is_live signal;
        cancels = cancels;
      } in
      send message (with_pending c (insert request_id entry (pending_of c s)) s)

  unfoldable pub wait_for_host_reply :
      Channel → String → Signal → Option String → AgentWorkerMessage P → WorkerHost P → WorkerHost P
  unfolding register
  wait_for_host_reply c request_id signal cancels message s =
      let t = record s { next_ticket = s.next_ticket + 1 } in
      let duplicate = plain_error (String.◌++◌ "duplicate requestId " request_id) in
      if is_some (lookup request_id (pending_of c s))
      then settle s.next_ticket (rejected duplicate) t
      else register c request_id signal cancels message s.next_ticket t

  unfoldable pub invoke_tool : AgentWorkerToolInvocation P → Signal → WorkerHost P → WorkerHost P
  invoke_tool request signal s =
      wait_for_host_reply tools request.request_id signal (some request.internal_tool_call_id)
        (tool_invoke request) s

  -- `request_id` is the id that `createId` returns.
  unfoldable pub request_authorization :
      String → AgentWorkerAuthorizationRequest → Signal → WorkerHost P → WorkerHost P
  request_authorization request_id request signal s =
      wait_for_host_reply authorizations request_id signal none
        (authorization_request request_id request) s

  unfoldable pub record_tool_call : String → P → Signal → WorkerHost P → WorkerHost P
  record_tool_call request_id tool_call signal s =
      wait_for_host_reply tool_records request_id signal none (tool_record request_id tool_call) s

  resolve_found :
      Channel → String → Settlement P → Option PendingHostReply → WorkerHost P → WorkerHost P
  resolve_found c request_id value none s = s
  resolve_found c request_id value (some reply) s =
      settle reply.ticket value (with_pending c (delete_first request_id (pending_of c s)) s)

  unfoldable pub resolve_pending : Channel → String → Settlement P → WorkerHost P → WorkerHost P
  unfolding resolve_found
  resolve_pending c request_id value s =
      resolve_found c request_id value (lookup request_id (pending_of c s)) s

  abbrev pub notify_abort : Option String → WorkerHost P → WorkerHost P
  notify_abort none s = s
  notify_abort (some internal_tool_call_id) s = send (tool_cancel internal_tool_call_id) s

  unfoldable pub abort_found :
      Channel → String → String → Option PendingHostReply → WorkerHost P → WorkerHost P
  abort_found c request_id reason none s = s
  abort_found c request_id reason (some reply) s =
      if reply.watched
      then settle reply.ticket (rejected (abort_error reason))
          (notify_abort reply.cancels (with_pending c (delete_first request_id (pending_of c s)) s))
      else s

  -- The abort listener of a waiting request; it is registered while the request waits.
  unfoldable pub reply_aborted : Channel → String → String → WorkerHost P → WorkerHost P
  unfolding abort_found
  reply_aborted c request_id reason s =
      abort_found c request_id reason (lookup request_id (pending_of c s)) s

  unfoldable pub reject_each :
      Thrown → List (String × PendingHostReply) → List (ℕ × Settlement P) → List (ℕ × Settlement P)
  reject_each error [] done = done
  reject_each error ((k, reply) ∷ m) done =
      reject_each error m (done ++ (reply.ticket, rejected error) ∷ [])

  -- The loop of `rejectPending` over the three maps.
  unfoldable pub reject_replies : String → WorkerHost P → WorkerHost P
  reject_replies reason s =
      let error = plain_error reason in
      record s {
        pending_tools = [];
        pending_authorizations = [];
        pending_tool_records = [];
        settled = reject_each error s.pending_tool_records (
            reject_each error s.pending_authorizations
              (reject_each error s.pending_tools s.settled));
      }
