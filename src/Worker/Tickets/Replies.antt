-- ===== src/Worker/Tickets/Replies.antt =====
-- The waiting requests of packages/agent-runtime-worker/src/AgentWorkerHost.ts keep their promises.
use Prim.Native.String
use my_note_book.Base.{
  ℕ, ◌+◌, String, true, false, Option, some, List, [], ◌∷◌, ◌++◌, ◌≡◌, arith, Option-cases, inl,
  inr, lookup,
}
use my_note_book.Worker.Messages.{Thrown, AgentWorkerMessage}
use my_note_book.Worker.Host.{
  Signal, aborted, no_signal, live, PendingHostReply, Settlement, rejected, WorkerHost, plain_error,
  abort_error,
}
use my_note_book.Worker.Replies.{
  Channel, tools, authorizations, tool_records, pending_of, wait_for_host_reply, resolve_pending,
  reply_aborted, reject_each, reject_replies,
}
use my_note_book.Worker.Tickets.{
  here, total, total-insert-none, total-delete_first, settlements, settlements-settle, waiting,
  IsKept,
}

abbrev duplicate : String → Thrown
duplicate k = plain_error (String.◌++◌ "duplicate requestId " k)

module _ {P : Type 0} (t : ℕ) (s : WorkerHost P) (kept : IsKept t s) where
  settled_one :
      (n : ℕ) (x : Settlement P)
      → settlements t (s.settled ++ (n, x) ∷ []) ≡ settlements t s.settled + here t n
  settled_one n x = settlements-settle t s.settled n x

  -- A new promise is rejected at once or waits.
  pub wait_for_host_reply-IsKept :
      (c : Channel) (k : String) (signal : Signal) (cancels : Option String)
      (message : AgentWorkerMessage P)
      → IsKept t (wait_for_host_reply c k signal cancels message s)
  unfolding wait_for_host_reply
  wait_for_host_reply-IsKept tools k (aborted reason) cancels message = ground (
    arith,
    settled_one s.next_ticket (rejected (abort_error reason)),
    settled_one s.next_ticket (rejected (duplicate k)),
  )
  wait_for_host_reply-IsKept tools k live cancels message = ground (
    arith,
    settled_one s.next_ticket (rejected (duplicate k)),
    total-insert-none (waiting t) k
        (record { ticket = s.next_ticket; watched = true; cancels = cancels }) s.pending_tools,
  )
  wait_for_host_reply-IsKept tools k no_signal cancels message = ground (
    arith,
    settled_one s.next_ticket (rejected (duplicate k)),
    total-insert-none (waiting t) k
        (record { ticket = s.next_ticket; watched = false; cancels = cancels }) s.pending_tools,
  )
  wait_for_host_reply-IsKept authorizations k (aborted reason) cancels message = ground (
    arith,
    settled_one s.next_ticket (rejected (abort_error reason)),
    settled_one s.next_ticket (rejected (duplicate k)),
  )
  wait_for_host_reply-IsKept authorizations k live cancels message = ground (
    arith,
    settled_one s.next_ticket (rejected (duplicate k)),
    total-insert-none (waiting t) k
        (record { ticket = s.next_ticket; watched = true; cancels = cancels })
        s.pending_authorizations,
  )
  wait_for_host_reply-IsKept authorizations k no_signal cancels message = ground (
    arith,
    settled_one s.next_ticket (rejected (duplicate k)),
    total-insert-none (waiting t) k
        (record { ticket = s.next_ticket; watched = false; cancels = cancels })
        s.pending_authorizations,
  )
  wait_for_host_reply-IsKept tool_records k (aborted reason) cancels message = ground (
    arith,
    settled_one s.next_ticket (rejected (abort_error reason)),
    settled_one s.next_ticket (rejected (duplicate k)),
  )
  wait_for_host_reply-IsKept tool_records k live cancels message = ground (
    arith,
    settled_one s.next_ticket (rejected (duplicate k)),
    total-insert-none (waiting t) k
        (record { ticket = s.next_ticket; watched = true; cancels = cancels })
        s.pending_tool_records,
  )
  wait_for_host_reply-IsKept tool_records k no_signal cancels message = ground (
    arith,
    settled_one s.next_ticket (rejected (duplicate k)),
    total-insert-none (waiting t) k
        (record { ticket = s.next_ticket; watched = false; cancels = cancels })
        s.pending_tool_records,
  )

  resolved-IsKept :
      (c : Channel) (k : String) (value : Settlement P) (reply : PendingHostReply)
      → lookup k (pending_of c s) ≡ some reply
      → IsKept t (resolve_pending c k value s)
  unfolding resolve_pending
  resolved-IsKept tools k value reply e = rw e (
      omega (
        arith,
        settled_one reply.ticket value,
        total-delete_first (waiting t) k reply s.pending_tools e,
      ))
  resolved-IsKept authorizations k value reply e = rw e (
      omega (
        arith,
        settled_one reply.ticket value,
        total-delete_first (waiting t) k reply s.pending_authorizations e,
      ))
  resolved-IsKept tool_records k value reply e = rw e (
      omega (
        arith,
        settled_one reply.ticket value,
        total-delete_first (waiting t) k reply s.pending_tool_records e,
      ))

  -- A reply settles the promise that waits for it, and changes nothing if none does.
  pub resolve_pending-IsKept :
      (c : Channel) (k : String) (value : Settlement P) → IsKept t (resolve_pending c k value s)
  resolve_pending-IsKept c k value = elim (Option-cases (lookup k (pending_of c s))) [
    | inl e ↦ unfold resolve_pending in rw e kept
    | inr (reply, e) ↦ resolved-IsKept c k value reply e
  ]

  abort_IsKept :
      (c : Channel) (k reason : String) (reply : PendingHostReply)
      → lookup k (pending_of c s) ≡ some reply
      → IsKept t (reply_aborted c k reason s)
  unfolding reply_aborted
  abort_IsKept tools k reason reply e = ground (
    arith,
    settled_one reply.ticket (rejected (abort_error reason)),
    total-delete_first (waiting t) k reply s.pending_tools e,
  )
  abort_IsKept authorizations k reason reply e = ground (
    arith,
    settled_one reply.ticket (rejected (abort_error reason)),
    total-delete_first (waiting t) k reply s.pending_authorizations e,
  )
  abort_IsKept tool_records k reason reply e = ground (
    arith,
    settled_one reply.ticket (rejected (abort_error reason)),
    total-delete_first (waiting t) k reply s.pending_tool_records e,
  )

  -- An abort settles the promise of the aborted request.
  pub reply_aborted-IsKept :
      (c : Channel) (k reason : String) → IsKept t (reply_aborted c k reason s)
  reply_aborted-IsKept c k reason = elim (Option-cases (lookup k (pending_of c s))) [
    | inl e ↦ unfold reply_aborted in rw e kept
    | inr (reply, e) ↦ abort_IsKept c k reason reply e
  ]

module _ {P : Type 0} (t : ℕ) where
  settlements-reject_each :
      (error : Thrown) (m : List (String × PendingHostReply)) (l : List (ℕ × Settlement P))
      → settlements t (reject_each error m l) ≡ settlements t l + total (waiting t) m
  unfolding reject_each total
  settlements-reject_each error [] l = omega arith
  settlements-reject_each error ((k, reply) ∷ m) l = omega (
    arith,
    settlements-reject_each error m (l ++ (reply.ticket, rejected error) ∷ []),
    settlements-settle t l reply.ticket (rejected error),
  )

  -- Rejecting all that waits for a reply settles it.
  pub reject_replies-IsKept :
      (reason : String) (s : WorkerHost P) → IsKept t s → IsKept t (reject_replies reason s)
  unfolding reject_replies total
  reject_replies-IsKept reason s kept =
      let error = plain_error reason in
      let first = reject_each error s.pending_tools s.settled in
      let second = reject_each error s.pending_authorizations first in
      omega (
        arith,
        settlements-reject_each error s.pending_tools s.settled,
        settlements-reject_each error s.pending_authorizations first,
        settlements-reject_each error s.pending_tool_records second,
      )
