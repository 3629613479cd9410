-- ===== src/Worker/Stopping.antt =====
-- The end of `stop` in packages/agent-runtime-worker/src/AgentWorkerHost.ts.
use my_note_book.Base.{
  ℕ, ◌+◌, ◌≤◌, ◌<◌, String, true, false, some, List, [], ◌∷◌, ◌++◌, ◌≡◌, refl, ap, ◌∙◌, arith,
  eq_refl, lookup,
}
use my_note_book.Worker.Messages.{Thrown, AgentWorkerIdentity, shutdown}
use my_note_book.Worker.Host.{
  PendingProviderResponse, StreamEvent, errored, draining, WorkerHost, plain_error,
}
use my_note_book.Worker.Replies.{delete_first, reject_replies}
use my_note_book.Worker.Provider.{end_found, fail_provider_response, fail_each}
use my_note_book.Worker.Runs.{none_active, reject_pending, stop_finished}
use my_note_book.Worker.Steps.{Reach, next, finishes}
use my_note_book.Worker.Tickets.{total, over, settlements, failures}
use my_note_book.Worker.Tickets.Kept.{Reach-IsKept}

-- Nothing waits but responses of the map `m`, and `n` promises have been made.
record Waits {P : Type 0} (m : List (String × PendingProviderResponse)) (n : ℕ) (s : WorkerHost P)
    : Type 0 where
  tools : s.pending_tools ≡ []
  authorizations : s.pending_authorizations ≡ []
  records : s.pending_tool_records ≡ []
  responses : s.pending_provider_responses ≡ m
  made : s.next_ticket ≡ n

delete_first-head :
    (k : String) (p : PendingProviderResponse) (m : List (String × PendingProviderResponse))
    → delete_first k ((k, p) ∷ m) ≡ m
unfolding delete_first
delete_first-head k p m = rw (eq_refl k)

lookup-head :
    (k : String) (p : PendingProviderResponse) (m : List (String × PendingProviderResponse))
    → lookup k ((k, p) ∷ m) ≡ some p
unfolding lookup
lookup-head k p m = rw (eq_refl k)

module _ {P : Type 0} where
  end_first :
      (ending : StreamEvent) (error : Thrown) (k : String) (p : PendingProviderResponse)
      (m : List (String × PendingProviderResponse)) (n : ℕ) (s : WorkerHost P)
      → p.finished ≡ false
      → Waits ((k, p) ∷ m) n s
      → Waits m n (end_found k ending error (some p) s)
  unfolding end_found
  end_first ending error k p m n s f h =
      let gone : delete_first k s.pending_provider_responses ≡ m =
        ap (delete_first k) h.responses ∙ delete_first-head k p m in
      ground (arith, f, gone)

  fail_first :
      (error : Thrown) (k : String) (p : PendingProviderResponse)
      (m : List (String × PendingProviderResponse)) (n : ℕ) (s : WorkerHost P)
      → p.finished ≡ false
      → Waits ((k, p) ∷ m) n s
      → Waits m n (fail_provider_response k error s)
  unfolding fail_provider_response
  fail_first error k p m n s f h =
      let found : lookup k s.pending_provider_responses ≡ some p =
        ap (lookup k) h.responses ∙ lookup-head k p m in
      rw found (end_first (errored error) error k p m n s f h)

  fail_each-Waits :
      (error : Thrown) (m : List (String × PendingProviderResponse)) (n : ℕ) (s : WorkerHost P)
      → total over m ≡ 0
      → Waits m n s
      → Waits [] n (fail_each error m s)
  unfolding fail_each total
  fail_each-Waits error [] n s z h = h
  fail_each-Waits error ((k, p) ∷ m) n s z h =
      fail_each-Waits error m n (fail_provider_response k error s) (omega arith)
        (fail_first error k p m n s (ground (arith, z)) h)

  reject_pending-Waits :
      (reason : String) (s : WorkerHost P)
      → total over s.pending_provider_responses ≡ 0
      → Waits [] s.next_ticket (reject_pending reason s)
  unfolding reject_pending reject_replies
  reject_pending-Waits reason s z =
      fail_each-Waits (plain_error reason) s.pending_provider_responses s.next_ticket
        (reject_replies reason s) z
        (record {
          tools = refl;
          authorizations = refl;
          records = refl;
          responses = refl;
          made = refl;
        })

-- When the runs that `stop` awaits have ended, its last part leaves no promise waiting: all four
-- maps are empty, and each promise that the host has ever made is settled, once, unless `new
-- Response` has thrown for it; such a promise is settled at most once. It closes the channel after a
-- last message, the shutdown with the reason.
pub stop_finished-settles :
    {P : Type 0} {identity : AgentWorkerIdentity} (s : WorkerHost P) (reason : String)
    (ids : List String) (t : ℕ)
    → Reach identity s
    → s.stop_stage ≡ draining reason ids
    → none_active ids s.active_run_promises ≡ true
    → t < s.next_ticket
    → let u = stop_finished s in
      (1 ≤ settlements t u.settled + failures t u.unbuilt)
      × (settlements t u.settled ≤ 1)
      × (u.pending_tools ≡ [])
      × (u.pending_authorizations ≡ [])
      × (u.pending_tool_records ≡ [])
      × (u.pending_provider_responses ≡ [])
      × (u.sent
          ≡ (reject_pending reason s).sent ++ shutdown s.identity.worker_instance_id reason ∷ [])
      × (u.channel_closed ≡ true)
      × (u.subscribed ≡ false)
unfolding stop_finished total
stop_finished-settles s reason ids t reached e n b =
    let w = reject_pending-Waits reason s (Reach-IsKept t reached).2 in
    let kept = Reach-IsKept t (next reached finishes) in ground (arith, e, n, w, kept)
