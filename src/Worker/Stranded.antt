-- ===== src/Worker/Stranded.antt =====
-- A response that cannot be built in packages/agent-runtime-worker/src/AgentWorkerHost.ts, and what
-- becomes of the promise that waits for it.
use my_note_book.Base.{
  ℕ, String, true, false, some, List, ◌++◌, [], ◌∷◌, ◌≡◌, arith, lookup, lookup-insert, insert,
  eq_refl,
}
use my_note_book.Worker.Messages.{Thrown, AgentWorkerIdentity}
use my_note_book.Worker.Host.{PendingProviderResponse, StreamEvent, WorkerHost}
use my_note_book.Worker.Provider.{
  start_provider_response, end_found, finish_provider_response, fail_provider_response,
}
use my_note_book.Worker.Steps.{Reach}
use my_note_book.Worker.Tickets.{total-insert-some, total-delete_first, unresolved, places, IsKept}
use my_note_book.Worker.Tickets.Kept.{Reach-IsKept}

lookup-insert_self :
    (k : String) (p : PendingProviderResponse) (m : List (String × PendingProviderResponse))
    → lookup k (insert k p m) ≡ some p
lookup-insert_self k p m = ground (arith, lookup-insert k k p m, eq_refl k)

module _ {P : Type 0} (k : String) (status : ℕ) (headers : List (String × String))
    (s : WorkerHost P) (p : PendingProviderResponse)
    (found : lookup k s.pending_provider_responses ≡ some p) (open_ : p.finished ≡ false)
    (waits : p.resolved ≡ false) (throws : s.builds_response status headers ≡ false) where
  -- The entry after the attempt.
  abbrev begun : PendingProviderResponse
  begun = record p { response_started = true }

  abbrev started : WorkerHost P
  started = record s {
    pending_provider_responses = insert k begun s.pending_provider_responses;
    unbuilt = s.unbuilt ++ p.ticket ∷ [];
  }

  start_unbuilt : start_provider_response k status headers s ≡ started
  unfolding start_provider_response
  start_unbuilt = ground (arith, found, open_, waits, throws)

  end_unbuilt :
      (ending : StreamEvent) (error : Thrown)
      → IsKept p.ticket s
      → places p.ticket
          (end_found k ending error (lookup k started.pending_provider_responses) started)
        ≡ 0
  unfolding end_found
  end_unbuilt ending error kept = rw (lookup-insert_self k begun s.pending_provider_responses) (
      ground (
        arith,
        open_,
        waits,
        total-insert-some (unresolved p.ticket) k begun p s.pending_provider_responses found,
        total-delete_first (unresolved p.ticket) k begun
            (insert k begun s.pending_provider_responses)
            (lookup-insert_self k begun s.pending_provider_responses),
      ))

-- If `new Response` throws for the status and headers of a pending model request, the promise of
-- that request is lost when the response then ends or fails: it is not settled, and it waits
-- nowhere.
pub start_provider_response-unbuilt :
    {P : Type 0} {identity : AgentWorkerIdentity} (k : String) (status : ℕ)
    (headers : List (String × String)) (s : WorkerHost P) (p : PendingProviderResponse)
    (error : Thrown)
    → Reach identity s
    → lookup k s.pending_provider_responses ≡ some p
    → p.finished ≡ false
    → p.resolved ≡ false
    → s.builds_response status headers ≡ false
    → let t = start_provider_response k status headers s in
      (places p.ticket (finish_provider_response k t) ≡ 0)
      × (places p.ticket (fail_provider_response k error t) ≡ 0)
unfolding finish_provider_response fail_provider_response
start_provider_response-unbuilt k status headers s p error reached found open_ waits throws =
    let kept = Reach-IsKept p.ticket reached in
    rw (start_unbuilt k status headers s p found open_ waits throws) (
      end_unbuilt k status headers s p found open_ waits throws _ _ kept,
      end_unbuilt k status headers s p found open_ waits throws _ error kept,
    )
