-- ===== src/Worker/Tickets/Provider.antt =====
-- The promises of the proxied model requests of packages/agent-runtime-worker/src/AgentWorkerHost.ts.
use my_note_book.Base.{
  ℕ, ◌+◌, String, Bool, true, false, not, none, some, List, [], ◌∷◌, ◌++◌, ◌≡◌, arith, Option-cases,
  inl, inr, lookup,
}
use my_note_book.Worker.Messages.{Thrown, AgentWorkerProviderRequest, provider_cancel}
use my_note_book.Worker.Host.{
  PendingProviderResponse, Settlement, rejected, responded, StreamEvent, WorkerHost, abort_error,
  send,
}
use my_note_book.Worker.Provider.{
  provider_fetch_refused, provider_fetch_sent, start_provider_response, push_provider_chunk,
  end_found, finish_provider_response, fail_provider_response, provider_aborted, stream_cancelled,
  fail_each,
}
use my_note_book.Worker.Tickets.{
  here, total-insert-none, total-insert-some, total-delete_first, settlements, settlements-settle,
  unstarted, unresolved, failures-append, over, IsKept,
}

module _ {P : Type 0} (t : ℕ) where
  settled_one :
      (s : WorkerHost P) (n : ℕ) (x : Settlement P)
      → settlements t (s.settled ++ (n, x) ∷ []) ≡ settlements t s.settled + here t n
  settled_one s n x = settlements-settle t s.settled n x

  pub provider_fetch_refused-IsKept :
      (reason : String) (s : WorkerHost P) → IsKept t s → IsKept t (provider_fetch_refused reason s)
  unfolding provider_fetch_refused
  provider_fetch_refused-IsKept reason s kept =
      ground (arith, settled_one s s.next_ticket (rejected (abort_error reason)))

  pub provider_fetch_sent-IsKept :
      (request : AgentWorkerProviderRequest) (late : Bool) (s : WorkerHost P)
      → lookup request.request_id s.pending_provider_responses ≡ none
      → IsKept t s
      → IsKept t (provider_fetch_sent request late s)
  unfolding provider_fetch_sent
  provider_fetch_sent-IsKept request late s fresh kept =
      let entry : PendingProviderResponse = record {
        ticket = s.next_ticket;
        response_started = false;
        resolved = false;
        finished = false;
        watched = not late;
      } in
      ground (
        arith,
        total-insert-none (unstarted t) request.request_id entry s.pending_provider_responses fresh,
        total-insert-none (unresolved t) request.request_id entry s.pending_provider_responses
            fresh,
        total-insert-none over request.request_id entry s.pending_provider_responses fresh,
      )

  start_found_IsKept :
      (k : String) (status : ℕ) (headers : List (String × String)) (s : WorkerHost P)
      (p : PendingProviderResponse)
      → lookup k s.pending_provider_responses ≡ some p
      → IsKept t s
      → IsKept t (start_provider_response k status headers s)
  unfolding start_provider_response
  start_found_IsKept k status headers s p e kept =
      let m = s.pending_provider_responses in
      let built : PendingProviderResponse = record p { response_started = true; resolved = true } in
      let unbuilt : PendingProviderResponse = record p { response_started = true } in
      ground (
        arith,
        settled_one s p.ticket (responded status headers),
        failures-append t s.unbuilt p.ticket,
        total-insert-some (unstarted t) k built p m e,
        total-insert-some (unresolved t) k built p m e,
        total-insert-some over k built p m e,
        total-insert-some (unstarted t) k unbuilt p m e,
        total-insert-some (unresolved t) k unbuilt p m e,
        total-insert-some over k unbuilt p m e,
      )

  -- The start of a response settles its promise, once, or shows that it cannot be built.
  pub start_provider_response-IsKept :
      (k : String) (status : ℕ) (headers : List (String × String)) (s : WorkerHost P)
      → IsKept t s
      → IsKept t (start_provider_response k status headers s)
  start_provider_response-IsKept k status headers s kept =
      elim (Option-cases (lookup k s.pending_provider_responses)) [
        | inl e ↦ unfold start_provider_response in rw e kept
        | inr (p, e) ↦ start_found_IsKept k status headers s p e kept
      ]

  pub push_provider_chunk-IsKept :
      (k body : String) (s : WorkerHost P) → IsKept t s → IsKept t (push_provider_chunk k body s)
  unfolding push_provider_chunk
  push_provider_chunk-IsKept k body s kept = ground arith

  end_found-IsKept :
      (k : String) (ending : StreamEvent) (error : Thrown) (s : WorkerHost P)
      → IsKept t s
      → IsKept t (end_found k ending error (lookup k s.pending_provider_responses) s)
  unfolding end_found
  end_found-IsKept k ending error s kept =
      elim (Option-cases (lookup k s.pending_provider_responses)) [
        | inl e ↦ rw e kept
        | inr (p, e) ↦ ground (
          arith,
          settled_one s p.ticket (rejected error),
          total-delete_first (unstarted t) k p s.pending_provider_responses e,
          total-delete_first (unresolved t) k p s.pending_provider_responses e,
          total-delete_first over k p s.pending_provider_responses e,
        )
      ]

  pub finish_provider_response-IsKept :
      (k : String) (s : WorkerHost P) → IsKept t s → IsKept t (finish_provider_response k s)
  finish_provider_response-IsKept k s kept =
      unfold finish_provider_response in end_found-IsKept k _ _ s kept

  pub fail_provider_response-IsKept :
      (k : String) (error : Thrown) (s : WorkerHost P)
      → IsKept t s
      → IsKept t (fail_provider_response k error s)
  fail_provider_response-IsKept k error s kept =
      unfold fail_provider_response in end_found-IsKept k _ error s kept

  pub provider_aborted-IsKept :
      (k reason : String) (s : WorkerHost P) → IsKept t s → IsKept t (provider_aborted k reason s)
  unfolding provider_aborted
  provider_aborted-IsKept k reason s kept =
      let t' : WorkerHost P = send (provider_cancel k) s in
      ground (arith, fail_provider_response-IsKept k (abort_error reason) t' kept)

  pub stream_cancelled-IsKept :
      (k : String) (s : WorkerHost P)
      → ((p : PendingProviderResponse)
          → lookup k s.pending_provider_responses ≡ some p
          → p.resolved ≡ true)
      → IsKept t s
      → IsKept t (stream_cancelled k s)
  unfolding stream_cancelled
  stream_cancelled-IsKept k s begun kept =
      elim (Option-cases (lookup k s.pending_provider_responses)) [
        | inl e ↦ rw e kept
        | inr (p, e) ↦ ground (
          arith,
          begun p e,
          total-delete_first (unstarted t) k p s.pending_provider_responses e,
          total-delete_first (unresolved t) k p s.pending_provider_responses e,
          total-delete_first over k p s.pending_provider_responses e,
        )
      ]

  pub fail_each-IsKept :
      (error : Thrown) (m : List (String × PendingProviderResponse)) (s : WorkerHost P)
      → IsKept t s
      → IsKept t (fail_each error m s)
  unfolding fail_each
  fail_each-IsKept error [] s kept = kept
  fail_each-IsKept error ((k, p) ∷ m) s kept =
      fail_each-IsKept error m (fail_provider_response k error s)
        (fail_provider_response-IsKept k error s kept)
