-- ===== src/Worker/Tickets.antt =====
-- The places of a promise that packages/agent-runtime-worker/src/AgentWorkerHost.ts makes: it waits
-- in one of the four maps, or it is settled.
pub mod Replies
pub mod Provider
pub mod Kept
use my_note_book.Base.{
  ℕ, zero, suc, ◌+◌, ◌≤◌, String, Bool, true, false, Option, none, some, List, [], ◌∷◌, ◌++◌, ◌≡◌,
  refl, sym, ap, ◌∙◌, ◌==◌, arith, if◌then◌else◌, nat_eq, ltb, Bool-cases, Option-cases, inl, inr,
  lookup, insert, is_some,
}
use my_note_book.Worker.Messages.{Thrown}
use my_note_book.Worker.Host.{
  Signal, aborted, no_signal, live, PendingHostReply, PendingProviderResponse, Settlement,
  WorkerHost,
}
use my_note_book.Worker.Replies.{
  delete_first, Channel, tools, authorizations, tool_records, pending_of, wait_for_host_reply,
  resolve_pending, reply_aborted, reject_each, reject_replies,
}

-- 1 for the ticket itself.
abbrev pub here : ℕ → ℕ → ℕ
here t n = if nat_eq n t then 1 else 0

module _ {ℓ} {V : Type ℓ} (w : V → ℕ) where
  unfoldable pub total : List (String × V) → ℕ
  total [] = 0
  total ((k, v) ∷ m) = w v + total m

  pub total-insert-none :
      (k : String) (v : V) (m : List (String × V))
      → lookup k m ≡ none
      → total (insert k v m) ≡ w v + total m
  unfolding total lookup insert
  total-insert-none k v [] e = refl
  total-insert-none k v ((j, u) ∷ m) e = ground (arith, total-insert-none k v m)

  pub total-insert-some :
      (k : String) (v u : V) (m : List (String × V))
      → lookup k m ≡ some u
      → total (insert k v m) + w u ≡ w v + total m
  unfolding total lookup insert
  total-insert-some k v u [] e = ground arith
  total-insert-some k v u ((j, x) ∷ m) e = ground (arith, total-insert-some k v u m)

  pub total-delete_first :
      (k : String) (u : V) (m : List (String × V))
      → lookup k m ≡ some u
      → w u + total (delete_first k m) ≡ total m
  unfolding total lookup delete_first
  total-delete_first k u [] e = ground arith
  total-delete_first k u ((j, x) ∷ m) e = ground (arith, total-delete_first k u m)

-- 1 for an entry that cannot be in the map: a response that was ended, or one whose promise is
-- resolved although it was not started.
abbrev pub over : PendingProviderResponse → ℕ
over pending =
    if pending.finished
    then 1
    else if pending.response_started
    then 0
    else if pending.resolved
    then 1
    else 0

module _ (t : ℕ) where
  -- How often the promise stands in a list of settlements, waits for a reply, stands in a response
  -- unresolved, waits for the start of a response, and had a response that could not be built.
  unfoldable pub settlements : {P : Type 0} → List (ℕ × Settlement P) → ℕ
  settlements [] = 0
  settlements ((n, settlement) ∷ l) = here t n + settlements l

  abbrev pub waiting : PendingHostReply → ℕ
  waiting reply = here t reply.ticket

  abbrev pub unstarted : PendingProviderResponse → ℕ
  unstarted pending = if pending.response_started then 0 else here t pending.ticket

  abbrev pub unresolved : PendingProviderResponse → ℕ
  unresolved pending = if pending.resolved then 0 else here t pending.ticket

  unfoldable pub failures : List ℕ → ℕ
  failures [] = 0
  failures (n ∷ l) = here t n + failures l

  pub failures-append : (l : List ℕ) (n : ℕ) → failures (l ++ n ∷ []) ≡ failures l + here t n
  unfolding failures
  failures-append [] n = omega arith
  failures-append (x ∷ l) n = omega (arith, failures-append l n)

  settlements-append :
      {P : Type 0} (l r : List (ℕ × Settlement P))
      → settlements (l ++ r) ≡ settlements l + settlements r
  unfolding settlements
  settlements-append [] r = omega arith
  settlements-append (x ∷ l) r = omega (arith, settlements-append l r)

  pub settlements-settle :
      {P : Type 0} (l : List (ℕ × Settlement P)) (n : ℕ) (x : Settlement P)
      → settlements (l ++ (n, x) ∷ []) ≡ settlements l + here t n
  settlements-settle l n x = unfold settlements in omega (arith, settlements-append l ((n, x) ∷ []))

  -- The promise's settlements, and the places in which it waits for a reply.
  abbrev pub replies : {P : Type 0} → WorkerHost P → ℕ
  replies s =
      settlements s.settled
      + total waiting s.pending_tools
      + total waiting s.pending_authorizations
      + total waiting s.pending_tool_records

  -- The number of places in which the promise is.
  abbrev pub places : {P : Type 0} → WorkerHost P → ℕ
  places s = replies s + total unresolved s.pending_provider_responses

  -- A promise that has been made is at most in one place, and a ticket that is still to come in
  -- none. A promise that is neither settled nor waits for a reply or for the start of a response is
  -- one for which `new Response` has thrown. And no entry is `over`.
  abbrev pub IsKept : {P : Type 0} → WorkerHost P → Type 0
  IsKept s =
      (places s ≤ (if ltb t s.next_ticket then 1 else 0))
      × ((if ltb t s.next_ticket then 1 else 0)
          ≤ replies s + total unstarted s.pending_provider_responses + failures s.unbuilt)
      × (total over s.pending_provider_responses ≡ 0)
