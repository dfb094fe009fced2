-- ===== src/Management/Operations/Polling.antt =====
-- The loop of `WaitAsyncOperation` of management/operations.go.
use azure_sdk_for_go.Common.{
  ℕ, zero, suc, ◌+◌, ◌≤◌, [], ◌++◌, none, inl, inr, Bool, true, false, ◌≡◌, ◌≢◌, sym, ap, ◌∙◌,
  arith, replicate, append-nil, Bool-cases,
}
use azure_sdk_for_go.Common.Text.{Text, codes, is_empty, eq, eq_iff, Text-cases}
use azure_sdk_for_go.Go.{
  Result, ok, err, Request, sent, slept, History, ◌▷◌, Outcome-cases, Result-cases, lift-history,
  same_result, same_history, err-ne-ok, stuck-ne-ok,
}
use azure_sdk_for_go.Management.Http.{create_azure_request, send_azure_get_request}
use azure_sdk_for_go.Management.Http.Requests.{send_azure_get_request-history}
use azure_sdk_for_go.Management.{GoError, Client, Env, Operation}
use azure_sdk_for_go.Management.Operations.{
  get_operation_status, operation_failed, in_progress, conclude, poll, wait_async_operation,
}

abbrev failed_status : Text
failed_status = codes "Failed"

conclude_failed :
    (id : Text) (op : Operation)
    → op.status ≡ failed_status
    → conclude id op ≡ err (operation_failed id op)
unfolding conclude
conclude_failed id op h = ground (arith, eq_iff op.status failed_status)

conclude_other : (id : Text) (op : Operation) → op.status ≢ failed_status → conclude id op ≡ ok tt
unfolding conclude
conclude_other id op h = ground (arith, eq_iff op.status failed_status)

differ : {b : Bool} → b ≡ false → b ≡ true → ⊥
differ p q = cc

-- What the last status of an operation makes of the wait.
pub data Conclusion (id : Text) (op : Operation) (outcome : Result GoError (Unit {0}))
    : Type 0 where
  with_error :
      op.status ≡ codes "Failed" → outcome ≡ err (operation_failed id op) → Conclusion id op outcome
  with_success : op.status ≢ codes "Failed" → outcome ≡ ok tt → Conclusion id op outcome

conclude-Conclusion : (id : Text) (op : Operation) → Conclusion id op (conclude id op)
conclude-Conclusion id op = elim (Bool-cases (eq op.status failed_status)) [
  | inl t ↦ let f = (eq_iff op.status failed_status).0 t in with_error f (conclude_failed id op f)
  | inr t ↦
      let f : op.status ≢ failed_status = λ x. differ t ((eq_iff op.status failed_status).1 x) in
      with_success f (conclude_other id op f)
]

module _ (env : Env) (client : Client) (id : Text) where
  abbrev status_at : History → Result GoError Operation × History
  status_at h = get_operation_status env client id (h ▷ slept 2000)

  -- `k` polls that each found the operation in progress led from one history to the other.
  pub data Running : ℕ → History → History → Type 0 where
    start : {h : History} → Running zero h h
    next :
        {k : ℕ} {h g h' : History} {op : Operation}
        → get_operation_status env client id (h ▷ slept 2000) ≡ (ok op, g)
        → op.status ≡ in_progress
        → Running k g h'
        → Running (suc k) h h'

  poll_next :
      (fuel : ℕ) (h : History) {g : History} {op : Operation}
      → status_at h ≡ (ok op, g)
      → op.status ≡ in_progress
      → poll env client id (suc fuel) h ≡ poll env client id fuel g
  unfolding poll
  poll_next fuel h {op} e s = ground (arith, eq_iff op.status in_progress)

  poll_last :
      (fuel : ℕ) (h : History) {g : History} {op : Operation}
      → status_at h ≡ (ok op, g)
      → op.status ≢ in_progress
      → poll env client id (suc fuel) h ≡ (conclude id op, g)
  unfolding poll
  poll_last fuel h {op} e s = ground (arith, eq_iff op.status in_progress)

  poll-Running :
      {k : ℕ} {h h' : History} (n : ℕ)
      → Running k h h'
      → poll env client id (k + n) h ≡ poll env client id n h'
  poll-Running n start = ap (λ (m : ℕ). poll env client id m _) (omega arith)
  poll-Running n (next {k} {h} e s r) =
      ap (λ (m : ℕ). poll env client id m h) (omega arith)
      ∙ poll_next (k + n) h e s
      ∙ poll-Running n r

  wait_polls :
      (fuel : ℕ) (h : History)
      → id ≢ []
      → wait_async_operation env client fuel id h ≡ poll env client id fuel h
  unfolding wait_async_operation
  wait_polls fuel h ne = elim (Text-cases id) [
    | inl e ↦ absurd (ne e)
    | inr (c, (cs, e)) ↦ rw (e, wait_async_operation)
  ]

  -- If the operation is found in progress `k` times, and then with another status, then with any
  -- fuel above `k` the call ends there: with the operation's error if the status is "Failed", and
  -- with no error otherwise.
  pub wait_async_operation_ends :
      {k : ℕ} {h h' g : History} {op : Operation} (n : ℕ)
      → id ≢ []
      → Running k h h'
      → get_operation_status env client id (h' ▷ slept 2000) ≡ (ok op, g)
      → op.status ≢ in_progress
      → (outcome : Result GoError (Unit {0})) × (wait_async_operation env client (k + suc n) id h
          ≡ (outcome, g))
        × Conclusion id op outcome
  wait_async_operation_ends {k} {h} {h'} {g} {op} n ne r e s = (
    conclude id op,
    wait_polls (k + suc n) h ne ∙ poll-Running (suc n) r ∙ poll_last n h' e s,
    conclude-Conclusion id op,
  )

  -- The state in which a wait that returned no error has left its loop.
  pub record Ended (h g : History) : Type 0 where
    pub polls : ℕ
    pub before : History
    pub operation : Operation
    pub running : Running polls h before
    pub last_poll : get_operation_status env client id (before ▷ slept 2000) ≡ (ok operation, g)
    pub not_in_progress : operation.status ≢ in_progress
    pub not_failed : operation.status ≢ failed_status

  Ended-next :
      {h g h' : History} {op : Operation}
      → status_at h ≡ (ok op, g)
      → op.status ≡ in_progress
      → Ended g h'
      → Ended h h'
  Ended-next e s d = record {
    polls = suc d.polls;
    before = d.before;
    operation = d.operation;
    running = next e s d.running;
    last_poll = d.last_poll;
    not_in_progress = d.not_in_progress;
    not_failed = d.not_failed;
  }

  Ended-here :
      {h f g : History} {op : Operation}
      → status_at h ≡ (ok op, f)
      → op.status ≢ in_progress
      → ◌≡◌ {A = Result GoError (Unit {0}) × History} (conclude id op, f) (ok tt, g)
      → Ended h g
  unfolding conclude
  Ended-here {h} {f} {g} {op} e s c = record {
    polls = zero;
    before = h;
    operation = op;
    running = start;
    last_poll = e ∙ ap (λ (t : History). (ok op, t)) (same_history c);
    not_in_progress = s;
    not_failed = λ x. err-ne-ok (sym (conclude_failed id op x) ∙ same_result c);
  }

  poll_not_ok :
      (fuel : ℕ) (h : History)
      → ((op : Operation) → (status_at h).0 ≢ ok op)
      → (poll env client id (suc fuel) h).0 ≢ ok tt
  unfolding poll
  poll_not_ok fuel h bad = elim (Result-cases (status_at h).0) [
    | inl (op, e) ↦ absurd (bad op e)
    | inr (inl (x, e)) ↦ rw (e, poll) (λ p. cc)
    | inr (inr (inl e)) ↦ rw (e, poll) (λ p. cc)
    | inr (inr (inr e)) ↦ rw (e, poll) (λ p. cc)
  ]

  poll-Ended : (fuel : ℕ) (h g : History) → poll env client id fuel h ≡ (ok tt, g) → Ended h g
  poll-Ended zero h g p = absurd (unfold poll in stuck-ne-ok (same_result p))
  poll-Ended (suc fuel) h g p = elim (Outcome-cases (status_at h)) [
    | inr bad ↦ absurd (poll_not_ok fuel h bad (same_result p))
    | inl (op, (f, e)) ↦ elim (Bool-cases (eq op.status in_progress)) [
      | inl same ↦
          let s = (eq_iff op.status in_progress).0 same in
          Ended-next e s (poll-Ended fuel f g (sym (poll_next fuel h e s) ∙ p))
      | inr other ↦
          let s : op.status ≢ in_progress =
            λ x. differ other ((eq_iff op.status in_progress).1 x) in
          Ended-here e s (sym (poll_last fuel h e s) ∙ p)
    ]
  ]

  -- If the call returns no error, then its last poll found the operation with a status that is
  -- neither "InProgress" nor "Failed", and every poll before it found it in progress.
  pub wait_async_operation_ok :
      (fuel : ℕ) (h g : History)
      → wait_async_operation env client fuel id h ≡ (ok tt, g)
      → Ended h g
  unfolding wait_async_operation
  wait_async_operation_ok fuel h g p = elim (Text-cases id) [
    | inl e ↦ absurd (err-ne-ok (rw (e, wait_async_operation) at (same_result p)))
    | inr (c, (cs, e)) ↦ poll-Ended fuel h g (sym (wait_polls fuel h (λ n. cc)) ∙ p)
  ]

  -- Pauses of two seconds, each followed by at most eight copies of one request.
  pub data Paced (q : Request) (h : History) : History → Type 0 where
    none_yet : Paced q h h
    poll_after :
        {g h' : History} (k : ℕ)
        → Paced q h g
        → k ≤ 8
        → h' ≡ (g ▷ slept 2000) ++ replicate k (sent q)
        → Paced q h h'

  status_at-history :
      (h : History) {q : Request}
      → create_azure_request env client (codes "operations/" ++ id) (codes "GET") [] none ≡ inr q
      → (k : ℕ) × (k ≤ 8) × ((status_at h).1 ≡ (h ▷ slept 2000) ++ replicate k (sent q))
  unfolding get_operation_status
  status_at-history h c = elim (Bool-cases (is_empty id)) [
    | inl u ↦ rw (u, get_operation_status) (0, omega arith, sym (append-nil (h ▷ slept 2000)))
    | inr u ↦
        rw (u, get_operation_status)
          (rw
            (lift-history
              (send_azure_get_request env client (codes "operations/" ++ id) (h ▷ slept 2000))
              env.unmarshal_operation)
            (send_azure_get_request-history env client (codes "operations/" ++ id) (h ▷ slept 2000)
              c))
  ]

  poll-Paced_step :
      (fuel : ℕ) (h₀ h : History) {q : Request}
      → Paced q h₀ (status_at h).1
      → (Paced q h₀ (status_at h).1 → Paced q h₀ (poll env client id fuel (status_at h).1).1)
      → Paced q h₀ (poll env client id (suc fuel) h).1
  unfolding poll
  poll-Paced_step fuel h₀ h p later = elim (Result-cases (status_at h).0) [
    | inl (op, e) ↦ elim (Bool-cases (eq op.status in_progress)) [
      | inl s ↦ rw (e, poll) (rw s (later p))
      | inr s ↦ rw (e, poll) (rw s p)
    ]
    | inr (inl (x, e)) ↦ rw (e, poll) p
    | inr (inr (inl e)) ↦ rw (e, poll) p
    | inr (inr (inr e)) ↦ rw (e, poll) p
  ]

  poll-Paced :
      (fuel : ℕ) (h₀ h : History) {q : Request}
      → create_azure_request env client (codes "operations/" ++ id) (codes "GET") [] none ≡ inr q
      → Paced q h₀ h
      → Paced q h₀ (poll env client id fuel h).1
  poll-Paced zero h₀ h c p = unfold poll in p
  poll-Paced (suc fuel) h₀ h c p =
      let (k, most, e) = status_at-history h c in
      poll-Paced_step fuel h₀ h (poll_after k p most e) (poll-Paced fuel h₀ (status_at h).1 c)

  -- Whatever the service answers and however long the wait, what it adds to the history is a
  -- sequence of pauses of 2000 ms, each followed by at most eight copies of the request for the
  -- operation's status.
  pub wait_async_operation-Paced :
      (fuel : ℕ) (h : History) {q : Request}
      → create_azure_request env client (codes "operations/" ++ id) (codes "GET") [] none ≡ inr q
      → Paced q h (wait_async_operation env client fuel id h).1
  unfolding wait_async_operation
  wait_async_operation-Paced fuel h c = elim (Bool-cases (is_empty id)) [
    | inl u ↦ rw (u, wait_async_operation) none_yet
    | inr u ↦ rw (u, wait_async_operation) (poll-Paced fuel h h c none_yet)
  ]
