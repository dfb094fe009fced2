-- ===== src/Storage/Copy/Wait.antt =====
-- The wait of `CopyBlob`, storage/blob.go.
use azure_sdk_for_go.Common.{
  ℕ, zero, suc, ◌+◌, some, none, inl, inr, ◌≡◌, ◌≢◌, sym, ap, subst, ◌∙◌, arith, Option-cases,
}
use azure_sdk_for_go.Common.Text.{Text}
use azure_sdk_for_go.Go.{
  Result, ok, History, Outcome-cases, Result-cases, same_result, same_history, stuck-ne-ok,
  proceed_ok,
}
use azure_sdk_for_go.Storage.{GoError, StorageClient, Env}
use azure_sdk_for_go.Storage.Blob.{BlobProperties, get_blob_properties}
use azure_sdk_for_go.Storage.Copy.{judge_copy, start_blob_copy, wait_for_blob_copy, copy_blob}
use azure_sdk_for_go.Storage.Copy.Judged.{
  IsDone, IsPending, Verdict, judge_copy-IsDone, judge_copy-IsPending, judge_copy_of_IsPending,
  judge_copy-Verdict,
}

module _ (env : Env) (c : StorageClient) (container name copy_id : Text) where
  abbrev report : History → Result GoError BlobProperties × History
  report = get_blob_properties env c container name

  -- `k` reports of a pending copy led from one history to the other.
  pub data Pending : ℕ → History → History → Type 0 where
    start : {h : History} → Pending zero h h
    next :
        {k : ℕ} {h g h' : History} {props : BlobProperties}
        → get_blob_properties env c container name h ≡ (ok props, g)
        → IsPending copy_id props
        → Pending k g h'
        → Pending (suc k) h h'

  wait_next :
      (fuel : ℕ) (h : History) {g : History} {props : BlobProperties}
      → report h ≡ (ok props, g)
      → judge_copy copy_id props ≡ none
      → wait_for_blob_copy env c container name copy_id (suc fuel) h
        ≡ wait_for_blob_copy env c container name copy_id fuel g
  unfolding wait_for_blob_copy
  wait_next fuel h e j = ground arith

  wait_last :
      (fuel : ℕ) (h : History) {g : History} {props : BlobProperties}
      {outcome : Result GoError (Unit {0})}
      → report h ≡ (ok props, g)
      → judge_copy copy_id props ≡ some outcome
      → wait_for_blob_copy env c container name copy_id (suc fuel) h ≡ (outcome, g)
  unfolding wait_for_blob_copy
  wait_last fuel h e j = ground arith

  wait-Pending :
      {k : ℕ} {h h' : History} (n : ℕ)
      → Pending k h h'
      → wait_for_blob_copy env c container name copy_id (k + n) h
        ≡ wait_for_blob_copy env c container name copy_id n h'
  wait-Pending n start =
      ap (λ (m : ℕ). wait_for_blob_copy env c container name copy_id m _) (omega arith)
  wait-Pending n (next {k} {h} {props = props} e p t) =
      ap (λ (m : ℕ). wait_for_blob_copy env c container name copy_id m h) (omega arith)
      ∙ wait_next (k + n) h e (judge_copy_of_IsPending copy_id props p)
      ∙ wait-Pending n t

  -- If the service reports the copy as pending `k` times and then anything else, then with any fuel
  -- above `k` the wait ends there: with a mismatch if the blob's copy has another id, with no error if
  -- the copy is done, with its own error if it was aborted, and with an error for every other status.
  pub wait_for_blob_copy_ends :
      {k : ℕ} {h h' g : History} {props : BlobProperties} (n : ℕ)
      → Pending k h h'
      → get_blob_properties env c container name h' ≡ (ok props, g)
      → ¬ IsPending copy_id props
      → (outcome : Result GoError (Unit {0})) × (wait_for_blob_copy env c container name copy_id
            (k + suc n)
            h
          ≡ (outcome, g))
        × Verdict copy_id props outcome
  wait_for_blob_copy_ends {h' = h'} {props = props} n p e np =
      let (outcome, j, v) = judge_copy-Verdict copy_id props np in
      (outcome, wait-Pending (suc n) p ∙ wait_last n h' e j, v)

  -- What stands behind a wait that returns no error.
  pub record Copied (h h' : History) : Type 0 where
    pub polls : ℕ
    pub before : History
    pub props : BlobProperties
    pub pending : Pending polls h before
    pub reported : get_blob_properties env c container name before ≡ (ok props, h')
    pub done : IsDone copy_id props

  Copied-next :
      {h g h' : History} {props : BlobProperties}
      → report h ≡ (ok props, g)
      → IsPending copy_id props
      → Copied g h'
      → Copied h h'
  Copied-next e p d = record {
    polls = suc d.polls;
    before = d.before;
    props = d.props;
    pending = next e p d.pending;
    reported = d.reported;
    done = d.done;
  }

  Copied-here :
      {h g h' : History} {props : BlobProperties} {outcome : Result GoError (Unit {0})}
      → report h ≡ (ok props, g)
      → judge_copy copy_id props ≡ some outcome
      → ◌≡◌ {A = Result GoError (Unit {0}) × History} (outcome, g) (ok tt, h')
      → Copied h h'
  Copied-here {h} {props = props} e j q = record {
    polls = zero;
    before = h;
    props = props;
    pending = start;
    reported = e ∙ ap (λ (t : History). (ok props, t)) (same_history q);
    done = judge_copy-IsDone copy_id props (j ∙ ap some (same_result q));
  }

  wait_not_ok :
      (fuel : ℕ) (h : History)
      → ((props : BlobProperties) → (report h).0 ≢ ok props)
      → (wait_for_blob_copy env c container name copy_id (suc fuel) h).0 ≢ ok tt
  unfolding wait_for_blob_copy
  wait_not_ok fuel h bad = elim (Result-cases (report h).0) [
    | inl (p, e) ↦ absurd (bad p e)
    | inr (inl (y, e)) ↦ rw (e, wait_for_blob_copy) (λ p. cc)
    | inr (inr (inl e)) ↦ rw (e, wait_for_blob_copy) (λ p. cc)
    | inr (inr (inr e)) ↦ rw (e, wait_for_blob_copy) (λ p. cc)
  ]

  -- If the wait returns no error, then its last report was that the copy with the given id is done,
  -- and each report before it that this copy is pending.
  pub wait_for_blob_copy-Copied :
      (fuel : ℕ) (h h' : History)
      → wait_for_blob_copy env c container name copy_id fuel h ≡ (ok tt, h')
      → Copied h h'
  wait_for_blob_copy-Copied zero h h' e =
      absurd (unfold wait_for_blob_copy in stuck-ne-ok (same_result e))
  wait_for_blob_copy-Copied (suc fuel) h h' e = elim (Outcome-cases (report h)) [
    | inr bad ↦ absurd (wait_not_ok fuel h bad (same_result e))
    | inl (props, (g, p)) ↦ elim (Option-cases (judge_copy copy_id props)) [
      | inl j ↦
          Copied-next p (judge_copy-IsPending copy_id props j)
            (wait_for_blob_copy-Copied fuel g h' (sym (wait_next fuel h p j) ∙ e))
      | inr (o, j) ↦ Copied-here p j (sym (wait_last fuel h p j) ∙ e)
    ]
  ]

-- If `CopyBlob` returns no error, then the service gave the copy an id, and reported at last that the
-- copy with this id is done.
pub copy_blob-Copied :
    (env : Env) (c : StorageClient) (fuel : ℕ) (container name source_blob : Text) (h h' : History)
    → copy_blob env c fuel container name source_blob h ≡ (ok tt, h')
    → (copy_id : Text) × ((start_blob_copy env c container name source_blob h).0 ≡ ok copy_id)
      × Copied env c container name copy_id
          (start_blob_copy env c container name source_blob h).1
          h'
unfolding copy_blob
copy_blob-Copied env c fuel container name source_blob h h' e =
    elim (Outcome-cases (start_blob_copy env c container name source_blob h)) [
      | inl (copy_id, (g, s)) ↦ (
        copy_id,
        same_result s,
        subst (λ t. Copied env c container name copy_id t h') (sym (same_history s))
            (wait_for_blob_copy-Copied env c container name copy_id fuel g h'
              (rw (s, copy_blob) at e)),
      )
      | inr bad ↦
          let (copy_id, s, _) =
            proceed_ok (start_blob_copy env c container name source_blob h)
              (λ id. wait_for_blob_copy env c container name id fuel) (same_result e) in
          absurd (bad copy_id s)
    ]
