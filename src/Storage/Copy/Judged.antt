-- ===== src/Storage/Copy/Judged.antt =====
-- One round of the wait of `CopyBlob`, storage/blob.go: what each report of the service makes of it.
use azure_sdk_for_go.Common.{
  some, none, inl, inr, Bool, true, false, ◌≡◌, ◌≢◌, sym, ap, ◌∙◌, arith, Option-cases, Bool-cases,
}
use azure_sdk_for_go.Common.Text.{Text, codes, eq, eq_iff}
use azure_sdk_for_go.Go.{Result, ok, err, panic, stuck, Result-cases}
use azure_sdk_for_go.Storage.{GoError, blob_copy_aborted, blob_copy_id_mismatch}
use azure_sdk_for_go.Storage.Blob.{BlobProperties}
use azure_sdk_for_go.Storage.Copy.{judge_copy}

-- A report that the copy with this id is done, or goes on.
abbrev pub IsDone : Text → BlobProperties → Type 0
IsDone copy_id props = (props.copy_id ≡ copy_id) × (props.copy_status ≡ codes "success")

abbrev pub IsPending : Text → BlobProperties → Type 0
IsPending copy_id props = (props.copy_id ≡ copy_id) × (props.copy_status ≡ codes "pending")

pub judge_copy-IsDone :
    (copy_id : Text) (props : BlobProperties)
    → judge_copy copy_id props ≡ some (ok tt)
    → IsDone copy_id props
unfolding judge_copy
judge_copy-IsDone copy_id props e =
    ground (arith, eq_iff props.copy_id copy_id, eq_iff props.copy_status (codes "success"))

pub judge_copy-IsPending :
    (copy_id : Text) (props : BlobProperties)
    → judge_copy copy_id props ≡ none
    → IsPending copy_id props
unfolding judge_copy
judge_copy-IsPending copy_id props e =
    ground (arith, eq_iff props.copy_id copy_id, eq_iff props.copy_status (codes "pending"))

pub judge_copy_of_IsPending :
    (copy_id : Text) (props : BlobProperties)
    → IsPending copy_id props
    → judge_copy copy_id props ≡ none
unfolding judge_copy
judge_copy_of_IsPending copy_id props p = ground (
  arith,
  eq_iff props.copy_id copy_id,
  eq_iff props.copy_status (codes "success"),
  eq_iff props.copy_status (codes "pending"),
)

-- What a report that ends the wait makes of it.
pub data Verdict (copy_id : Text) (props : BlobProperties) (outcome : Result GoError (Unit {0}))
    : Type 0 where
  mismatch :
      props.copy_id ≢ copy_id → outcome ≡ err blob_copy_id_mismatch → Verdict copy_id props outcome
  done : IsDone copy_id props → outcome ≡ ok tt → Verdict copy_id props outcome
  aborted :
      props.copy_id ≡ copy_id
      → props.copy_status ≡ codes "aborted"
      → outcome ≡ err blob_copy_aborted
      → Verdict copy_id props outcome
  otherwise_fails :
      props.copy_id ≡ copy_id
      → props.copy_status ≢ codes "success"
      → props.copy_status ≢ codes "aborted"
      → (e : GoError) → outcome ≡ err e
      → Verdict copy_id props outcome

differ : {b : Bool} → b ≡ false → b ≡ true → ⊥
differ p q = cc

aborted_copy :
    (copy_id : Text) (props : BlobProperties)
    → props.copy_id ≡ copy_id
    → props.copy_status ≡ codes "aborted"
    → judge_copy copy_id props ≡ some (err blob_copy_aborted)
unfolding judge_copy eq
aborted_copy copy_id props i a = ground (arith, eq_iff props.copy_id copy_id)

some_injective : {r s : Result GoError (Unit {0})} → some r ≡ some s → r ≡ s
some_injective e = cc

judge_copy-ne-panic :
    (copy_id : Text) (props : BlobProperties) → judge_copy copy_id props ≢ some panic
unfolding judge_copy
judge_copy-ne-panic copy_id props e = ground arith

judge_copy-ne-stuck :
    (copy_id : Text) (props : BlobProperties) → judge_copy copy_id props ≢ some stuck
unfolding judge_copy
judge_copy-ne-stuck copy_id props e = ground arith

module _ (copy_id : Text) (props : BlobProperties) {o : Result GoError (Unit {0})}
    (j : judge_copy copy_id props ≡ some o) where
  judged_mismatch : props.copy_id ≢ copy_id → o ≡ err blob_copy_id_mismatch
  unfolding judge_copy
  judged_mismatch m = ground (arith, eq_iff props.copy_id copy_id)

  judged_done : IsDone copy_id props → o ≡ ok tt
  unfolding judge_copy
  judged_done d =
      ground (arith, eq_iff props.copy_id copy_id, eq_iff props.copy_status (codes "success"))

  judged_aborted :
      props.copy_id ≡ copy_id → props.copy_status ≡ codes "aborted" → o ≡ err blob_copy_aborted
  judged_aborted i a = some_injective (sym j ∙ aborted_copy copy_id props i a)

  judged_other : props.copy_status ≢ codes "success" → (e : GoError) × (o ≡ err e)
  judged_other s = elim (Result-cases o) [
    | inl (u, e) ↦ absurd (s (judge_copy-IsDone copy_id props (j ∙ ap some e)).1)
    | inr (inl (y, e)) ↦ (y, e)
    | inr (inr (inl e)) ↦ absurd (judge_copy-ne-panic copy_id props (j ∙ ap some e))
    | inr (inr (inr e)) ↦ absurd (judge_copy-ne-stuck copy_id props (j ∙ ap some e))
  ]

module _ (copy_id : Text) (props : BlobProperties) {o : Result GoError (Unit {0})}
    (j : judge_copy copy_id props ≡ some o) where
  judged_same : props.copy_id ≡ copy_id → Verdict copy_id props o
  judged_same i = elim (Bool-cases (eq props.copy_status (codes "success"))) [
    | inl t ↦
        let d : IsDone copy_id props = (i, (eq_iff props.copy_status (codes "success")).0 t) in
        done d (judged_done copy_id props j d)
    | inr t ↦
        let s : props.copy_status ≢ codes "success" =
          λ x. differ t ((eq_iff props.copy_status (codes "success")).1 x) in
        elim (Bool-cases (eq props.copy_status (codes "aborted"))) [
          | inl u ↦
              let a = (eq_iff props.copy_status (codes "aborted")).0 u in
              aborted i a (judged_aborted copy_id props j i a)
          | inr u ↦
              let (e, q) = judged_other copy_id props j s in
              otherwise_fails i s (λ x. differ u ((eq_iff props.copy_status (codes "aborted")).1 x))
                e q
        ]
  ]

  judged-Verdict : Verdict copy_id props o
  judged-Verdict = elim (Bool-cases (eq props.copy_id copy_id)) [
    | inl t ↦ judged_same ((eq_iff props.copy_id copy_id).0 t)
    | inr t ↦
        let m : props.copy_id ≢ copy_id = λ x. differ t ((eq_iff props.copy_id copy_id).1 x) in
        mismatch m (judged_mismatch copy_id props j m)
  ]

pub judge_copy-Verdict :
    (copy_id : Text) (props : BlobProperties)
    → ¬ IsPending copy_id props
    → (outcome : Result GoError (Unit {0})) × (judge_copy copy_id props ≡ some outcome)
      × Verdict copy_id props outcome
judge_copy-Verdict copy_id props np = elim (Option-cases (judge_copy copy_id props)) [
  | inl j ↦ absurd (np (judge_copy-IsPending copy_id props j))
  | inr (o, j) ↦ (o, j, judged-Verdict copy_id props j)
]
