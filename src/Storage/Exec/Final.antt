-- ===== src/Storage/Exec/Final.antt =====
-- The end of calls of `exec`, storage/client.go.
use azure_sdk_for_go.Common.{
  [], ◌∷◌, Option, ◌⊎◌, inl, inr, ◌≢◌, refl, Sum-cases, Option-cases, Bool-cases, leb, ◌&&◌,
}
use azure_sdk_for_go.Common.Text.{Text}
use azure_sdk_for_go.Go.{
  Result, ok, err, panic, stuck, History, Headers, Reply, failed, replied, Response, proceed, Call,
}
use azure_sdk_for_go.Storage.{GoError, StorageClient, Env}
use azure_sdk_for_go.Storage.Canonical.{get_authorization_header}
use azure_sdk_for_go.Storage.Exec.{exec, receive, error_response}

-- The call came to an end within the fuel.
abbrev pub IsFinal : {A : Type 0} → Result GoError A → Type 0
IsFinal r = r ≢ stuck

pub ok-IsFinal : {A : Type 0} {a : A} → ◌≢◌ {A = Result GoError A} (ok a) stuck
ok-IsFinal p = cc

pub err-IsFinal : {A : Type 0} {e : GoError} → ◌≢◌ {A = Result GoError A} (err e) stuck
err-IsFinal p = cc

pub panic-IsFinal : {A : Type 0} → ◌≢◌ {A = Result GoError A} panic stuck
panic-IsFinal p = cc

pub proceed-IsFinal :
    {A B : Type 0} (p : Result GoError A × History) (k : A → Call GoError B)
    → IsFinal p.0
    → ((a : A) (h : History) → IsFinal (k a h).0)
    → IsFinal (proceed p k).0
proceed-IsFinal (ok a, h) k f g = g a h
proceed-IsFinal (err e, h) k f g = err-IsFinal
proceed-IsFinal (panic, h) k f g = panic-IsFinal
proceed-IsFinal (stuck, h) k f g = absurd (f refl)

error_response-IsFinal :
    (env : Env) (resp : Response GoError) (read : GoError ⊎ Text)
    → IsFinal (error_response env resp read)
unfolding error_response
error_response-IsFinal env resp (inl e) = err-IsFinal
error_response-IsFinal env resp (inr []) = ok-IsFinal
error_response-IsFinal env resp (inr (x ∷ xs)) = ok-IsFinal

receive-IsFinal : (env : Env) (r : Reply GoError) → IsFinal (receive env r)
unfolding receive
receive-IsFinal env (failed e) = err-IsFinal
receive-IsFinal env (replied resp) =
    elim (Bool-cases (leb 400 resp.status && leb resp.status 505)) [
      | inl t ↦ rw t (error_response-IsFinal env resp _)
      | inr t ↦ rw t ok-IsFinal
    ]

module _ (env : Env) (c : StorageClient) where
  pub exec-IsFinal :
      (verb url : Text) (headers : Headers) (body : Option Text) (h : History)
      → IsFinal (exec env c verb url headers body h).0
  unfolding exec
  exec-IsFinal verb url headers body h =
      elim (Sum-cases (get_authorization_header env c verb url headers)) [
        | inl (x, a) ↦ rw (a, exec) err-IsFinal
        | inr (auth, a) ↦ elim (Option-cases (env.new_request verb url)) [
          | inl n ↦ rw (a, n, exec) (receive-IsFinal env _)
          | inr (x, n) ↦ rw (a, n, exec) panic-IsFinal
        ]
      ]
