-- ===== src/Management/Subscription/Command.antt =====
-- When `executeCommand` of management/util.go panics.
use azure_sdk_for_go.Common.{
  List, [], ◌∷◌, Option, ◌⊎◌, inl, inr, true, ◌≡◌, ◌≢◌, ◌↔◌, refl, All, Bool-cases,
}
use azure_sdk_for_go.Common.Text.{Text, fields, scan_runs, with_run, is_space}
use azure_sdk_for_go.Go.{Result, err, panic}
use azure_sdk_for_go.Management.{GoError}
use azure_sdk_for_go.Management.Subscription.{Tools, of_sum, run_parts, execute_command}

-- A text without fields is white space.
blank : (s : Text) → with_run (scan_runs s) ≡ [] → All (λ c. is_space c ≡ true) s
unfolding scan_runs
blank [] e = tt
blank (c ∷ cs) e = elim (Bool-cases (is_space c)) [
  | inl t ↦ (t, blank cs (rw t at e))
  | inr t ↦ absurd (cons-ne-nil (rw t at e))
]
  where
    cons-ne-nil : {x : Text} {xs : List Text} → x ∷ xs ≢ []
    cons-ne-nil q = cc

no_fields : (s : Text) → All (λ c. is_space c ≡ true) s → with_run (scan_runs s) ≡ []
unfolding scan_runs
no_fields [] a = refl
no_fields (c ∷ cs) (t, a) = rw t (no_fields cs a)

of_sum-ne-panic : {A : Type 0} (r : GoError ⊎ A) → of_sum r ≢ panic
of_sum-ne-panic (inl e) q = cc
of_sum-ne-panic (inr a) q = cc

run_parts-panic :
    (tools : Tools) (parts : List Text) (input : Option Text)
    → run_parts tools parts input ≡ panic
    → parts ≡ []
run_parts-panic tools [] input e = refl
run_parts-panic tools (head ∷ parts) input e =
    absurd (of_sum-ne-panic (tools.run head parts input) e)

-- `executeCommand` panics exactly on a command that is not empty and is all white space.
pub execute_command_panics_iff :
    (tools : Tools) (command : Text) (input : Option Text)
    → (execute_command tools command input ≡ panic)
      ↔ ((command ≢ []) × All (λ c. is_space c ≡ true) command)
unfolding execute_command fields
execute_command_panics_iff tools [] input =
    (λ e. absurd (err-ne-panic e), λ (n, a). absurd (n refl))
  where
    err-ne-panic : {e : GoError} → ◌≡◌ {A = Result GoError Text} (err e) panic → ⊥
    err-ne-panic q = cc
execute_command_panics_iff tools (c ∷ cs) input = (
  λ e. (λ q. cc, blank (c ∷ cs) (run_parts-panic tools (fields (c ∷ cs)) input e)),
  λ (n, a). rw (no_fields (c ∷ cs) a) refl,
)
