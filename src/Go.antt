-- ===== src/Go.antt =====
-- Go values that the clients share: the outcome of a call, requests and responses of the HTTP
-- packages, and the history of what a client has done to the world.
use azure_sdk_for_go.Common.{
  ℕ, ◌-◌, Bool, true, false, ◌&&◌, leb, ◌==◌, List, [], ◌∷◌, ◌++◌, Option, some, none,
  if◌then◌else◌, ◌⊎◌, inl, inr, ◌≡◌, ◌≢◌, refl, ap, ◌∙◌, arith,
}
use azure_sdk_for_go.Common.Text
use azure_sdk_for_go.Common.Text.{Text}

-- How a call ends. `panic` is a run-time panic; `stuck` is no Go value: a polling loop was still
-- running when the model's fuel was used up.
pub data Result {ℓ} (E A : Type ℓ) : Type ℓ where
  ok : A → Result E A
  err : E → Result E A
  panic : Result E A
  stuck : Result E A

-- A map of header names to their values, as a list of pairs with distinct names.
abbrev pub Headers : Type 0
Headers = List (Text × Text)

abbrev pub HeaderLists : Type 0
HeaderLists = List (Text × List Text)

-- `http.Request`: the pairs are those given to `Header.Add`, in that order.
pub record Request : Type 0 where
  pub verb : Text
  pub url : Text
  pub headers : Headers
  pub body : Option Text

-- `http.Response`. `content_length` is `none` for Go's -1, an unknown length, and `body_error` is
-- the error, if any, with which reading the body ends.
pub record Response (E : Type 0) : Type 0 where
  pub status : ℕ
  pub status_line : Text
  pub header : HeaderLists
  pub content_length : Option ℕ
  pub body : Text
  pub body_error : Option E

-- What `http.Client.Do` returns.
pub data Reply (E : Type 0) : Type 0 where
  failed : E → Reply E
  replied : Response E → Reply E

-- What a client does to the world: a request, or a pause of some milliseconds.
pub data Event : Type 0 where
  sent : Request → Event
  slept : ℕ → Event

abbrev pub History : Type 0
History = List Event

infixl 60 ◌▷◌
abbrev pub ◌▷◌ : History → Event → History
h ▷ e = h ++ (e ∷ [])

-- A call that acts on the world.
abbrev pub Call : Type 0 → Type 0 → Type 0
Call E A = History → Result E A × History

abbrev pub proceed : {E A B : Type 0} → Result E A × History → (A → Call E B) → Result E B × History
proceed (ok a, h) f = f a h
proceed (err e, h) f = (err e, h)
proceed (panic, h) f = (panic, h)
proceed (stuck, h) f = (stuck, h)

-- `if err != nil { return err }`
infixl 5 ◌>>=◌ ◌>>◌
abbrev pub ◌>>=◌ : {E A B : Type 0} → Call E A → (A → Call E B) → Call E B
◌>>=◌ m f h = proceed (m h) f

abbrev pub ◌>>◌ : {E B : Type 0} → Call E (Unit {0}) → Call E B → Call E B
◌>>◌ m k h = proceed (m h) (λ _. k)

abbrev pub return : {E A : Type 0} → Result E A → Call E A
return r h = (r, h)

-- The outcome of a library function that does not act on the world.
abbrev pub lift : {E A : Type 0} → E ⊎ A → Call E A
lift (inl e) h = (err e, h)
lift (inr a) h = (ok a, h)

pub Result-cases :
    {E A : Type 0} (r : Result E A)
    → ((a : A) × (r ≡ ok a)) ⊎ (((e : E) × (r ≡ err e)) ⊎ ((r ≡ panic) ⊎ (r ≡ stuck)))
Result-cases (ok a) = inl (a, refl)
Result-cases (err e) = inr (inl (e, refl))
Result-cases panic = inr (inr (inl refl))
Result-cases stuck = inr (inr (inr refl))

-- The parts of an equation between outcomes of calls, and outcomes that are not `ok`.
module _ {E A : Type 0} where
  pub same_result : {p q : Result E A × History} → p ≡ q → p.0 ≡ q.0
  same_result e = ap (λ (t : Result E A × History). t.0) e

  pub same_history : {p q : Result E A × History} → p ≡ q → p.1 ≡ q.1
  same_history e = ap (λ (t : Result E A × History). t.1) e

  pub err-ne-ok : {e : E} {a : A} → ◌≡◌ {A = Result E A} (err e) (ok a) → ⊥
  err-ne-ok p = cc

  pub panic-ne-ok : {a : A} → ◌≡◌ {A = Result E A} panic (ok a) → ⊥
  panic-ne-ok p = cc

  pub stuck-ne-ok : {a : A} → ◌≡◌ {A = Result E A} stuck (ok a) → ⊥
  stuck-ne-ok p = cc

-- To split on how a call ended.
pub Outcome-cases :
    {E A : Type 0} (m : Result E A × History)
    → ((a : A) × ((h : History) × (m ≡ (ok a, h)))) ⊎ ((a : A) → m.0 ≢ ok a)
Outcome-cases (ok a, h) = inl (a, (h, refl))
Outcome-cases (err e, h) = inr (λ a p. cc)
Outcome-cases (panic, h) = inr (λ a p. cc)
Outcome-cases (stuck, h) = inr (λ a p. cc)

lift_keeps : {E A : Type 0} (r : E ⊎ A) (h : History) → (lift r h).1 ≡ h
lift_keeps (inl e) h = refl
lift_keeps (inr a) h = refl

-- A call followed by a function of its result adds nothing to the history, and succeeds only where
-- both do.
pub proceed-history :
    {E A B : Type 0} (p : Result E A × History) (f : A → Result E B)
    → (proceed p (λ a. return (f a))).1 ≡ p.1
proceed-history (ok a, h) f = refl
proceed-history (err e, h) f = refl
proceed-history (panic, h) f = refl
proceed-history (stuck, h) f = refl

pub lift-history :
    {E A B : Type 0} (p : Result E A × History) (f : A → E ⊎ B)
    → (proceed p (λ a. lift (f a))).1 ≡ p.1
lift-history (ok a, h) f = lift_keeps (f a) h
lift-history (err e, h) f = refl
lift-history (panic, h) f = refl
lift-history (stuck, h) f = refl

pub proceed_ok :
    {E A B : Type 0} (p : Result E A × History) (f : A → Call E B) {b : B}
    → (proceed p f).0 ≡ ok b
    → (a : A) × (p.0 ≡ ok a) × ((f a p.1).0 ≡ ok b)
proceed_ok (ok a, h) f e = (a, refl, e)
proceed_ok (err e', h) f e = cc
proceed_ok (panic, h) f e = cc
proceed_ok (stuck, h) f e = cc

-- `m[k]` and `m[k] = v` on a map with string keys.
module _ {V : Type 0} where
  unfoldable pub lookup : Text → List (Text × V) → Option V
  lookup key [] = none
  lookup key ((name, value) ∷ rest) = if Text.eq name key then some value else lookup key rest

  unfoldable pub insert : Text → V → List (Text × V) → List (Text × V)
  insert key new [] = (key, new) ∷ []
  insert key new ((name, old) ∷ rest) =
      if Text.eq name key then (name, new) ∷ rest else (name, old) ∷ insert key new rest

  pub lookup-insert :
      (at other : Text) (v : V) (m : List (Text × V))
      → lookup other (insert at v m) ≡ (if Text.eq at other then some v else lookup other m)
  unfolding lookup insert
  lookup-insert at other v [] = refl
  lookup-insert at other v ((name, w) ∷ m) = ground (
    arith,
    Text.eq_iff name at,
    Text.eq_iff at other,
    Text.eq_iff name other,
    lookup-insert at other v m,
  )

  pub lookup-insert_same :
      (key : Text) (v : V) (m : List (Text × V)) → lookup key (insert key v m) ≡ some v
  lookup-insert_same key v m = lookup-insert key key v m ∙ rw Text.eq_refl refl

  pub lookup-insert_other :
      (at other : Text) (v : V) (m : List (Text × V))
      → Text.eq at other ≡ false
      → lookup other (insert at v m) ≡ lookup other m
  lookup-insert_other at other v m e = lookup-insert at other v m ∙ rw e refl

-- `CanonicalMIMEHeaderKey` on a name of letters and dashes: a capital at the start and after each
-- dash, small letters elsewhere.
abbrev upper_byte : ℕ → ℕ
upper_byte c = if leb b'a' c && leb c b'z' then c - 32 else c

canonical_from : Bool → Text → Text
canonical_from start [] = []
canonical_from start (c ∷ cs) =
    (if start then upper_byte c else Text.to_lower_byte c) ∷ canonical_from (c == b'-') cs

-- `Header.Get`: the first value, or the empty string.
unfoldable pub header_get : HeaderLists → Text → Text
unfolding canonical_from lookup
header_get header name = elim (lookup (canonical_from true name) header) [
  | none ↦ []
  | some [] ↦ []
  | some (v ∷ vs) ↦ v
]
