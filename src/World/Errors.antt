-- ===== src/World/Errors.antt =====
-- Go's `error` values, and results that carry them.
use it_portal_agent.Prelude.{refl, ◌≡◌, ◌⊎◌, inl, inr, ℕ, String, Bool, true, false, ◌++◌}
use it_portal_agent.Text.{Text, text}
use it_portal_agent.Text.Numbers.{print_decimal}

-- A Go `error`. `wrap p e` is `fmt.Errorf("p: %w", e)`, and `wrap_number p n q e` has the number `n`
-- between the two parts `p` and `q`; `queued` is `"%w: %v"` of `ErrQueued` and its
-- cause, and `queue_failed` is `"%w; queue payload: %v"`. `external` is an error of code that the
-- program calls, or one that it makes with no cause, by its text.
pub data Err : Type 0 where
  external : Text → Err
  wrap : String → Err → Err
  wrap_number : String → ℕ → String → Err → Err
  not_registered invalid_response : Err
  queued : Err → Err
  queue_failed : Err → Err → Err

-- `err.Error()`
unfoldable pub message : Err → Text
message (external t) = t
message (wrap p e) = text p ++ (text ": " ++ message e)
message (wrap_number p n q e) = text p ++ (print_decimal n ++ (text q ++ (text ": " ++ message e)))
message not_registered = text "agent is not registered"
message invalid_response = text "invalid Portal response"
message (queued e) = text "payload queued for offline delivery" ++ (text ": " ++ message e)
message (queue_failed e f) = message e ++ (text "; queue payload: " ++ message f)

-- `errors.Is(err, ErrQueued)`
abbrev pub is_queued : Err → Bool
is_queued (external t) = false
is_queued (wrap p e) = is_queued e
is_queued (wrap_number p n q e) = is_queued e
is_queued not_registered = false
is_queued invalid_response = false
is_queued (queued e) = true
is_queued (queue_failed e f) = is_queued e

pub data Result {ℓ} (A : Type ℓ) : Type ℓ where
  ok : A → Result A
  err : Err → Result A

pub ok-injective {ℓ} : {A : Type ℓ} {a b : A} → ok a ≡ ok b → a ≡ b
ok-injective h = cc

pub err≢ok {ℓ} : {A : Type ℓ} {e : Err} {a : A} → err e ≡ ok a → ⊥
err≢ok h = cc

-- What code outside the program answers: a value, or a failure with its text.
pub data Reply {ℓ} (A : Type ℓ) : Type ℓ where
  answer : A → Reply A
  failure : Text → Reply A

pub Reply-cases {ℓ} :
    {A : Type ℓ} (r : Reply A) → ((t : Text) × (r ≡ failure t)) ⊎ ((a : A) × (r ≡ answer a))
Reply-cases (failure t) = inl (t, refl)
Reply-cases (answer a) = inr (a, refl)

abbrev pub result {ℓ} : {A : Type ℓ} → Reply A → Result A
result (answer a) = ok a
result (failure t) = err (external t)

pub answer_of_result {ℓ} : {A : Type ℓ} (r : Reply A) (a : A) → result r ≡ ok a → r ≡ answer a
answer_of_result (answer b) a h = cc
answer_of_result (failure t) a h = absurd (cc)

-- The error, if there is one, is not `ErrQueued`.
abbrev pub IsPlain {ℓ} : {A : Type ℓ} → Result A → Type 0
IsPlain (ok a) = Unit
IsPlain (err e) = is_queued e ≡ false

pub result-IsPlain {ℓ} : {A : Type ℓ} (r : Reply A) → IsPlain (result r)
result-IsPlain (answer a) = tt
result-IsPlain (failure t) = refl

abbrev pub map_err {ℓ} : {A : Type ℓ} → (Err → Err) → Result A → Result A
map_err f (ok a) = ok a
map_err f (err e) = err (f e)
