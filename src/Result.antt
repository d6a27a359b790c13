-- ===== src/Result.antt =====
-- C++ exceptions as values (MachinePalCommon.h). The prefix `file:line function` that the macros
-- put before a message is left out.
use machinepal.Prelude.{Text, str, ◌++◌, Bool, true, false, ◌≡◌, refl, ◌⊎◌, inl, inr}

-- The classes derived from BackendException.
pub data BackendException : Type 0 where
  bad_gateway_exception forbidden_exception gateway_timeout_exception : BackendException
  not_found_exception service_unavailable_exception too_many_requests_exception : BackendException
  unauthorized_exception unknown_server_error_exception verification_error : BackendException

-- The prefix that each class hands to BackendException.
abbrev pub exception_prefix : BackendException → Text
exception_prefix bad_gateway_exception = str "BadGatewayException"
exception_prefix forbidden_exception = str "ForbiddenException"
exception_prefix gateway_timeout_exception = str "GatewayTimeoutException"
exception_prefix not_found_exception = str "NotFoundException"
exception_prefix service_unavailable_exception = str "ServiceUnavailableException"
exception_prefix too_many_requests_exception = str "TooManyRequestsException"
exception_prefix unauthorized_exception = str "UnauthorizedException"
exception_prefix unknown_server_error_exception = str "UnknownServerErrorException"
exception_prefix verification_error = str "VerificationError"

pub data Exception : Type 0 where
  logic_error : Text → Exception
  runtime_error : Text → Exception
  invalid_argument : Text → Exception
  json_error : Text → Exception
  backend_exception : BackendException → Text → Exception
  nested : Text → Exception → Exception

-- e.what()
unfoldable pub what : Exception → Text
what (logic_error m) = m
what (runtime_error m) = m
what (invalid_argument m) = m
what (json_error m) = m
what (backend_exception k m) = exception_prefix k ++ (str ": " ++ m)
what (nested m e) = m

-- What a call returns or throws.
pub data Result {ℓ} (A : Type ℓ) : Type ℓ where
  err : Exception → Result A
  ok : A → Result A

-- CHECK_STATE, CHECK_STATE2
abbrev pub check_state : Bool → Text → Result (Unit {0})
check_state true m = ok tt
check_state false m = err (logic_error m)

-- CHECK_STATE_JSON
abbrev pub check_state_json : Bool → Text → Result (Unit {0})
check_state_json true m = ok tt
check_state_json false m = err (json_error m)

-- if ( !test ) throw e;
abbrev pub require : Bool → Exception → Result (Unit {0})
require true e = ok tt
require false e = err e

-- A body between `try` and `catch (std::exception &) { RETHROW_NESTED2(m); }`
abbrev pub rethrow_nested {ℓ} : {A : Type ℓ} → Text → Result A → Result A
rethrow_nested m (ok a) = ok a
rethrow_nested m (err e) = err (nested m e)

-- A body between `try` and a `catch` that returns.
abbrev pub catch {ℓ} : {A : Type ℓ} → Result A → (Exception → A) → A
catch (ok a) h = a
catch (err e) h = h e

pub Result-cases {ℓ} :
    {A : Type ℓ} (r : Result A) → ((a : A) × (r ≡ ok a)) ⊎ ((e : Exception) × (r ≡ err e))
Result-cases (ok a) = inl (a, refl)
Result-cases (err e) = inr (e, refl)

pub ok-injective {ℓ} : {A : Type ℓ} {a b : A} → ok a ≡ ok b → a ≡ b
ok-injective h = cc

pub rethrow_nested-eq-ok {ℓ} :
    {A : Type ℓ} (m : Text) (r : Result A) {a : A} → rethrow_nested m r ≡ ok a → r ≡ ok a
rethrow_nested-eq-ok m (ok b) h = h
rethrow_nested-eq-ok m (err e) h = cc

-- One call after another: an exception skips what follows.
module _ {ℓ κ} {A : Type ℓ} {B : Type κ} where
  infixl 5 ◌>>=◌ ◌>>◌
  abbrev pub ◌>>=◌ : Result A → (A → Result B) → Result B
  err thrown >>= rest = err thrown
  ok returned >>= rest = rest returned

  abbrev pub ◌>>◌ : Result A → Result B → Result B
  call >> next = call >>= λ returned. next

  pub >>=-eq-ok :
      (call : Result A) (rest : A → Result B) {last : B}
      → (call >>= rest) ≡ ok last
      → (returned : A) × (call ≡ ok returned) × (rest returned ≡ ok last)
  >>=-eq-ok (err thrown) rest same = cc
  >>=-eq-ok (ok returned) rest same = (returned, refl, same)
