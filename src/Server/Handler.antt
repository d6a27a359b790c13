-- ===== src/Server/Handler.antt =====
-- src/x402_server/X402Handler.cpp over IProcessor, the interface of the two processors.
pub mod Bounds
pub mod Processors
use machinepal.Prelude.{
  ℕ, suc, ◌<◌, ◌≡◌, Text, str, List, [], ◌∷◌, ◌++◌, Bool, true, false, length, if◌then◌else◌,
  starts_with, Option, none, some,
}
use machinepal.Result.{Result, ok, err}
use machinepal.Exec.{Exec}
use machinepal.Platform.{Platform}
use machinepal.Http.{HttpRequest}
use machinepal.X402.Processor.{max_body_size}
use machinepal.Facilitator.Processor.{easynet_facilitator_prefix}

-- IProcessor.h, with what the handler relies on: a body that is too large is answered, and a start
-- takes no answer back.
pub record Processor (p : Platform) : Type 1 where
  pub State : Type 0
  pub is_reply_sent : State → Bool
  pub on_request_start : HttpRequest p → Exec State (Unit {0})
  pub on_request_fully_received : HttpRequest p → Text → Exec State (Unit {0})
  pub on_body_size_increase : ℕ → Exec State (Unit {0})
  pub start-is_reply_sent :
      (request : HttpRequest p) (s : State)
      → is_reply_sent s ≡ true
      → is_reply_sent (on_request_start request s).1 ≡ true
  pub large-is_reply_sent :
      (size : ℕ) (s : State)
      → max_body_size < size
      → is_reply_sent s ≡ false
      → (on_body_size_increase size s).0 ≡ ok tt
      → is_reply_sent (on_body_size_increase size s).1 ≡ true

-- terminated: whether an exception has left a noexcept method, which ends the program;
-- received: the bodies that the processor was given, the last one first; internal_errors: how often
-- the handler itself has answered 500.
pub record Handler {p : Platform} (i : Processor p) : Type 0 where
  pub terminated : Bool
  pub internal_error_sent : Bool
  pub internal_errors : ℕ
  pub body_buffer : Text
  pub processor : i.State
  pub received : List Text

-- The processor that onRequest makes for a path.
unfoldable pub is_for_facilitator : Text → Bool
unfolding easynet_facilitator_prefix
is_for_facilitator path = starts_with path easynet_facilitator_prefix

module _ {p : Platform} (i : Processor p) where
  unfoldable pub send_internal_error : Handler i → Handler i
  send_internal_error h = record h {
    internal_error_sent = true;
    internal_errors = suc h.internal_errors;
  }

  -- What is left where a noexcept method of the processor returns, or ends the program.
  abbrev finish_noexcept : Handler i → Result (Unit {0}) × i.State → Handler i
  finish_noexcept h (ok u, s) = record h { processor = s }
  finish_noexcept h (err e, s) = record h { processor = s; terminated = true }

  -- What is left where onBodySizeIncrease returns, or throws into the handler's catch.
  abbrev finish : Handler i → Result (Unit {0}) × i.State → Handler i
  finish h (ok u, s) = record h { processor = s }
  finish h (err e, s) = send_internal_error (record h { processor = s })

  -- The part of onRequest after the processor has been made.
  unfoldable pub on_request : HttpRequest p → Handler i → Handler i
  unfolding send_internal_error
  on_request request h =
      if h.terminated
      then h
      else if h.internal_error_sent
      then h
      else finish_noexcept h (i.on_request_start request h.processor)

  abbrev add_chunk : Text → Handler i → Handler i
  add_chunk chunk h =
      let buffer = h.body_buffer ++ chunk in
      finish (record h { body_buffer = buffer })
        (i.on_body_size_increase (length buffer) h.processor)

  -- A call without a buffer does nothing.
  unfoldable pub on_body : Option Text → Handler i → Handler i
  unfolding send_internal_error
  on_body none h = h
  on_body (some chunk) h =
      if h.terminated
      then h
      else if h.internal_error_sent
      then h
      else if i.is_reply_sent h.processor
      then h
      else add_chunk chunk h

  unfoldable pub on_eom : HttpRequest p → Handler i → Handler i
  unfolding send_internal_error
  on_eom request h =
      if h.terminated
      then h
      else if h.internal_error_sent
      then h
      else if i.is_reply_sent h.processor
      then h
      else finish_noexcept (record h { received = h.body_buffer ∷ h.received })
          (i.on_request_fully_received request h.body_buffer h.processor)
