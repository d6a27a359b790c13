-- ===== src/Server/Handler/Processors.antt =====
-- X402Processor and FacilitatorProcessor as implementations of IProcessor (X402Handler::onRequest).
use machinepal.Prelude.{ℕ, ◌<◌, ◌≡◌, true, false, arith}
use machinepal.Result.{ok}
use machinepal.Platform.{Platform}
use machinepal.Http.{HttpRequest}
use machinepal.Http.Channel.{is_reply_sent, answer}
use machinepal.X402.Responses as Paid
use machinepal.X402.Responses.{X402State}
use machinepal.X402.Responses.Evolving.{AnyStatus}
use machinepal.X402.Processor as X402
use machinepal.X402.Processor.{Env, max_body_size}
use machinepal.X402.Processor.Evolving.{on_request_start-By}
use machinepal.Facilitator.EasyNet.{EasyNet}
use machinepal.Facilitator.Processor as Facilitator
use machinepal.Facilitator.Processor.{FacilitatorState}
use machinepal.Server.Handler.{Processor}

module _ (p : Platform) (v : Env p) where
  pub x402_large :
      (size : ℕ) (s : X402State p)
      → max_body_size < size
      → is_reply_sent s.channel.state ≡ false
      → (X402.on_body_size_increase p v size s).0 ≡ ok tt
      → is_reply_sent (X402.on_body_size_increase p v size s).1.channel.state ≡ true
  unfolding X402.on_body_size_increase Paid.reply_400_bad_request answer is_reply_sent
  x402_large size s large unsent done = ground arith

  abbrev pub x402_processor : Processor p
  x402_processor = record {
    State = X402State p;
    is_reply_sent = λ s. is_reply_sent s.channel.state;
    on_request_start = X402.on_request_start p v;
    on_request_fully_received = X402.on_request_fully_received p v;
    on_body_size_increase = X402.on_body_size_increase p v;
    start-is_reply_sent = λ request s sent.
        ((on_request_start-By p v (AnyStatus p v.config) (λ n h. tt) request s).closed sent).0;
    large-is_reply_sent = x402_large;
  }

module _ (p : Platform) (f : EasyNet) where
  pub facilitator_large :
      (size : ℕ) (s : FacilitatorState p)
      → max_body_size < size
      → is_reply_sent s.channel.state ≡ false
      → (Facilitator.on_body_size_increase p size s).0 ≡ ok tt
      → is_reply_sent (Facilitator.on_body_size_increase p size s).1.channel.state ≡ true
  unfolding Facilitator.on_body_size_increase Facilitator.reply_413_payload_too_large answer
      is_reply_sent
  facilitator_large size s large unsent done = ground arith

  pub facilitator_start :
      (request : HttpRequest p) (s : FacilitatorState p)
      → is_reply_sent s.channel.state ≡ true
      → is_reply_sent (Facilitator.on_request_start p request s).1.channel.state ≡ true
  unfolding Facilitator.on_request_start Facilitator.request_start Facilitator.reply_400_bad_request
      Facilitator.reply_405_method_not_allowed Facilitator.reply_415_unsupported_media_type
      Facilitator.reply_500_internal_error answer is_reply_sent
  facilitator_start request s sent = ground arith

  abbrev pub facilitator_processor : Processor p
  facilitator_processor = record {
    State = FacilitatorState p;
    is_reply_sent = λ s. is_reply_sent s.channel.state;
    on_request_start = Facilitator.on_request_start p;
    on_request_fully_received = λ request. Facilitator.on_request_fully_received p f;
    on_body_size_increase = Facilitator.on_body_size_increase p;
    start-is_reply_sent = facilitator_start;
    large-is_reply_sent = facilitator_large;
  }
