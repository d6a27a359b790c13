-- ===== src/Http/Channel.antt =====
-- How a processor answers (IResponseSender, and sendResponse of X402Processor and
-- FacilitatorProcessor): at most once, and only while the connection is there.
pub mod Evolves
use machinepal.Prelude.{ℕ, Text, Bool, true, false, List, [], ◌∷◌}
use machinepal.Platform.{Platform}
use machinepal.Http.{HttpResponse}

-- X402ProcessorState and FacilitatorProcessorState
pub data ProcessorState : Type 0 where
  start error_sent reply_sent : ProcessorState

-- The response sender: gone with its connection, one that throws, or one that sends.
pub data Sender : Type 0 where
  gone faulty works : Sender

-- handed: the responses that were handed to the sender, the last one first.
pub record Channel (p : Platform) : Type 0 where
  pub state : ProcessorState
  pub sender : Sender
  pub handed : List (HttpResponse p)

unfoldable pub is_reply_sent : ProcessorState → Bool
is_reply_sent start = false
is_reply_sent error_sent = true
is_reply_sent reply_sent = true

module _ {p : Platform} where
  -- What a sender that is there is handed; an exception of its is logged and ignored.
  abbrev hand : Sender → HttpResponse p → List (HttpResponse p) → List (HttpResponse p)
  hand gone r handed = handed
  hand faulty r handed = r ∷ handed
  hand works r handed = r ∷ handed

  abbrev unless_sent : ProcessorState → HttpResponse p → Channel p → Channel p
  unless_sent error_sent r c = c
  unless_sent reply_sent r c = c
  unless_sent start r c = record c { handed = hand c.sender r c.handed }

  unfoldable pub send_response : HttpResponse p → Channel p → Channel p
  send_response r c = unless_sent c.state r c

  -- sendResponse( … ); state_ = …
  unfoldable pub answer : ProcessorState → HttpResponse p → Channel p → Channel p
  unfolding send_response
  answer state r c = record (send_response r c) { state = state }

-- responseSender().reset() of X402Handler::onError
unfoldable pub drop_sender : {p : Platform} → Channel p → Channel p
drop_sender c = record c { sender = gone }
