-- ===== src/Http.antt =====
-- An HTTP request, by what the handlers read of proxygen's message.
pub mod Channel
use machinepal.Prelude.{ℕ, Text, Option}
use machinepal.Platform.{Platform}

-- proxygen::HTTPMethod: the methods that the program names, and any other.
pub data HttpMethod : Type 0 where
  get post head options put delete trace other : HttpMethod

pub record HttpRequest (p : Platform) : Type 0 where
  pub method : Option HttpMethod
  pub method_string : Text
  pub path : Text
  pub headers : p.Headers
  pub client_address : Text

pub record HttpResponse (p : Platform) : Type 0 where
  pub status : ℕ
  pub reason : Text
  pub headers : p.Headers
  pub body : Text
