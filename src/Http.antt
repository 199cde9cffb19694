-- ===== src/Http.antt =====
-- internal/api: replies (response/response.go), what a handler is, and the middleware and handlers
-- below. gin is a parameter where the program relies on it: a request comes with what gin makes of
-- it, and a handler returns the reply that it wrote.
pub mod Escaping
pub mod Handlers
pub mod Limiting
pub mod Engine
use production_ready_url_sho.Common.{
  ℕ, String, Bool, Option, none, some, List, [], ◌∷◌, ◌==◌, if◌then◌else◌,
}
use production_ready_url_sho.Failure.{Result}
use production_ready_url_sho.Context.{Ctx}
use production_ready_url_sho.Model.{Url}

-- The `data` of an envelope.
pub data Payload : Type 0 where
  url_payload : Url → Payload
  status_payload : String → Payload

pub record ApiError : Type 0 where
  pub code : String
  pub message : String

pub record Envelope : Type 0 where
  pub success : Bool
  pub payload : Option Payload
  pub error : Option ApiError

-- The body of a reply: a JSON envelope, the link to a URL that net/http writes with a redirect, what another library serves,
-- or nothing.
pub data Body : Type 0 where
  json : Envelope → Body
  location : String → Body
  page : String → Body
  nothing : Body

pub record Reply : Type 0 where
  pub status : ℕ
  pub headers : List (String × String)
  pub body : Body

-- The first value of a header.
abbrev pub header_value : String → List (String × String) → Option String
header_value name [] = none
header_value name ((n, v) ∷ hs) = if n == name then some v else header_value name hs

-- `response.OK` and `response.Error`
abbrev pub ok_reply : ℕ → Payload → Reply
ok_reply status payload = record {
  status = status;
  headers = [];
  body = json (record { success = Bool.true; payload = some payload; error = none });
}

abbrev pub error_reply : ℕ → (code message : String) → Reply
error_reply status code message = record {
  status = status;
  headers = [];
  body = json (record {
    success = Bool.false;
    payload = none;
    error = some (record { code = code; message = message });
  });
}

-- A handler that writes nothing leaves gin's default status.
abbrev pub no_reply : Reply
no_reply = record { status = 200; headers = []; body = nothing }

-- What the program reads of a request; `remote` is what gin's `ClientIP` returns, `input` what
-- `ShouldBindJSON` makes of the body, and `key` the value of `Param("key")`.
pub record Request : Type 0 where
  pub method : String
  pub path : String
  pub ctx : Ctx
  pub remote : String
  pub user_agent : String
  pub input : Result String
  pub key : String

abbrev pub Handler : Type 0 → Type 0
Handler S = Request → S → Reply × S
