-- ===== src/Intelligence/Provider/Http.antt =====
-- What the two HTTP providers take from net/http, encoding/json, os and time: parameters.
use synapse_platform.Prelude.{ℕ, Bool, String, Option}

-- A response: its status, and its body if that could be read.
pub record Response : Type 0 where
  pub status_code : ℕ
  pub body : Option String

-- `send` is `http.Client.Do` of a POST with a JSON body and, if there is one, a bearer token; `none`
-- is its error. `makes_request` tells whether `http.NewRequestWithContext` accepts a URL. `since` is
-- the time between two states in milliseconds.
pub record Http (W : Type 0) : Type 0 where
  pub makes_request : String → Bool
  pub send : String → Option String → String → W → Option Response × W
  pub getenv : String → W → String
  pub since : W → W → ℕ
