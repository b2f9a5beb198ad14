-- ===== src/Http/Request.antt =====
-- code/http/httprequest.h and httprequest.cpp: the state machine that reads a request.
pub mod Form
pub mod Users
pub mod Parse
mod Tests
use video_server.Base.{ℕ, List, []}
use video_server.Base.Text.{Dictionary}

-- `PARSE_STATE`
pub data ParseState : Type 0 where
  request_line headers body finish : ParseState

pub record HttpRequest : Type 0 where
  pub state : ParseState
  pub method : List ℕ
  pub path : List ℕ
  pub version : List ℕ
  pub text : List ℕ
  pub header : Dictionary (List ℕ)
  pub post : Dictionary (List ℕ)

-- `Init`
abbrev pub initial : HttpRequest
initial = record {
  state = request_line;
  method = [];
  path = [];
  version = [];
  text = [];
  header = [];
  post = [];
}
