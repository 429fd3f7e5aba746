-- ===== src/Websocket/Handshake.antt =====
-- net/websocket.hpp: the request that llhttp reads, and the data of `accept`. The parser llhttp is a
-- parameter. A string is its list of bytes.
pub mod Accept
use co_wq.Prelude.{
  ℕ, zero, suc, ◌+◌, ◌/◌, ◌%◌, Bool, true, false, not, ◌&&◌, ◌||◌, Option, none, some, List, [],
  ◌∷◌, ◌++◌, ltb, if◌then◌else◌, length, codes,
}
use co_wq.Websocket.Header.{to_lower, same}

abbrev pub Text : Type 0
Text = List ℕ

abbrev pub is_empty {ℓ} : {A : Type ℓ} → List A → Bool
is_empty [] = true
is_empty (x ∷ xs) = false

-- `headers` is an association list with each key once.
pub record HttpRequestContext : Type 0 where
  pub method : Text
  pub url : Text
  pub headers : List (Text × Text)
  pub current_field : Text
  pub current_value : Text
  pub body : Text
  pub raw_data : Text
  pub headers_complete : Bool
  pub message_complete : Bool

-- `reset`, and a new object.
pub reset : HttpRequestContext
reset = record {
  method = [];
  url = [];
  headers = [];
  current_field = [];
  current_value = [];
  body = [];
  raw_data = [];
  headers_complete = false;
  message_complete = false;
}

-- `headers[key] = value`
pub set_header : Text → Text → List (Text × Text) → List (Text × Text)
set_header key value [] = (key, value) ∷ []
set_header key value ((k, v) ∷ hs) =
    let rest = set_header key value hs in if same k key then (k, value) ∷ hs else (k, v) ∷ rest

pub find_header : Text → List (Text × Text) → Option Text
find_header key [] = none
find_header key ((k, v) ∷ hs) = let rest = find_header key hs in if same k key then some v else rest

-- The callbacks of llhttp that `install_http_settings` sets.
pub data HttpEvent : Type 0 where
  on_message_begin on_header_value_complete on_headers_complete on_message_complete : HttpEvent
  on_method on_url on_header_field on_header_value on_body : Text → HttpEvent

abbrev flush : HttpRequestContext → HttpRequestContext
flush ctx = record ctx {
  headers =
      if is_empty ctx.current_field
      then ctx.headers
      else set_header (to_lower ctx.current_field) ctx.current_value ctx.headers;
  current_field = [];
}

pub on_event : HttpEvent → HttpRequestContext → HttpRequestContext
on_event on_message_begin ctx = reset
on_event (on_method at) ctx = record ctx { method = ctx.method ++ at }
on_event (on_url at) ctx = record ctx { url = ctx.url ++ at }
on_event (on_header_field at) ctx = record ctx { current_field = ctx.current_field ++ at }
on_event (on_header_value at) ctx = record ctx { current_value = ctx.current_value ++ at }
on_event on_header_value_complete ctx = record (flush ctx) { current_value = [] }
on_event on_headers_complete ctx = record (flush ctx) {
  current_value = if is_empty ctx.current_field then ctx.current_value else [];
  headers_complete = true;
}
on_event (on_body at) ctx = record ctx { body = ctx.body ++ at }
on_event on_message_complete ctx = record ctx { message_complete = true }

abbrev pub on_events : List HttpEvent → HttpRequestContext → HttpRequestContext
on_events [] ctx = ctx
on_events (e ∷ es) ctx = on_events es (on_event e ctx)

-- What `llhttp_execute` returns; another error comes with its name.
pub data Errno : Type 0 where
  hpe_ok hpe_paused_upgrade : Errno
  hpe : Text → Errno

-- llhttp: the callbacks that a piece of input makes it call, its result, and its next state.
pub record HttpParser (P : Type 0) : Type 0 where
  pub llhttp_init : P
  pub llhttp_execute : Text → P → List HttpEvent × (Errno × P)

pub record ServerOptions : Type 0 where
  pub subprotocols : List Text
  pub allowed_origins : List Text
  pub check_origin : Bool
  pub close_on_failure : Bool
  pub max_request_size : ℕ

-- Without `response_headers`, which stays empty in `accept`.
pub record AcceptResult : Type 0 where
  pub ok : Bool
  pub status_code : ℕ
  pub reason : Text
  pub selected_subprotocol : Text
  pub request : HttpRequestContext

-- The decimal digits of a number, by fuel for their count.
pub decimal : ℕ → ℕ → Text
decimal zero n = []
decimal (suc fuel) n =
    let high = decimal fuel (n / 10) in
    if ltb n 10 then (48 + n) ∷ [] else high ++ (48 + n % 10) ∷ []

-- `std::to_string`, for numbers of at most twenty digits.
abbrev pub to_string : ℕ → Text
to_string n = decimal 20 n

pub build_http_response : ℕ → Text → Text → Text
build_http_response status_code reason body =
    codes "HTTP/1.1 "
    ++ to_string status_code
    ++ codes " "
    ++ reason
    ++ codes "\r\n"
    ++ codes "Content-Type: "
    ++ codes "text/plain; charset=utf-8"
    ++ codes "\r\n"
    ++ codes "Content-Length: "
    ++ to_string (length body)
    ++ codes "\r\nConnection: close\r\n\r\n"
    ++ body
