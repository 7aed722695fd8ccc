-- ===== src/Options/Payload.antt =====
-- `_request_payload` of python/gohttpx.py: the message that sends a request. A text is the list of its
-- code points; `b64encode` stands for the base64 text of the body, and `ceil_ms` is as in Options/Request.
use go_httpx.Prelude.{
  ℕ, String, Bool, true, false, Option, List, [], ◌∷◌, all, ltb, if◌then◌else◌, ◌≡◌, refl, Result,
  ok, err, ◌>>=◌, Ensures, Ensures-ok, Ensures-err, Ensures-bind,
}
use go_httpx.Options.{Attributes}
use go_httpx.Options.Request.{
  OptionError, Extension, request_options, Timeouts, TimeoutError, wrong_timeout, too_large,
  timeout_ms,
}
use go_httpx.Options.Request.Sent.{Sendable, request_options-Sendable}

-- A header as bytes, and as it is sent.
abbrev pub Header : Type 0
Header = List ℕ × List ℕ

pub record RawRequest : Type 0 where
  pub method : String
  pub url : String
  pub raw_headers : List Header
  pub body : List ℕ
  pub timeout : Timeouts
  pub go_req : Extension

pub record Payload : Type 0 where
  pub protocol_version : ℕ
  pub method : String
  pub url : String
  pub headers : List Header
  pub body_base64 : String
  pub timeout_ms : ℕ
  pub options : Attributes

-- A GoProtocolError, what `_request_options` raises, or the OverflowError of `_timeout_ms`.
pub data PayloadError : Type 0 where
  not_sendable : PayloadError
  bad_options : OptionError → PayloadError
  overflow : PayloadError

abbrev is_ascii : ℕ → Bool
is_ascii b = ltb b 128

-- `name.decode("ascii")` raises for a byte above 127; `value.decode("latin-1")` never raises.
abbrev decode_headers : List Header → Result PayloadError (List Header)
decode_headers [] = ok []
decode_headers ((name, value) ∷ headers) =
    let more = decode_headers headers in
    if all is_ascii name then (more >>= λ rest. ok ((name, value) ∷ rest)) else err not_sendable

abbrev checked_timeout : Result TimeoutError ℕ → Result PayloadError ℕ
checked_timeout (err wrong_timeout) = err not_sendable
checked_timeout (err too_large) = err overflow
checked_timeout (ok ms) = ok ms

abbrev checked_options : Result OptionError Attributes → Result PayloadError Attributes
checked_options (ok options) = ok options
checked_options (err e) = err (bad_options e)

unfoldable pub request_payload :
    (List ℕ → String) → (ℕ → Option ℕ) → RawRequest → Result PayloadError Payload
request_payload b64encode ceil_ms r = do
  headers ← decode_headers r.raw_headers
  ms ← checked_timeout (timeout_ms ceil_ms r.timeout)
  options ← checked_options (request_options r.go_req)
  ok (record {
    protocol_version = 1;
    method = r.method;
    url = r.url;
    headers = headers;
    body_base64 = b64encode r.body;
    timeout_ms = ms;
    options = options;
  })

abbrev pub ascii_names : List Header → Bool
ascii_names [] = true
ascii_names ((name, value) ∷ headers) = if all is_ascii name then ascii_names headers else false

pub record Proper (p : Payload) : Type 0 where
  pub names_ascii : ascii_names p.headers ≡ true
  pub options_sendable : Sendable p.options

decode_headers-ascii :
    (hs : List Header) → Ensures (λ ds. ascii_names ds ≡ true) (decode_headers hs)
decode_headers-ascii [] = Ensures-ok [] refl
decode_headers-ascii ((name, value) ∷ hs) =
    elim (all is_ascii name)
        as (λ b.
          all is_ascii name ≡ b
          → Ensures (λ ds. ascii_names ds ≡ true)
              (if b
                then (decode_headers hs >>= λ rest. ok ((name, value) ∷ rest))
                else err not_sendable)) [
                  | true ↦ λ e. Ensures-bind (decode_headers hs) _ λ rest h.
                      Ensures-ok ((name, value) ∷ rest)
                        (rw (e) ((decode_headers-ascii hs).at rest h))
                  | false ↦ λ e. Ensures-err not_sendable
                ]
      refl

checked_options-Sendable : (e : Extension) → Ensures Sendable (checked_options (request_options e))
checked_options-Sendable e = go (request_options e) (request_options-Sendable e)
  where
    go :
        (x : Result OptionError Attributes)
        → Ensures Sendable x
        → Ensures Sendable (checked_options x)
    go (ok o) v = Ensures-ok o (v.at o refl)
    go (err f) v = Ensures-err (bad_options f)

-- A message has names of ASCII characters and options that the service takes.
pub request_payload-Proper :
    (b64encode : List ℕ → String) (ceil_ms : ℕ → Option ℕ) (r : RawRequest)
    → Ensures Proper (request_payload b64encode ceil_ms r)
unfolding request_payload
request_payload-Proper b64encode ceil_ms r =
    Ensures-bind (decode_headers r.raw_headers) _ λ headers h.
      Ensures-bind (checked_timeout (timeout_ms ceil_ms r.timeout)) _ λ ms _.
        Ensures-bind (checked_options (request_options r.go_req)) _ λ options o.
          Ensures-ok _ (record {
            names_ascii = (decode_headers-ascii r.raw_headers).at headers h;
            options_sendable = (checked_options-Sendable r.go_req).at options o;
          })
