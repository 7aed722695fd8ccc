-- ===== src/Options/Resolve.antt =====
-- `_resolve_client_options` of python/gohttpx.py: the arguments of a client. What a file holds is an
-- argument, `none` where it cannot be read.
pub mod Exclusive
use go_httpx.Prelude.{
  ℕ, String, Bool, true, false, ◌&&◌, ◌||◌, not, Option, none, some, if◌then◌else◌, Result, ok, err,
  ◌>>=◌, ◌>>◌, guard,
}
use go_httpx.Prelude.Json.{Json}
use go_httpx.Tls.Spec.{SpecInput, json_text, SpecError, Spec, normalize_tls_spec}
use go_httpx.Options.{Value, nothing, flag, text, mapping, Attributes, is_nothing}
use go_httpx.Options.Client.{TransportOptions, ClientOptions, default_options, equals}

pub data ArgumentError : Type 0 where
  wrong_type wrong_value unreadable : ArgumentError
  spec_refused : SpecError → ArgumentError

abbrev pub Resolved : Type 0 → Type 0
Resolved A = Result ArgumentError A

pub data OptionsArgument : Type 0 where
  no_options : OptionsArgument
  given_options : ClientOptions → OptionsArgument
  other_options : OptionsArgument

pub data VerifyArgument : Type 0 where
  unset_verify : VerifyArgument
  ssl_context : VerifyArgument
  verify_flag : Bool → VerifyArgument
  ca_file : Option String → VerifyArgument
  other_verify : VerifyArgument

pub data CertArgument : Type 0 where
  unset_cert : CertArgument
  cert_file : Option String → CertArgument
  cert_pair : Option String → Option String → CertArgument
  other_cert : CertArgument

-- An `httpx.Proxy` is whether it has an SSL context, its URL with the credentials, and its headers.
pub data ProxyArgument : Type 0 where
  unset_proxy : ProxyArgument
  no_proxy : ProxyArgument
  proxy_object : Bool → String → Attributes → ProxyArgument
  proxy_text : String → ProxyArgument
  other_proxy : ProxyArgument

pub record Arguments : Type 0 where
  pub client_options : OptionsArgument
  pub tls_fingerprint : Value
  pub tls_spec : Option SpecInput
  pub impersonate : Value
  pub verify : VerifyArgument
  pub cert : CertArgument
  pub proxy : ProxyArgument
  pub http1 : Value
  pub http2 : Value

abbrev pub base_options : OptionsArgument → Resolved ClientOptions
base_options no_options = ok default_options
base_options (given_options o) = ok o
base_options other_options = err wrong_type

-- An argument that is None leaves the option as it is.
abbrev override : Value → Value → Value
override nothing old = old
override v old = v

abbrev override_spec : Option SpecInput → Option SpecInput → Option SpecInput
override_spec none old = old
override_spec (some input) old = some input

abbrev pub set_identity : Arguments → ClientOptions → ClientOptions
set_identity a o = record o {
  tls_fingerprint = override a.tls_fingerprint o.tls_fingerprint;
  tls_spec = override_spec a.tls_spec o.tls_spec;
  impersonate = override a.impersonate o.impersonate;
}

abbrev read_text : Option String → Resolved String
read_text none = err unreadable
read_text (some content) = ok content

abbrev pub set_verify : VerifyArgument → ClientOptions → Resolved ClientOptions
set_verify unset_verify o = ok o
set_verify ssl_context o = err wrong_type
set_verify (verify_flag b) o = ok (record o { verify = flag b; root_ca_pem = nothing })
set_verify (ca_file file) o =
    read_text file >>= λ pem. ok (record o { verify = flag true; root_ca_pem = text pem })
set_verify other_verify o = err wrong_type

abbrev pub set_cert : CertArgument → ClientOptions → Resolved ClientOptions
set_cert unset_cert o = ok o
set_cert (cert_file file) o = read_text file >>= λ pem.
    ok (record o { client_cert_pem = text pem; client_key_pem = text pem })
set_cert (cert_pair cert key) o = read_text cert >>= λ cert_pem. read_text key >>= λ key_pem.
    ok (record o { client_cert_pem = text cert_pem; client_key_pem = text key_pem })
set_cert other_cert o = err wrong_type

abbrev pub set_proxy : ProxyArgument → ClientOptions → Resolved ClientOptions
set_proxy unset_proxy o = ok o
set_proxy no_proxy o = ok (record o { proxy_url = nothing })
set_proxy (proxy_object true url headers) o = err wrong_type
set_proxy (proxy_object false url headers) o = ok (record o {
  proxy_url = text url;
  transport = record (o.transport) { proxy_connect_headers = mapping headers };
})
set_proxy (proxy_text url) o = ok (record o { proxy_url = text url })
set_proxy other_proxy o = err wrong_type

abbrev default_flag : Bool → Value → Value
default_flag b nothing = flag b
default_flag b v = v

abbrev version_of : Value → Value → Resolved String
version_of (flag true) (flag true) = ok "auto"
version_of (flag true) (flag false) = ok "http1"
version_of (flag false) (flag true) = ok "http2"
version_of _ _ = err wrong_value

abbrev pub set_versions : Value → Value → ClientOptions → Resolved ClientOptions
set_versions http1 http2 o =
    if is_nothing http1 && is_nothing http2
    then ok o
    else (version_of (default_flag true http1) (default_flag false http2) >>= λ v.
        ok (record o { http_version = text v }))

abbrev pub adapt : Spec Json → Resolved Json
adapt (ok spec) = ok spec
adapt (err e) = err (spec_refused e)

abbrev pub normalized : (Json → ℕ) → SpecInput → Resolved Json
normalized encoded_length input = adapt (normalize_tls_spec encoded_length input)

-- `tls_spec` becomes the text that `json.dumps` makes, which `json.loads` reads back.
abbrev pub fix_spec : (Json → ℕ) → Option SpecInput → ClientOptions → Resolved ClientOptions
fix_spec encoded_length none o = ok o
fix_spec encoded_length (some input) o =
    guard (is_nothing o.tls_fingerprint && equals "none" o.impersonate) wrong_value
    >> (normalized encoded_length input >>= λ spec.
        ok (record o { tls_spec = some (json_text (encoded_length spec) (some spec)) }))

unfoldable pub resolve_client_options : (Json → ℕ) → Arguments → Resolved ClientOptions
resolve_client_options encoded_length a = do
  base ← base_options a.client_options
  verified ← set_verify a.verify (set_identity a base)
  certified ← set_cert a.cert verified
  proxied ← set_proxy a.proxy certified
  o ← set_versions a.http1 a.http2 proxied
  fix_spec encoded_length o.tls_spec o
