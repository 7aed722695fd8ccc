-- ===== src/Options/Client/Sent.antt =====
-- What `_client_payload` of python/gohttpx.py sends of the fields that say whose TLS it imitates.
use go_httpx.Prelude.{
  ℕ, String, Bool, true, false, ◌&&◌, not, Option, none, some, ◌≡◌, refl, ok, arith, str_eq, eq_iff,
  ap, ◌>>=◌, if◌then◌else◌, ◌∙◌,
}
use go_httpx.Prelude.Json.{Json, contains, pos}
use go_httpx.Tls.Spec.{SpecInput, Spec, normalize_tls_spec}
use go_httpx.Transport.Session.{version}
use go_httpx.Options.{
  Value, whole, text, member, mapping, Attributes, done, attribute, wire, wire_fields, find, names,
  is_nothing,
}
use go_httpx.Options.Client.{
  TransportOptions, ClientOptions, client_attributes, client_payload, put, put_spec, clear_entry_in,
  clear_in, is_number, clear_defaults, from_json, equals, get_equals, has, wants_none,
  needs_fingerprint, put_fingerprint,
}

find-put : (k : String) (v : Value) (r : Attributes) → find k (put k v r) ≡ some v
find-put k v done = ground (arith, eq_iff k k)
find-put k v (attribute j w r) = ground (arith, find-put k v r)

find-put_other :
    (k j : String) (v : Value) (r : Attributes) → str_eq j k ≡ false → find k (put j v r) ≡ find k r
find-put_other k j v done h = ground arith
find-put_other k j v (attribute i w r) h = ground (arith, find-put_other k j v r, eq_iff i j)

module _ (k : String) (other : str_eq "transport" k ≡ false) where
  find-clear_entry_in :
      (name : String) (o : Option Value) (r : Attributes)
      → find k (clear_entry_in name o r) ≡ find k r
  find-clear_entry_in name none r = refl
  find-clear_entry_in name (some (mapping rest)) r =
      find-put_other k "transport" (mapping (put name (whole (pos 0)) rest)) r other
  find-clear_entry_in name (some v) r = refl

  find-clear_in :
      (name : String) (b : Bool) (r : Attributes) → find k (clear_in name b r) ≡ find k r
  find-clear_in name false r = refl
  find-clear_in name true r = find-clear_entry_in name (find "transport" r) r

  -- Clearing two defaults of `transport` leaves every other field.
  find-clear_defaults :
      (t : TransportOptions) (r : Attributes) → find k (clear_defaults t r) ≡ find k r
  find-clear_defaults t r =
      elim (get_equals "http3" (find "http_version" r))
        as (λ b.
          find k (
            if b
            then clear_in "max_idle_conns" (is_number 100 4636737291354636288 t.max_idle_conns) (
                clear_in "expect_continue_timeout_ms"
                  (is_number 1000 4652007308841189376 t.expect_continue_timeout_ms) r)
            else r)
          ≡ find k r) [
            | true ↦
                find-clear_in "max_idle_conns" (is_number 100 4636737291354636288 t.max_idle_conns)
                  _
                ∙ find-clear_in "expect_continue_timeout_ms"
                    (is_number 1000 4652007308841189376 t.expect_continue_timeout_ms) r
            | false ↦ refl
          ]

-- A field of a dataclass in what `_wire` makes of it.
abbrev pub wired : Option Value → Option Value
wired none = none
wired (some v) = if is_nothing v then none else some (wire v)

absent-wire_fields :
    (k : String) (r : Attributes) → contains k (names r) ≡ false → find k (wire_fields r) ≡ none
unfolding wire
absent-wire_fields k done h = refl
absent-wire_fields k (attribute j v r) h = ground (arith, absent-wire_fields k r)

abbrev distinct : Attributes → Bool
distinct done = true
distinct (attribute k v r) = not (contains k (names r)) && distinct r

find-wire_fields :
    (k : String) (r : Attributes) → distinct r ≡ true → find k (wire_fields r) ≡ wired (find k r)
unfolding wire
find-wire_fields k done h = refl
find-wire_fields k (attribute j v r) h =
    ground (arith, find-wire_fields k r, absent-wire_fields k r, eq_iff j k)

-- The message says whose TLS the service is to imitate, by a `tls_spec`, a fingerprint, a browser or a
-- version of HTTP, and a `tls_spec` excludes a fingerprint and a browser.
pub record Single (p : Attributes) : Type 0 where
  named : needs_fingerprint p ≡ false
  no_fingerprint : has (find "tls_spec" p) ≡ true → has (find "tls_fingerprint" p) ≡ false
  no_browser : has (find "tls_spec" p) ≡ true → wants_none (find "impersonate" p) ≡ true

pub record Alone (p : Attributes) : Type 0 where
  no_fingerprint : has (find "tls_spec" p) ≡ true → has (find "tls_fingerprint" p) ≡ false
  no_browser : has (find "tls_spec" p) ≡ true → wants_none (find "impersonate" p) ≡ true

named-Single :
    (p : Attributes) (b : Bool)
    → needs_fingerprint p ≡ b
    → Alone p
    → Single (if b then put "tls_fingerprint" (text "android_11_okhttp") p else p)
named-Single p false e v = record {
  named = e;
  no_fingerprint = v.no_fingerprint;
  no_browser = v.no_browser;
}
named-Single p true e v =
    let fp = text "android_11_okhttp" in
    let same = find-put_other "tls_spec" "tls_fingerprint" fp p refl in
    record {
      named = ground (arith, find-put "tls_fingerprint" fp p);
      no_fingerprint = ground (arith, same);
      no_browser = ground (arith, same);
    }

put_spec-ok :
    (encoded_length : Json → ℕ) (s : Option SpecInput) (input : SpecInput) (j : Json)
    (r : Attributes)
    → s ≡ some input
    → normalize_tls_spec encoded_length input ≡ ok j
    → put_spec encoded_length s r ≡ ok (put "tls_spec" (from_json j) r)
put_spec-ok encoded_length s input j r e h = rw (e, h) refl

finished :
    (t : TransportOptions) (q : Spec Attributes) (r : Attributes)
    → q ≡ ok r
    → (q >>= λ payload. ok (put_fingerprint (clear_defaults t payload)))
      ≡ ok (put_fingerprint (clear_defaults t r))
finished t q r h = ap (λ x. x >>= λ payload. ok (put_fingerprint (clear_defaults t payload))) h

module _ (o : ClientOptions) where
  abbrev base_payload : Attributes
  base_payload =
      put "sdk_version" (text version)
        (put "protocol_version" (whole (pos 1)) (wire_fields (client_attributes o)))

  find-base_payload :
      (k : String)
      → str_eq "sdk_version" k ≡ false
      → str_eq "protocol_version" k ≡ false
      → find k base_payload ≡ wired (find k (client_attributes o))
  find-base_payload k sdk protocol =
      find-put_other k "sdk_version" (text version) _ sdk
      ∙ find-put_other k "protocol_version" (whole (pos 1)) _ protocol
      ∙ find-wire_fields k (client_attributes o) refl

  find-sent :
      (k : String)
      → str_eq "sdk_version" k ≡ false
      → str_eq "protocol_version" k ≡ false
      → str_eq "transport" k ≡ false
      → find k (clear_defaults o.transport base_payload) ≡ wired (find k (client_attributes o))
  find-sent k sdk protocol transport =
      find-clear_defaults k transport o.transport base_payload ∙ find-base_payload k sdk protocol

  -- Without a `tls_spec`.
  plain-Alone : o.tls_spec ≡ none → Alone (clear_defaults o.transport base_payload)
  plain-Alone e =
      let none_sent = find-sent "tls_spec" refl refl refl in
      record { no_fingerprint = ground (arith, none_sent); no_browser = ground (arith, none_sent) }

  module _ (spec : Value) where
    abbrev with_spec : Attributes
    with_spec = clear_defaults o.transport (put "tls_spec" spec base_payload)

    find-with_spec :
        (k : String)
        → str_eq "tls_spec" k ≡ false
        → str_eq "sdk_version" k ≡ false
        → str_eq "protocol_version" k ≡ false
        → str_eq "transport" k ≡ false
        → find k with_spec ≡ wired (find k (client_attributes o))
    find-with_spec k other sdk protocol transport =
        find-clear_defaults k transport o.transport (put "tls_spec" spec base_payload)
        ∙ find-put_other k "tls_spec" spec base_payload other
        ∙ find-base_payload k sdk protocol

    spec-Alone :
        is_nothing o.tls_fingerprint ≡ true → equals "none" o.impersonate ≡ true → Alone with_spec
    unfolding wire
    spec-Alone fingerprint browser = record {
      no_fingerprint =
          λ h. rw (find-with_spec "tls_fingerprint" refl refl refl refl, fingerprint) refl;
      no_browser = λ h.
          rw (find-with_spec "impersonate" refl refl refl refl) (none_wanted o.impersonate browser);
    }
      where
        none_wanted : (v : Value) → equals "none" v ≡ true → wants_none (wired (some v)) ≡ true
        none_wanted (text t) e = e
        none_wanted (member t) e = e
        none_wanted v e = cc

  -- A `tls_spec` that is normalised makes a message of the options, if nothing else is set beside it.
  pub client_payload-Single :
      (encoded_length : Json → ℕ) (input : SpecInput) (j : Json)
      → o.tls_spec ≡ some input
      → normalize_tls_spec encoded_length input ≡ ok j
      → is_nothing o.tls_fingerprint ≡ true
      → equals "none" o.impersonate ≡ true
      → (p : Attributes) × (client_payload encoded_length o ≡ ok p) × Single p
  unfolding client_payload
  client_payload-Single encoded_length input j e h fingerprint browser =
      let p = with_spec (from_json j) in
      (
        put_fingerprint p,
        finished o.transport _ _ (put_spec-ok encoded_length o.tls_spec input j base_payload e h),
        named-Single p (needs_fingerprint p) refl (spec-Alone (from_json j) fingerprint browser),
      )

  pub client_payload-plain :
      (encoded_length : Json → ℕ)
      → o.tls_spec ≡ none
      → (p : Attributes) × (client_payload encoded_length o ≡ ok p) × Single p
  unfolding client_payload
  client_payload-plain encoded_length e =
      let p = clear_defaults o.transport base_payload in
      (put_fingerprint p, rw (e) refl, named-Single p (needs_fingerprint p) refl (plain-Alone e))
