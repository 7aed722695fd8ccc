-- ===== src/Options/Request/Sent.antt =====
-- What `_request_options` of python/gohttpx.py lets through.
use go_httpx.Prelude.{
  String, Bool, true, false, Option, none, some, List, ◌≡◌, refl, ok, err, arith, str_eq, eq_iff,
  if◌then◌else◌, Ensures-guard, leb, Ensures, Ensures-ok, Ensures-err,
}
use go_httpx.Prelude.Json.{pos, is_subset}
use go_httpx.Options.{
  Value, nothing, sequence, other_sequence, whole, Attributes, done, attribute, wire, wire_fields,
  find, names, without,
}
use go_httpx.Options.Request.{
  type_error, value_error, attributes, option_fields, Extension, absent, options, given, unusable,
  all_text, as_list, list_entry, list_orders, check_rest, is_order, is_flag, checks, check_options,
  check_retry, request_options,
}

abbrev pub is_small : Value → Bool
is_small (whole (pos n)) = leb n 10
is_small _ = false

abbrev pub is_text_list : Value → Bool
is_text_list (sequence vs) = all_text vs
is_text_list _ = false

pub record Sendable (result : Attributes) : Type 0 where
  pub known_names : is_subset (names result) option_fields ≡ true
  pub header_order_text : checks is_text_list (find "header_order" result) ≡ true
  pub pseudo_order_text : checks is_text_list (find "pseudo_header_order" result) ≡ true
  pub chunked_flag : checks is_flag (find "force_chunked" result) ≡ true
  pub close_flag : checks is_flag (find "close_connection" result) ≡ true
  pub trace_flag : checks is_flag (find "trace" result) ≡ true
  pub dump_flag : checks is_flag (find "dump" result) ≡ true
  pub retry_small : checks is_small (find "retry_count" result) ≡ true

find-without : (k : String) (r : Attributes) → find k (without k r) ≡ none
find-without k done = refl
find-without k (attribute j v r) = ground (arith, find-without k r)

find-without_other :
    (k j : String) (r : Attributes) → str_eq k j ≡ false → find j (without k r) ≡ find j r
find-without_other k j done h = refl
find-without_other k j (attribute i v r) h = ground (arith, find-without_other k j r h, eq_iff i k)

subset-without :
    (k : String) (r : Attributes) (ks : List String)
    → is_subset (names r) ks ≡ true
    → is_subset (names (without k r)) ks ≡ true
subset-without k done ks h = refl
subset-without k (attribute j v r) ks h = ground (arith, subset-without k r ks)

module _ (r : Attributes) where
  others :
      (j : String) → str_eq "retry_count" j ≡ false → find j (without "retry_count" r) ≡ find j r
  others j h = find-without_other "retry_count" j r h

  -- What `check_options` has found where it comes to `retry_count`.
  record Flagged : Type 0 where
    known_names : is_subset (names r) option_fields ≡ true
    header_order_text : checks is_text_list (find "header_order" r) ≡ true
    pseudo_order_text : checks is_text_list (find "pseudo_header_order" r) ≡ true
    chunked_flag : checks is_flag (find "force_chunked" r) ≡ true
    close_flag : checks is_flag (find "close_connection" r) ≡ true
    trace_flag : checks is_flag (find "trace" r) ≡ true
    dump_flag : checks is_flag (find "dump" r) ≡ true

  dropped-Sendable : Flagged → Sendable (without "retry_count" r)
  dropped-Sendable f = record {
    known_names = subset-without "retry_count" r option_fields f.known_names;
    header_order_text = rw (others "header_order" refl) f.header_order_text;
    pseudo_order_text = rw (others "pseudo_header_order" refl) f.pseudo_order_text;
    chunked_flag = rw (others "force_chunked" refl) f.chunked_flag;
    close_flag = rw (others "close_connection" refl) f.close_flag;
    trace_flag = rw (others "trace" refl) f.trace_flag;
    dump_flag = rw (others "dump" refl) f.dump_flag;
    retry_small = rw (find-without "retry_count" r) refl;
  }

  kept-Sendable : Flagged → checks is_small (find "retry_count" r) ≡ true → Sendable r
  kept-Sendable f small = record {
    known_names = f.known_names;
    header_order_text = f.header_order_text;
    pseudo_order_text = f.pseudo_order_text;
    chunked_flag = f.chunked_flag;
    close_flag = f.close_flag;
    trace_flag = f.trace_flag;
    dump_flag = f.dump_flag;
    retry_small = small;
  }

  retry-Sendable :
      (o : Option Value) → find "retry_count" r ≡ o → Flagged → Ensures Sendable (check_retry r o)
  retry-Sendable none e f = Ensures-ok r (kept-Sendable f (rw (e) refl))
  retry-Sendable (some nothing) e f = Ensures-ok (without "retry_count" r) (dropped-Sendable f)
  retry-Sendable (some (whole (pos n))) e f =
      elim (leb n 10)
          as (λ b.
            checks is_small (find "retry_count" r) ≡ b
            → Ensures Sendable (if b then ok r else err value_error)) [
              | true ↦ λ small. Ensures-ok r (kept-Sendable f small)
              | false ↦ λ large. Ensures-err value_error
            ]
        (rw (e) refl)
  retry-Sendable (some v) e f = Ensures-err value_error

module _ (k : String) where
  as_list-order : (v : Value) → is_order v ≡ true → is_text_list (as_list v) ≡ true
  as_list-order (sequence vs) h = h
  as_list-order (other_sequence vs) h = h
  as_list-order v h = ground arith

  list_entry-order :
      (r : Attributes)
      → checks is_order (find k r) ≡ true
      → checks is_text_list (find k (list_entry k r)) ≡ true
  unfolding list_entry
  list_entry-order done h = refl
  list_entry-order (attribute j v rest) h = ground (arith, as_list-order v, list_entry-order rest)

  list_entry-other :
      (j : String) (r : Attributes) → str_eq k j ≡ false → find j (list_entry k r) ≡ find j r
  unfolding list_entry
  list_entry-other j done h = refl
  list_entry-other j (attribute i v rest) h = ground (arith, list_entry-other j rest h, eq_iff i k)

  names-list_entry : (r : Attributes) → names (list_entry k r) ≡ names r
  unfolding list_entry
  names-list_entry done = refl
  names-list_entry (attribute j v rest) = ground (arith, names-list_entry rest)

  as_list-kept : (v : Value) → is_text_list v ≡ true → as_list v ≡ v
  as_list-kept (sequence vs) h = refl
  as_list-kept v h = ground arith

  list_entry-kept : (r : Attributes) → checks is_text_list (find k r) ≡ true → list_entry k r ≡ r
  unfolding list_entry
  list_entry-kept done h = refl
  list_entry-kept (attribute j v rest) h = ground (arith, as_list-kept v, list_entry-kept rest)

check_rest-Sendable :
    (r : Attributes)
    → is_subset (names r) option_fields ≡ true
    → checks is_text_list (find "header_order" r) ≡ true
    → checks is_text_list (find "pseudo_header_order" r) ≡ true
    → Ensures Sendable (check_rest r)
check_rest-Sendable r known a b = Ensures-guard _ type_error _ λ c.
    Ensures-guard _ type_error _ λ d. Ensures-guard _ type_error _ λ e.
      Ensures-guard _ type_error _ λ f. retry-Sendable r (find "retry_count" r) refl (record {
        known_names = known;
        header_order_text = a;
        pseudo_order_text = b;
        chunked_flag = c;
        close_flag = d;
        trace_flag = e;
        dump_flag = f;
      })

check_options-Sendable :
    (r : Attributes) → is_subset (names r) option_fields ≡ true → Ensures Sendable (check_options r)
unfolding check_options
check_options-Sendable r known = Ensures-guard _ type_error _ λ a. Ensures-guard _ type_error _ λ b.
    let first = list_entry "header_order" r in
    check_rest-Sendable (list_orders r)
      (rw (names-list_entry "pseudo_header_order" first, names-list_entry "header_order" r) known)
      (rw (list_entry-other "pseudo_header_order" "header_order" first refl)
        (list_entry-order "header_order" r a))
      (list_entry-order "pseudo_header_order" first b)

text_list_order : (v : Value) → is_text_list v ≡ true → is_order v ≡ true
text_list_order (sequence vs) h = h
text_list_order v h = ground arith

checked_order : (o : Option Value) → checks is_text_list o ≡ true → checks is_order o ≡ true
checked_order none h = refl
checked_order (some v) h = text_list_order v h

small_retry :
    (r : Attributes) (o : Option Value) → checks is_small o ≡ true → check_retry r o ≡ ok r
small_retry r none h = refl
small_retry r (some (whole (pos n))) h = ground arith
small_retry r (some v) h = ground arith

check_rest-kept : (r : Attributes) → Sendable r → check_rest r ≡ ok r
check_rest-kept r s =
    rw (s.chunked_flag, s.close_flag, s.trace_flag, s.dump_flag)
      (small_retry r (find "retry_count" r) s.retry_small)

Sendable-kept : (r : Attributes) → Sendable r → check_options r ≡ ok r
unfolding check_options
Sendable-kept r s =
    rw
      (
        list_entry-kept "header_order" r s.header_order_text,
        list_entry-kept "pseudo_header_order" r s.pseudo_order_text,
        checked_order (find "header_order" r) s.header_order_text,
        checked_order (find "pseudo_header_order" r) s.pseudo_order_text,
      )
      (check_rest-kept r s)

subset-wire_fields :
    (rest : Attributes) (ks : List String)
    → is_subset (names rest) ks ≡ true
    → is_subset (names (wire_fields rest)) ks ≡ true
unfolding wire
subset-wire_fields done ks h = refl
subset-wire_fields (attribute k v rest) ks h = ground (arith, subset-wire_fields rest ks)

pub request_options-Sendable : (e : Extension) → Ensures Sendable (request_options e)
unfolding request_options wire
request_options-Sendable absent = Ensures-ok done (record {
  known_names = refl;
  header_order_text = refl;
  pseudo_order_text = refl;
  chunked_flag = refl;
  close_flag = refl;
  trace_flag = refl;
  dump_flag = refl;
  retry_small = refl;
})
request_options-Sendable (options o) =
    check_options-Sendable (wire_fields (attributes o))
      (subset-wire_fields (attributes o) option_fields refl)
request_options-Sendable (given r) =
    Ensures-guard _ type_error _ λ known. check_options-Sendable r known
request_options-Sendable unusable = Ensures-err type_error

-- What is sent as the options of a request has no unknown name, lists of texts as orders, Booleans as
-- flags and a retry count from 0 to 10, and every mapping of that kind is sent as it stands.
pub request_options_lem :
    (e : Extension) (r : Attributes)
    → Sendable r
    → Ensures Sendable (request_options e) × (request_options (given r) ≡ ok r)
unfolding request_options
request_options_lem e r s = (request_options-Sendable e, rw (s.known_names) (Sendable-kept r s))
