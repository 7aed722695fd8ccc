-- ===== src/Options/Request.antt =====
-- `_request_options` and `_timeout_ms` of python/gohttpx.py: what a request asks of the service.
pub mod Sent
pub mod Limits
use go_httpx.Prelude.{
  ℕ, min, max, String, Bool, true, false, ◌&&◌, not, Option, none, some, List, [], ◌∷◌, leb, str_eq,
  if◌then◌else◌, Result, ok, err, ◌>>=◌, ◌>>◌, guard,
}
use go_httpx.Prelude.Json.{ℤ, pos, negsuc, is_subset}
use go_httpx.Options.{
  Value, nothing, flag, whole, text, member, instance_of, mapping, sequence, other_sequence, Values,
  no_more, item, Attributes, done, attribute, wire, find, names, without,
}

pub data OptionError : Type 0 where
  type_error : OptionError
  value_error : OptionError

abbrev pub Checked : Type 0 → Type 0
Checked A = Result OptionError A

-- `RequestOptions`: nothing checks what its fields are set to.
pub record RequestOptions : Type 0 where
  pub header_order : Value
  pub pseudo_header_order : Value
  pub force_chunked : Value
  pub close_connection : Value
  pub trace : Value
  pub dump : Value
  pub retry_count : Value

abbrev pub attributes : RequestOptions → Attributes
attributes o = attribute "header_order" o.header_order (
    attribute "pseudo_header_order" o.pseudo_header_order (
      attribute "force_chunked" o.force_chunked (
        attribute "close_connection" o.close_connection (
          attribute "trace" o.trace
            (attribute "dump" o.dump (attribute "retry_count" o.retry_count done))))))

abbrev pub option_fields : List String
option_fields =
    "header_order" ∷ "pseudo_header_order" ∷ "force_chunked" ∷ "close_connection" ∷ "trace" ∷ "dump"
    ∷ "retry_count" ∷ []

-- The extension `go_req`: None, an instance of the dataclass, a mapping with text keys, or anything else.
pub data Extension : Type 0 where
  absent : Extension
  options : RequestOptions → Extension
  given : Attributes → Extension
  unusable : Extension

abbrev pub unwrap : Value → Attributes
unwrap (mapping rest) = rest
unwrap _ = done

abbrev pub is_text_value : Value → Bool
is_text_value (text s) = true
is_text_value (member s) = true
is_text_value _ = false

abbrev pub all_text : Values → Bool
all_text no_more = true
all_text (item v vs) = is_text_value v && all_text vs

-- A text is no sequence here.
abbrev pub is_order : Value → Bool
is_order (sequence vs) = all_text vs
is_order (other_sequence vs) = all_text vs
is_order _ = false

abbrev pub is_flag : Value → Bool
is_flag (flag b) = true
is_flag _ = false

-- Where the name is missing there is nothing to check.
abbrev pub checks : (Value → Bool) → Option Value → Bool
checks p none = true
checks p (some v) = p v

abbrev pub check_retry : Attributes → Option Value → Checked Attributes
check_retry result none = ok result
check_retry result (some nothing) = ok (without "retry_count" result)
check_retry result (some (whole (pos n))) = if leb n 10 then ok result else err value_error
check_retry result (some _) = err value_error

-- `result[name] = list(result[name])`, where the name is there.
abbrev pub as_list : Value → Value
as_list (other_sequence vs) = sequence vs
as_list v = v

unfoldable pub list_entry : String → Attributes → Attributes
list_entry k done = done
list_entry k (attribute j v rest) =
    let more = list_entry k rest in
    if str_eq j k then attribute j (as_list v) rest else attribute j v more

abbrev pub list_orders : Attributes → Attributes
list_orders result = list_entry "pseudo_header_order" (list_entry "header_order" result)

abbrev pub check_rest : Attributes → Checked Attributes
check_rest result = do
  guard (checks is_flag (find "force_chunked" result)) type_error
  guard (checks is_flag (find "close_connection" result)) type_error
  guard (checks is_flag (find "trace" result)) type_error
  guard (checks is_flag (find "dump" result)) type_error
  check_retry result (find "retry_count" result)

unfoldable pub check_options : Attributes → Checked Attributes
unfolding list_entry
check_options result = do
  guard (checks is_order (find "header_order" result)) type_error
  guard (checks is_order (find "pseudo_header_order" (list_entry "header_order" result))) type_error
  check_rest (list_orders result)

unfoldable pub request_options : Extension → Checked Attributes
unfolding wire check_options
request_options absent = ok done
request_options (options o) = check_options (unwrap (wire (instance_of (attributes o))))
request_options (given result) = do
  guard (is_subset (names result) option_fields) type_error
  check_options result
request_options unusable = err type_error

-- An entry of the extension `timeout`: None; a finite number of seconds that is not negative, as the 64
-- bits of its float without the sign, which are ordered as the floats are; an int too large for a float,
-- for which `math.isfinite` raises OverflowError; or anything else.
pub data Limit : Type 0 where
  unlimited : Limit
  limit : (bits : ℕ) → Limit
  huge_limit : Limit
  bad_limit : Limit

pub data Timeouts : Type 0 where
  no_timeouts : Timeouts
  timeouts : List Limit → Timeouts
  bad_timeouts : Timeouts

-- A GoProtocolError, or an OverflowError.
pub data TimeoutError : Type 0 where
  wrong_timeout : TimeoutError
  too_large : TimeoutError

abbrev pub add_limit : ℕ → Result TimeoutError (List ℕ) → Result TimeoutError (List ℕ)
add_limit n (ok ns) = ok (n ∷ ns)
add_limit n (err e) = err e

abbrev pub read_limits : List Limit → Result TimeoutError (List ℕ)
read_limits [] = ok []
read_limits (unlimited ∷ ls) = read_limits ls
read_limits (limit n ∷ ls) = add_limit n (read_limits ls)
read_limits (huge_limit ∷ ls) = err too_large
read_limits (bad_limit ∷ ls) = err wrong_timeout

abbrev pub longest : List ℕ → ℕ
longest [] = 0
longest (n ∷ ns) = max n (longest ns)

abbrev pub cut_to_limit : Option ℕ → Result TimeoutError ℕ
cut_to_limit none = err too_large
cut_to_limit (some ms) = ok (min 600000 ms)

-- `ceil_ms` stands for `math.ceil(value * 1000)` on a float: `none` where the product is infinite.
module _ (ceil_ms : ℕ → Option ℕ) where
  abbrev pub clip : List ℕ → Result TimeoutError ℕ
  clip [] = ok 0
  clip (n ∷ ns) = cut_to_limit (ceil_ms (longest (n ∷ ns)))

  abbrev pub clip_limits : Result TimeoutError (List ℕ) → Result TimeoutError ℕ
  clip_limits (ok ns) = clip ns
  clip_limits (err e) = err e

  unfoldable pub timeout_ms : Timeouts → Result TimeoutError ℕ
  timeout_ms no_timeouts = ok 0
  timeout_ms bad_timeouts = err wrong_timeout
  timeout_ms (timeouts ls) = clip_limits (read_limits ls)
