-- ===== src/Checks/Managed.antt =====
-- A managed request that is sent again, and a managed transport that is used and closed.
use go_httpx.Prelude.{◌+◌, ◌≡◌, refl, inl, ◌⊎◌, true, false, some, [], ◌∷◌, ok, arith, All}
use go_httpx.Transport.{target}
use go_httpx.Transport.Envelope.{
  decode_json, service_error, error_fault, exception_type, scan_null, values_in,
}
use go_httpx.Transport.Call.{call, settle, read_reply, read_fields, control_timeout}
use go_httpx.Transport.Call.Safety.{Unprocessed}
use go_httpx.Transport.Handle.{handle_request, attempt, post, answer, is_not_found}
use go_httpx.Managed.Attempts.{
  Attempt, managed_request, first_pass, second_pass, try_once, verdict, reports, second-Unprocessed,
}
use go_httpx.Managed.Entries.{
  State, start, checks_out, releases, constructed, starts_close, clears, closes_entry, ends_close,
  Reach, here, next, checkout, start_close, clear_table, end_close, close_entry, at_key,
  find_listed, clear_entry, holders,
}
use go_httpx.Managed.Entries.Objects.{EntryOk, count}
use go_httpx.Managed.Entries.Closing.{Reach-EntryOk, closed-All}
use go_httpx.Checks.Transport.{forgetful, world, clock, around, transport}

abbrev forgotten : Attempt
forgotten = record {
  has_instance = true;
  checked_out = ok transport;
  world = world forgetful;
  clock = clock;
  around = around;
}

sent_twice : (managed_request forgotten forgotten (ok 5000)).attempts ≡ 2
unfolding managed_request first_pass second_pass try_once verdict reports is_not_found
    handle_request attempt post answer call settle control_timeout read_reply read_fields
    decode_json scan_null values_in service_error error_fault exception_type
sent_twice = refl

second-Unprocessed_example :
    ((handle_request (world forgetful) clock around (ok 5000) transport).1.log ≡ [])
    ⊎ (((handle_request (world forgetful) clock around (ok 5000) transport).1.log
          ≡ target "c1" ∷ [])
        × Unprocessed (some "a1") (forgetful (target "c1" ∷ [])))
second-Unprocessed_example =
    second-Unprocessed forgotten forgotten (ok 5000) transport refl refl sent_twice

-- The constructor takes and gives back an entry; the transport is closed.
abbrev closed_state : State
closed_state = record {
  entries =
      record {
        key = 0;
        instance_object = 4;
        users = 0;
        listed = false;
        made = true;
        closes = 1;
        due = false;
        dropped = false;
      }
      ∷ [];
  active = 0;
  constructing = 0;
  closing = true;
  closed = true;
  cleared = true;
  broke_off = false;
}

closed_is_reached : Reach closed_state
unfolding checkout find_listed at_key start_close clear_table end_close clear_entry close_entry
closed_is_reached =
    let s1 = next here (checks_out start 4 true (omega arith)) in
    let s2 = next s1 (releases _ 0 false (inl (refl, (omega arith, refl)))) in
    let s3 = next s2 (constructed _ refl refl) in
    let s4 = next s3 (starts_close _ refl) in
    let s5 = next s4 (clears _ refl refl refl refl) in
    let s6 = next s5 (closes_entry _ 0 (inl (refl, refl))) in next s6 (ends_close _ refl refl)

Reach-EntryOk_example : All EntryOk closed_state.entries
Reach-EntryOk_example = Reach-EntryOk closed_is_reached

closed-All_example :
    (holders closed_state.entries ≡ 0)
    × All (λ e. e.made ≡ true → e.closes + count e.dropped ≡ 1) closed_state.entries
    × (closed_state.broke_off ≡ false
        → All (λ e. e.made ≡ true → e.closes ≡ 1) closed_state.entries)
closed-All_example = closed-All closed_is_reached refl
