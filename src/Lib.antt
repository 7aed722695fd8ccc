-- ===== src/Lib.antt =====
-- GoHTTPX: an httpx transport that hands every request to a local Go service over a JSON control
-- protocol, and a runtime that starts and watches that service.
--
-- The parts and their files:
--   Prelude      shared names, Boolean tests, lists over native numbers, results, JSON values, bits.
--   Tls          the import of a ClientHello in python/gohttpx.py: Tls/Wire (_take_vector, _uint16_list,
--                _unwrap_client_hello), Tls/Names (name tables, _is_grease_id, _tls_name),
--                Tls/Extension (_protocol_list, _parse_key_shares, _parse_grease_ech,
--                _parse_hello_extension), Tls/Hello (tls_spec_from_client_hello, from the bytes on),
--                Tls/Text (_is_hello_file, _parse_hello_hex_text and the input of
--                tls_spec_from_client_hello), Tls/Spec (_normalize_tls_spec).
--   Process      JobProcess of python/_gohttpx_windows.py: the methods, and Process/Create (__init__).
--   Runtime      ManagedRuntime of python/_gohttpx_runtime.py: the state and the clients' methods;
--                Runtime/Ready (ensure, ensure_async), Runtime/Backoff (_record_failure),
--                Runtime/Launch (_launch, _probe), Runtime/Supervisor (_supervise).
--   Transport    the control protocol of python/gohttpx.py: Transport/Envelope (_decode_json,
--                _raise_service_error), Transport/Call (_call), Transport/Session
--                (_validate_capabilities, _created_client_id, _create_session, _delete_session),
--                Transport/Response (_response), Transport/Handle (_GoTransport),
--                Transport/Async (what _AsyncGoTransport shares between its tasks, and the tasks, with
--                Transport/Async/Ends on the end of its close).
--   Options      the options in python/gohttpx.py: Options (_wire), Options/Request (_request_options,
--                _timeout_ms), Options/Client (ClientOptions, _client_payload), Options/Resolve
--                (_resolve_client_options), Options/Payload (_request_payload).
--   Managed      Managed/Entries (_ManagedState, close), Managed/Attempts (the loop of
--                _ManagedGoTransport.handle_request), Managed/Async (that of
--                _ManagedAsyncGoTransport.handle_async_request) and Managed/Async/Close (its _run_close
--                and aclose).
--   Clients      configure_runtime and the constructors of Client, AsyncClient, _ManagedState and
--                _ManagedGoTransport in python/gohttpx.py; status of python/_gohttpx_runtime.py.
--   Checks       runs on concrete inputs and the theorems applied there.
-- A managed transport asks the runtime for an instance, keeps one transport for each instance in its
-- table, sends the request through it and reports faults to the runtime, whose supervisor starts
-- processes again.
--
-- How the code is read. A method under a lock is one function on a record of the object's attributes.
-- The supervisor thread is a machine that steps from one place of its code to the next, and a run is a
-- list of its steps and of the clients' calls in any order. The other side of a connection is a
-- function from the requests sent so far to what happens, so every service and every failure of the
-- network is covered. What other threads do during a wait is a function on the state. Exceptions are
-- values; messages are left out where no code reads them. A coroutine is cut at its awaits, and its
-- parts are steps that may come in any order; the session lock is held over one await only, by a rebuild.
-- The tasks of Transport/Async do more than the code allows in one place: a request may lose its session
-- any number of times, where the code rebuilds once for each request.
--
-- Times are natural numbers: microseconds of the monotonic clock in Runtime, ticks of any resolution in
-- Transport; the rounding of differences of the clock's floats is not modelled. A float of JSON or of a
-- request's timeout is its bits, and what math.ceil makes of its milliseconds is a parameter, with the
-- hypothesis that it does not fall where the float rises. An OverflowError is a value like the others.
--
-- Fuel: unwrap_records, extension_specs, key_shares and protocol_names take the number of bytes, of
-- which each round passes at least one; scan_null and scan_depth take the number of values in the
-- message, and the theorems on them say that this is enough. A request that waits for another thread
-- takes the list of wake-ups it meets.
--
-- Parameters: the milliseconds of a float, base64 coding, the test of a timestamp, what json.loads makes of
-- a body or a text, the length of what json.dumps writes, the file system and UTF-8 in the import of a
-- text, and what each call of the Windows API answers. Not modelled: what the readers' threads read, the
-- calls of _dispose, an exception outside Exception inside the calls of a synchronous request (only
-- Transport/Handle/Rebuild has it, as an end of a rebuild), and a second cancellation while a request
-- cleans up after the first.
pub mod Prelude
pub mod Tls
pub mod Process
pub mod Runtime
pub mod Transport
pub mod Options
pub mod Managed
pub mod Clients
pub mod Checks
