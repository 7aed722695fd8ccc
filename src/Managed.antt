-- ===== src/Managed.antt =====
-- The managed transports of python/gohttpx.py: the table of transports of `_ManagedState`, and the
-- two attempts of `_ManagedGoTransport.handle_request` and of its asynchronous twin.
pub mod Entries
pub mod Attempts
pub mod Async
