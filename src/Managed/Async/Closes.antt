-- ===== src/Managed/Async/Closes.antt =====
-- Which entries a request of `_ManagedAsyncGoTransport` in python/gohttpx.py leaves closed.
use go_httpx.Prelude.{◌≡◌}
use go_httpx.Managed.Async.{finished, cancelled, broken_off, Then, ends, goes_on}

-- Every entry that was taken has its close started, unless a cancellation or a close ended the request.
unfoldable pub Tidy : Then → Type 0
Tidy (ends (finished r) t) = t.started ≡ t.taken
Tidy (ends cancelled t) = Unit {0}
Tidy (ends broken_off t) = Unit {0}
Tidy (goes_on t) = t.started ≡ t.taken
