-- ===== src/Tls.antt =====
-- The import of a captured ClientHello: `tls_spec_from_client_hello` of python/gohttpx.py and the
-- readers below it. Bytes are numbers; a parsed `tls_spec` is the JSON object that the code builds.
pub mod Wire
pub mod Names
pub mod Extension
pub mod Hello
pub mod Spec
pub mod Text
