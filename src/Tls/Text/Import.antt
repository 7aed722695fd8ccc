-- ===== src/Tls/Text/Import.antt =====
-- `tls_spec_from_client_hello` of python/gohttpx.py gives the same for a capture, its digits, and its hex
-- dump.
use go_httpx.Prelude.{ℕ, ◌≤◌, Bool, false, Option, List, ◌∷◌, ◌≡◌, refl, ap, ◌∙◌, All, length, ok}
use go_httpx.Tls.Text.{
  Text, given_bytes, given_text, is_hello_file, parse_hello_hex_text, hello_payload, import_hello,
}
use go_httpx.Tls.Text.Digits.{AreBytes}
use go_httpx.Tls.Text.Compact.{hex_text, parse-hex_text}
use go_httpx.Tls.Text.Dump.{Row, IsRow, dump_text, all_bytes, parse-dump_text}

module _ (is_file : Text → Bool) (read_file : Text → Option (List ℕ))
    (decode : List ℕ → Option Text) where
  text-payload :
      (text : Text) (bytes : List ℕ)
      → is_hello_file is_file text ≡ false
      → parse_hello_hex_text text ≡ ok bytes
      → import_hello is_file read_file decode (given_text text)
        ≡ import_hello is_file read_file decode (given_bytes bytes)
  unfolding import_hello hello_payload
  text-payload text bytes plain h = rw (plain, h) refl

  -- Where no file has the text for its name, the digits of at least six bytes are imported as the bytes
  -- are, and so is a hex dump of them, whatever its offsets and however the bytes are spread over its rows.
  pub import_hello-text :
      (capitals : Bool) (bs : List ℕ) (r : Row) (rows : List Row) (b : ℕ) (more : List ℕ)
      → AreBytes bs
      → 6 ≤ length bs
      → is_hello_file is_file (hex_text capitals bs) ≡ false
      → r.bytes ≡ b ∷ more
      → All IsRow (r ∷ rows)
      → all_bytes (r ∷ rows) ≡ bs
      → is_hello_file is_file (dump_text capitals (r ∷ rows)) ≡ false
      → (import_hello is_file read_file decode (given_text (hex_text capitals bs))
          ≡ import_hello is_file read_file decode (given_bytes bs))
        × (import_hello is_file read_file decode (given_text (dump_text capitals (r ∷ rows)))
            ≡ import_hello is_file read_file decode (given_bytes bs))
  import_hello-text capitals bs r rows b more are long no_file e valid same no_dump_file = (
    text-payload (hex_text capitals bs) bs no_file (parse-hex_text capitals bs are long),
    text-payload (dump_text capitals (r ∷ rows)) bs no_dump_file
        (parse-dump_text capitals r rows b more e valid ∙ ap ok same),
  )
