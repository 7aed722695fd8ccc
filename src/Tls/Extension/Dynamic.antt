-- ===== src/Tls/Extension/Dynamic.antt =====
-- The readers of key_share and ECH of python/gohttpx.py: what a client sends in them changes with
-- every connection, and the parse does not depend on it.
use go_httpx.Prelude.{
  ℕ, zero, suc, ◌+◌, ◌^◌, ◌≤◌, ◌<◌, ◌≡◌, refl, sym, ap, ◌∙◌, List, [], ◌∷◌, ◌++◌, append_assoc,
  append-nil, arith, length, length-append, le→leb, ltb→leb-false, lt→ltb, ==-true, All, ok, true,
  traverse, ◌>>=◌, ◌-◌,
}
use go_httpx.Prelude.Json.{Json, str, int, pos, object, array}
use go_httpx.Tls.Wire.Vector.{
  to_bytes, vector, length-vector, from_bytes-to_bytes, take_vector-vector,
}
use go_httpx.Tls.Wire.Sent.{
  Sent, FitsSent, sent_bytes, length-sent_bytes, length-items, kind_bytes, size_bytes,
}
use go_httpx.Tls.Extension.{
  key_shares, share_group, parse_key_shares, parse_grease_ech, one_to_three,
}

module _ {body : List ℕ} (before : List ℕ) (s : Sent) (after : List ℕ) (cursor : ℕ)
    (e : body ≡ before ++ (to_bytes 2 s.kind ++ (vector 2 s.body ++ after)))
    (at : cursor ≡ length before) (fits : FitsSent s) where
  share_round :
      (fuel : ℕ)
      → key_shares (suc fuel) body cursor ≡ (
          share_group s.kind >>= λ share.
          key_shares fuel body (cursor + (4 + length s.body)) >>= λ shares. ok (share ∷ shares))
  unfolding key_shares
  share_round fuel =
      let len = length-items before s after cursor e at fits in
      rw (
        kind_bytes before s after cursor e at fits,
        size_bytes before s after cursor e at fits,
        ltb→leb-false (length body) cursor (omega (arith, len)),
        le→leb (cursor + 4) (length body) (omega (arith, len)),
        le→leb (cursor + (4 + length s.body)) (length body) (omega (arith, len)),
      )

end_of_shares :
    (fuel : ℕ) (body : List ℕ) (cursor : ℕ)
    → cursor ≡ length body
    → key_shares fuel body cursor ≡ ok []
unfolding key_shares
end_of_shares zero body cursor e = refl
end_of_shares (suc fuel) body cursor e = rw (le→leb (length body) cursor (omega arith))

key_shares-sent_bytes :
    {body : List ℕ} (fuel : ℕ) (before : List ℕ) (ss : List Sent) (cursor : ℕ)
    → body ≡ before ++ sent_bytes ss
    → cursor ≡ length before
    → All FitsSent ss
    → length ss ≤ fuel
    → key_shares fuel body cursor ≡ traverse (λ s. share_group s.kind) ss
key_shares-sent_bytes {body} fuel before [] cursor e at fits enough =
    end_of_shares fuel body cursor (omega (arith, ap length e, length-append before []))
key_shares-sent_bytes {body} zero before (s ∷ ss) cursor e at fits enough = absurd (omega arith)
key_shares-sent_bytes {body} (suc fuel) before (s ∷ ss) cursor e at fits enough =
    let head = to_bytes 2 s.kind ++ vector 2 s.body in
    share_round before s (sent_bytes ss) cursor e at fits.0 fuel
    ∙ ap (λ rest. share_group s.kind >>= λ share. rest >>= λ shares. ok (share ∷ shares))
        (key_shares-sent_bytes fuel (before ++ head) ss (cursor + (4 + length s.body))
          (e
            ∙ ap (◌++◌ before) (sym (append_assoc (to_bytes 2 s.kind) (vector 2 s.body) _))
            ∙ sym (append_assoc before head (sent_bytes ss)))
          (omega (arith, length-append before head)) fits.1 (omega arith))

-- A key_share extension is read as the list of its groups; the public keys are passed over.
pub parse_key_shares-vector :
    (s : Sent) (ss : List Sent)
    → All FitsSent (s ∷ ss)
    → length (sent_bytes (s ∷ ss)) < 2 ^ 16
    → parse_key_shares (vector 2 (sent_bytes (s ∷ ss)))
      ≡ traverse (λ (share : Sent). share_group share.kind) (s ∷ ss)
unfolding parse_key_shares
parse_key_shares-vector s ss fits small =
    let body = sent_bytes (s ∷ ss) in
    rw (take_vector-vector [] body [] 0 2 (sym (append-nil (vector 2 body))) refl small) (
      rw (
        ==-true (0 + 2 + length body) (length (vector 2 body))
            (omega (arith, length-vector 2 body)),
        lt→ltb 0 (length body) (omega arith),
        key_shares-sent_bytes (length body) [] (s ∷ ss) 0 refl refl fits
            (length-sent_bytes (s ∷ ss)),
      ))

-- An outer ECH extension as a client sends it: cipher suite, config ID, key and payload.
abbrev pub ech_bytes : ℕ → ℕ → ℕ → List ℕ → List ℕ → List ℕ
ech_bytes kdf_id aead_id config_id key payload =
    (0 ∷ to_bytes 2 kdf_id ++ (to_bytes 2 aead_id ++ config_id ∷ []))
    ++ (vector 2 key ++ (vector 2 payload ++ []))

-- What `_parse_grease_ech` keeps of it: the suite, and the length of the payload less the tag.
abbrev pub ech_spec : ℕ → ℕ → ℕ → Json
ech_spec kdf_id aead_id payload_length = object (
    ("name", str "encrypted_client_hello")
    ∷ (
      "candidate_cipher_suites",
      array (object (("kdf_id", int (pos kdf_id)) ∷ ("aead_id", int (pos aead_id)) ∷ []) ∷ []),
    )
    ∷ ("candidate_payload_lens", array (int (pos (payload_length - 16)) ∷ []))
    ∷ [])

-- A GREASE ECH extension with a 32-byte key is read as its suite and its payload's length: the key,
-- the config ID and the payload's bytes are dropped.
pub parse_grease_ech-ech_bytes :
    (kdf_id aead_id config_id : ℕ) (key payload : List ℕ)
    → kdf_id < 2 ^ 16
    → aead_id < 2 ^ 16
    → one_to_three kdf_id ≡ true
    → one_to_three aead_id ≡ true
    → length key ≡ 32
    → 16 < length payload
    → length payload < 2 ^ 16
    → parse_grease_ech (ech_bytes kdf_id aead_id config_id key payload)
      ≡ ok (ech_spec kdf_id aead_id (length payload))
unfolding parse_grease_ech
parse_grease_ech-ech_bytes kdf_id aead_id config_id key payload kdf aead kdf_ok aead_ok k p q =
    let fixed = 0 ∷ to_bytes 2 kdf_id ++ (to_bytes 2 aead_id ++ config_id ∷ []) in
    let sent = ech_bytes kdf_id aead_id config_id key payload in
    let total : length sent ≡ 42 + length payload = omega (
      arith,
      length-append fixed (vector 2 key ++ (vector 2 payload ++ [])),
      length-append key (vector 2 payload ++ []),
      length-append payload [],
    ) in
    rw
      (
        le→leb 10 (length sent) (omega arith),
        from_bytes-to_bytes 2 kdf_id kdf,
        from_bytes-to_bytes 2 aead_id aead,
        kdf_ok,
        aead_ok,
        take_vector-vector fixed key (vector 2 payload ++ []) 6 2 refl refl (omega arith),
        take_vector-vector (fixed ++ vector 2 key) payload [] (6 + 2 + length key) 2
            (sym (append_assoc fixed (vector 2 key) (vector 2 payload ++ [])))
            (omega (arith, length-append key [])) q,
      )
      (rw (
        ==-true (6 + 2 + length key + 2 + length payload) (length sent) (omega arith),
        ==-true (length key) 32 k,
        lt→ltb 16 (length payload) p,
      ))
