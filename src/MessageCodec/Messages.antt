-- ===== src/MessageCodec/Messages.antt =====
-- Messages of src/network/message_codec.cpp that are encoded, framed, unframed and decoded.
use mathlib.Core.List.{append-nil}
use qin_db.Shared.{
  ℕ, ◌+◌, ◌-◌, ◌%◌, ◌^◌, ◌<◌, ◌≡◌, refl, subst, true, some, [], ◌++◌, arith, length, length-append,
}
use qin_db.Page.LittleEndian.{Bytes}
use qin_db.MessageCodec.Wire.{Qt, QtLaws, read_raw}
use qin_db.MessageCodec.Streams.{
  stream, nil_of_length, is_empty-false, length-put_append, length-encode_string,
  decode-encode_string_last, read_number-put, read_raw-append, decode-encode_string,
}
use qin_db.MessageCodec.{
  u32_mod, int_max, encode_message, decode_message, encode_string, AuthRequest, auth_request,
  encode_auth_request, decode_auth_request,
}

module _ (q : Qt) (laws : QtLaws q) where
  -- A message of any type, whose frame has a size below 2 ^ 31, is taken apart into its type and its
  -- payload again.
  pub decode-encode_message :
      (type : ℕ) (payload : Bytes)
      → type < 256
      → 5 + length payload < int_max
      → decode_message q (encode_message q type payload) ≡ some (type, payload)
  unfolding decode_message encode_message
  decode-encode_message type payload t h =
      let n = length payload in
      let small : (1 + n) % u32_mod ≡ 1 + n = omega arith in
      let number =
        read_number-put q laws 4 ((1 + n) % u32_mod) (q.put 1 type ++ payload) true (omega arith) in
      let kind = read_number-put q laws 1 type payload true (omega arith) in
      let whole : length (q.put 4 ((1 + n) % u32_mod) ++ (q.put 1 type ++ payload)) ≡ 5 + n =
        omega (
          arith,
          length-append (q.put 4 ((1 + n) % u32_mod)) (q.put 1 type ++ payload),
          length-append (q.put 1 type) payload,
          laws.length-put 4 ((1 + n) % u32_mod),
          laws.length-put 1 type,
        ) in
      let size : ((1 + n) % u32_mod + u32_mod - 1) % u32_mod ≡ n = omega arith in
      let raw : read_raw q n (stream payload true) ≡ (stream [] true, payload) =
        subst (λ w. read_raw q n (stream w true) ≡ (stream [] true, payload)) (append-nil payload)
          (read_raw-append q laws n payload [] true refl) in
      rw (number, kind, whole, size, raw) (ground (arith, nil_of_length payload))

  -- An authentication request whose version has 16 bits, and which is not too long for a frame, is
  -- framed, unframed and decoded to itself.
  pub decode-encode_auth_request :
      (r : AuthRequest q.Text)
      → r.protocol_version < 2 ^ 16
      → 19
          + length (q.to_utf8 r.username)
          + length (q.to_utf8 r.password)
          + length (q.to_utf8 r.database)
        < int_max
      → (payload : Bytes) × (decode_message q (encode_auth_request q r)
          ≡ some (auth_request, payload))
        × (decode_auth_request q payload ≡ some r)
  unfolding decode_auth_request encode_auth_request
  decode-encode_auth_request r h size =
      let user = encode_string q r.username in
      let pass = encode_string q r.password in
      let db = encode_string q r.database in
      let payload : Bytes = q.put 2 r.protocol_version ++ (user ++ (pass ++ db)) in
      let n : length payload
          ≡ 14
            + length (q.to_utf8 r.username)
            + length (q.to_utf8 r.password)
            + length (q.to_utf8 r.database) =
        omega (
          arith,
          length-put_append q laws 2 r.protocol_version (user ++ (pass ++ db)),
          length-append user (pass ++ db),
          length-append pass db,
          length-encode_string q laws r.username,
          length-encode_string q laws r.password,
          length-encode_string q laws r.database,
        ) in
      (
        payload,
        decode-encode_message auth_request payload (omega arith) (omega (arith, n)),
        rw
            (
              read_number-put q laws 2 r.protocol_version (user ++ (pass ++ db)) true (omega arith),
              decode-encode_string q laws r.username (pass ++ db) true (omega arith),
              decode-encode_string q laws r.password db true (omega arith),
              decode-encode_string_last q laws r.database true (omega arith),
              is_empty-false payload (omega (arith, n)),
            )
            refl,
      )
