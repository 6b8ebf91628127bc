-- ===== src/MessageCodec/Streams.antt =====
-- Numbers, raw bytes and strings are read back from a stream, with whatever follows them.
use mathlib.Core.List.{append_assoc, append-nil}
use qin_db.Shared.{
  ℕ, ◌+◌, ◌%◌, ◌^◌, ◌<◌, ◌≡◌, refl, sym, ap, subst, ◌∙◌, Bool, false, inl, inr, List, [], ◌∷◌, ◌++◌,
  arith, length, length-append, take-append, drop-append, ◌==◌, Bool-cases,
}
use qin_db.Page.LittleEndian.{Bytes}
use qin_db.MessageCodec.Wire.{Qt, QtLaws, Stream, read_number, read_raw}
use qin_db.MessageCodec.{u32_mod, is_empty, encode_string, decode_string}

pub nil_of_length {ℓ} : {A : Type ℓ} (xs : List A) → length xs ≡ 0 → xs ≡ []
nil_of_length [] h = refl
nil_of_length (x ∷ xs) h = absurd (omega arith)

-- A stream with these bytes to come.
abbrev pub stream : Bytes → Bool → Stream
stream bs ok = record { rest = bs; ok = ok }

module _ (q : Qt) (laws : QtLaws q) where
  pub read_number-put :
      (n v : ℕ) (bs : Bytes) (ok : Bool)
      → v < 256 ^ n
      → read_number q n (stream (q.put n v ++ bs) ok) ≡ (stream bs ok, v)
  unfolding read_number
  read_number-put n v bs ok h = rw (laws.get-put n v bs h, read_number)

  pub read_raw-append :
      (n : ℕ) (xs bs : Bytes) (ok : Bool)
      → length xs ≡ n
      → read_raw q n (stream (xs ++ bs) ok) ≡ (stream bs ok, xs)
  unfolding read_raw
  read_raw-append n xs bs ok h =
      subst (λ k. read_raw q k (stream (xs ++ bs) ok) ≡ (stream bs ok, xs)) h
        (ground (arith, length-append xs bs, take-append xs bs, drop-append xs bs))

  pub decode-encode_string :
      (t : q.Text) (bs : Bytes) (ok : Bool)
      → length (q.to_utf8 t) < u32_mod
      → decode_string q (stream (encode_string q t ++ bs) ok) ≡ (stream bs ok, t)
  unfolding decode_string encode_string
  decode-encode_string t bs ok h =
      let u = q.to_utf8 t in
      let size : length u % u32_mod ≡ length u = omega arith in
      let number = read_number-put 4 (length u % u32_mod) (u ++ bs) ok (omega arith) in
      let raw = read_raw-append (length u % u32_mod) u bs ok (omega arith) in
      rw (append_assoc (q.put 4 (length u % u32_mod)) u bs, number, raw)
        (elim (Bool-cases (length u % u32_mod == 0)) [
          | inl zero_size ↦
              let nil : u ≡ [] = nil_of_length u (ground arith) in
              let text : t ≡ q.empty =
                sym (laws.from_utf8-to_utf8 t) ∙ ap q.from_utf8 nil ∙ laws.from_utf8-nil in
              rw zero_size (ground (arith, text, ap (λ w. w ++ bs) nil))
          | inr some_size ↦ rw some_size (ground (arith, laws.from_utf8-to_utf8 t))
        ])

  -- The same at the end of the bytes.
  pub decode-encode_string_last :
      (t : q.Text) (ok : Bool)
      → length (q.to_utf8 t) < u32_mod
      → decode_string q (stream (encode_string q t) ok) ≡ (stream [] ok, t)
  decode-encode_string_last t ok h =
      subst (λ w. decode_string q (stream w ok) ≡ (stream [] ok, t))
        (append-nil (encode_string q t)) (decode-encode_string t [] ok h)

  pub length-encode_string : (t : q.Text) → length (encode_string q t) ≡ 4 + length (q.to_utf8 t)
  unfolding encode_string
  length-encode_string t =
      let u = q.to_utf8 t in
      omega (
        arith,
        length-append (q.put 4 (length u % u32_mod)) u,
        laws.length-put 4 (length u % u32_mod),
      )

  -- A number and what follows it.
  pub length-put_append : (n v : ℕ) (bs : Bytes) → length (q.put n v ++ bs) ≡ n + length bs
  length-put_append n v bs = omega (arith, length-append (q.put n v) bs, laws.length-put n v)

pub is_empty-false : (bs : Bytes) → 0 < length bs → is_empty bs ≡ false
is_empty-false [] h = absurd (omega arith)
is_empty-false (b ∷ bs) h = refl
