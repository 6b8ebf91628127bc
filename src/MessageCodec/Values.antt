-- ===== src/MessageCodec/Values.antt =====
-- Values of rows in src/network/message_codec.cpp: encodeVariant, decodeVariant and the null flag.
use mathlib.Core.List.{append_assoc, append-nil}
use qin_db.Shared.{
  ℕ, ◌+◌, ◌/◌, ◌%◌, ◌^◌, ◌<◌, ◌≡◌, refl, ap, subst, ◌∙◌, Bool, true, false, not, ◌||◌, [], ◌++◌,
  arith, length, ◌==◌, if◌then◌else◌,
}
use qin_db.Page.LittleEndian.{Bytes}
use qin_db.MessageCodec.Wire.{Qt, QtLaws, read_number}
use qin_db.MessageCodec.Streams.{
  stream, read_number-put, read_raw-append, decode-encode_string_last, length-encode_string,
}
use qin_db.MessageCodec.{
  u32_mod, smallint, int_type, bigint, float_type, double_type, bool_type, Variant, null, int_value,
  long_value, double_value, text_value, bool_value, other, variant_bytes, encode_variant,
  decode_typed, decode_variant, encode_cell, decode_cell,
}

-- The types that decodeVariant reads as numbers and truth values.
abbrev pub is_int : ℕ → Bool
is_int type = type == int_type || (type == bigint || type == smallint)

abbrev pub is_double : ℕ → Bool
is_double type = type == double_type || type == float_type

module _ (q : Qt) where
  -- A value of the type of its column: an int or a long in a column of type INT, BIGINT or SMALLINT, a
  -- double under DOUBLE or FLOAT, a truth value under BOOL, a text, or a value that is sent as text,
  -- under none of these.
  abbrev pub Fits : ℕ → Variant q.Text → Type 0
  Fits type null = Unit {0}
  Fits type (int_value v) = (is_int type ≡ true) × (v < 2 ^ 32)
  Fits type (long_value v) = (is_int type ≡ true) × (v < 2 ^ 64)
  Fits type (double_value v) = (is_int type ≡ false) × (is_double type ≡ true) × (v < 2 ^ 64)
  Fits type (text_value t) =
      (is_int type ≡ false)
      × (is_double type ≡ false)
      × ((type == bool_type) ≡ false)
      × (4 + length (q.to_utf8 t) < u32_mod)
  Fits type (bool_value b) =
      (is_int type ≡ false) × (is_double type ≡ false) × ((type == bool_type) ≡ true)
  Fits type (other t) =
      (is_int type ≡ false)
      × (is_double type ≡ false)
      × ((type == bool_type) ≡ false)
      × (4 + length (q.to_utf8 t) < u32_mod)

  -- What becomes of it: of a long only the high half arrives, as an int, and what is sent as text stays
  -- a text.
  abbrev pub received : Variant q.Text → Variant q.Text
  received null = null
  received (int_value v) = int_value v
  received (long_value v) = int_value (v / 2 ^ 32)
  received (double_value v) = double_value v
  received (text_value t) = text_value t
  received (bool_value b) = bool_value b
  received (other t) = text_value t

not-flag : (b : Bool) → not ((if b then 1 else 0) == 0) ≡ b
not-flag true = refl
not-flag false = refl

module _ (q : Qt) (laws : QtLaws q) where
  read_number-put_last :
      (n v : ℕ) (ok : Bool)
      → v < 256 ^ n
      → read_number q n (stream (q.put n v) ok) ≡ (stream [] ok, v)
  read_number-put_last n v ok h =
      subst (λ w. read_number q n (stream w ok) ≡ (stream [] ok, v)) (append-nil (q.put n v))
        (read_number-put q laws n v [] ok h)

  -- The size and the bytes of a value are taken off the stream.
  decode_variant-append :
      (type : ℕ) (v : Variant q.Text) (bs : Bytes) (ok : Bool)
      → 0 < length (variant_bytes q v)
      → length (variant_bytes q v) < u32_mod
      → decode_variant q type (stream (encode_variant q v ++ bs) ok)
        ≡ (stream bs ok, decode_typed q type (variant_bytes q v))
  unfolding decode_variant encode_variant
  decode_variant-append type v bs ok some_bytes short =
      let u = variant_bytes q v in
      rw
        (
          append_assoc (q.put 4 (length u % u32_mod)) u bs,
          read_number-put q laws 4 (length u % u32_mod) (u ++ bs) ok (omega arith),
          read_raw-append q laws (length u % u32_mod) u bs ok (omega arith),
        )
        (ground arith)

  -- The same behind the flag of a value that is not null.
  pub decode_cell-append :
      (type : ℕ) (v : Variant q.Text) (bs : Bytes) (ok : Bool)
      → encode_cell q v ≡ q.put 1 0 ++ encode_variant q v
      → 0 < length (variant_bytes q v)
      → length (variant_bytes q v) < u32_mod
      → decode_cell q type (stream (encode_cell q v ++ bs) ok)
        ≡ (stream bs ok, decode_typed q type (variant_bytes q v))
  unfolding decode_cell
  decode_cell-append type v bs ok cell some_bytes short =
      rw
        (
          cell,
          append_assoc (q.put 1 0) (encode_variant q v) bs,
          read_number-put q laws 1 0 (encode_variant q v ++ bs) ok (omega arith),
          decode_variant-append type v bs ok some_bytes short,
        )
        refl

  -- Every value that fits the type of its column is decoded to what becomes of it, whatever follows it.
  pub decode-encode_cell :
      (type : ℕ) (v : Variant q.Text) (bs : Bytes) (ok : Bool)
      → Fits q type v
      → decode_cell q type (stream (encode_cell q v ++ bs) ok) ≡ (stream bs ok, received q v)
  unfolding encode_cell variant_bytes decode_typed
  decode-encode_cell type null bs ok f =
      unfold decode_cell in rw (read_number-put q laws 1 1 bs ok (omega arith)) refl
  decode-encode_cell type (int_value v) bs ok (is, small) =
      let n = laws.length-put 4 v in
      decode_cell-append type (int_value v) bs ok refl (omega (arith, n)) (omega (arith, n))
      ∙ rw (is, read_number-put_last 4 v true (omega arith)) refl
  decode-encode_cell type (long_value v) bs ok (is, small) =
      let n = laws.length-put 8 v in
      decode_cell-append type (long_value v) bs ok refl (omega (arith, n)) (omega (arith, n))
      ∙ rw
          (
            is,
            laws.put_long v,
            read_number-put q laws 4 (v / 2 ^ 32) (q.put 4 (v % 2 ^ 32)) true (omega arith),
          )
          refl
  decode-encode_cell type (double_value v) bs ok (not_int, is, small) =
      let n = laws.length-put 8 v in
      decode_cell-append type (double_value v) bs ok refl (omega (arith, n)) (omega (arith, n))
      ∙ rw (not_int, is, read_number-put_last 8 v true (omega arith)) refl
  decode-encode_cell type (text_value t) bs ok (not_int, not_double, not_bool, short) =
      let n = length-encode_string q laws t in
      decode_cell-append type (text_value t) bs ok refl (omega (arith, n)) (omega (arith, n))
      ∙ rw (not_int, not_double, not_bool, decode-encode_string_last q laws t true (omega arith))
          refl
  decode-encode_cell type (bool_value b) bs ok (not_int, not_double, is) =
      let n = laws.length-put 1 (if b then 1 else 0) in
      decode_cell-append type (bool_value b) bs ok refl (omega (arith, n)) (omega (arith, n))
      ∙ rw
          (not_int, not_double, is, read_number-put_last 1 (if b then 1 else 0) true (ground arith))
          (ap (λ c. (stream bs ok, bool_value c)) (not-flag b))
  decode-encode_cell type (other t) bs ok (not_int, not_double, not_bool, short) =
      let n = length-encode_string q laws t in
      decode_cell-append type (other t) bs ok refl (omega (arith, n)) (omega (arith, n))
      ∙ rw (not_int, not_double, not_bool, decode-encode_string_last q laws t true (omega arith))
          refl
