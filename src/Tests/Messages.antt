-- ===== src/Tests/Messages.antt =====
-- Messages over a Qt whose texts are their UTF-8 bytes.
use qin_db.Shared.{
  ℕ, zero, suc, ◌+◌, ◌*◌, ◌/◌, ◌%◌, Option, none, some, [], ◌∷◌, ◌++◌, length, take, drop, leb,
  if◌then◌else◌, replicate,
}
use qin_db.Page.LittleEndian.{Bytes}
use qin_db.MessageCodec.Wire.{Qt}
use qin_db.MessageCodec.{AuthRequest, QueryResponse, null, int_value, long_value, text_value}

-- The most significant byte first.
unfoldable pub big_endian : ℕ → ℕ → Bytes
big_endian zero v = []
big_endian (suc n) v = big_endian n (v / 256) ++ ((v % 256) ∷ [])

unfoldable value_of : ℕ → Bytes → ℕ
value_of acc [] = acc
value_of acc (b ∷ bs) = value_of (acc * 256 + b) bs

unfoldable pub get_number : ℕ → Bytes → Option (ℕ × Bytes)
unfolding value_of
get_number n bs = if leb n (length bs) then some (value_of 0 (take n bs), drop n bs) else none

abbrev pub qt : Qt
qt = record {
  Text = Bytes;
  empty = [];
  to_utf8 = λ t. t;
  from_utf8 = λ t. t;
  put = big_endian;
  get = get_number;
  fresh = λ n. replicate n 0;
}

abbrev user : Bytes
user = b'a' ∷ b'b' ∷ []

abbrev login : AuthRequest Bytes
login = record { protocol_version = 1; username = user; password = b'x' ∷ []; database = [] }

-- A column of type INT and one of type TEXT; the number of the third row does not fit 32 bits.
abbrev answer : QueryResponse Bytes
answer = record {
  status = 0;
  result_type = 1;
  rows_affected = 2;
  columns = record { name = user; column_type = 3 } ∷ record { name = []; column_type = 21 } ∷ [];
  rows =
      (int_value 70000 ∷ text_value user ∷ [])
      ∷ (null ∷ null ∷ [])
      ∷ (long_value 5000000000 ∷ null ∷ [])
      ∷ [];
  current_database = user;
}
