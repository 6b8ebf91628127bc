-- ===== src/MessageCodec/Wire.antt =====
-- What src/network/message_codec.cpp uses of Qt: QDataStream in big-endian byte order, and QString
-- with its conversions to and from UTF-8.
use qin_db.Shared.{
  ℕ, ◌/◌, ◌%◌, ◌^◌, ◌<◌, ◌≡◌, Bool, true, false, Option, none, some, [], ◌++◌, leb, if◌then◌else◌,
  length, take, drop,
}
use qin_db.Page.LittleEndian.{Bytes}

-- `put n v` are the `n` bytes of a number, `get` reads them back, `fresh n` is what QByteArray's
-- resize leaves in `n` new bytes. A null QString is the empty one, as for QString's ==.
pub record Qt : Type 1 where
  pub Text : Type 0
  pub empty : Text
  pub to_utf8 : Text → Bytes
  pub from_utf8 : Bytes → Text
  pub put : ℕ → ℕ → Bytes
  pub get : ℕ → Bytes → Option (ℕ × Bytes)
  pub fresh : ℕ → Bytes

-- What Qt documents of them.
pub record QtLaws (q : Qt) : Type 0 where
  pub from_utf8-to_utf8 : (t : q.Text) → q.from_utf8 (q.to_utf8 t) ≡ t
  pub from_utf8-nil : q.from_utf8 [] ≡ q.empty
  pub length-put : (n v : ℕ) → length (q.put n v) ≡ n
  pub get-put : (n v : ℕ) (bs : Bytes) → v < 256 ^ n → q.get n (q.put n v ++ bs) ≡ some (v, bs)
  pub put_long : (v : ℕ) → q.put 8 v ≡ q.put 4 (v / 2 ^ 32) ++ q.put 4 (v % 2 ^ 32)
  pub get_short : (n : ℕ) (bs : Bytes) → length bs < n → q.get n bs ≡ none

-- A stream that is read: the bytes left, and whether its status is still Ok.
pub record Stream : Type 0 where
  pub rest : Bytes
  pub ok : Bool

abbrev pub stream_of : Bytes → Stream
stream_of bs = record { rest = bs; ok = true }

module _ (q : Qt) where
  -- operator>> of a number of `n` bytes. Past the end it gives 0, and the status says so.
  unfoldable pub read_number : ℕ → Stream → Stream × ℕ
  read_number n s = elim (q.get n s.rest) [
    | none ↦ (record { rest = []; ok = false }, 0)
    | some (v, rest) ↦ (record s { rest = rest }, v)
  ]

  -- resize and readRawData: what is missing stays as resize left it.
  unfoldable pub read_raw : ℕ → Stream → Stream × Bytes
  read_raw n s =
      if leb n (length s.rest)
      then (record s { rest = drop n s.rest }, take n s.rest)
      else (record { rest = []; ok = false }, s.rest ++ drop (length s.rest) (q.fresh n))
