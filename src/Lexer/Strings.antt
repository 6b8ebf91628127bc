-- ===== src/Lexer/Strings.antt =====
-- scanString of src/parser/lexer.cpp reads back a text that was written with backslashes.
use mathlib.Core.List.{append_assoc, append-nil}
use qin_db.Shared.{
  ℕ, zero, suc, ◌≤◌, ◌≡◌, ◌≢◌, refl, sym, ◌∙◌, ap, true, false, ◌||◌, inl, inr, ◌⊎◌, ◌<◌, Option,
  none, some, [], ◌∷◌, ◌++◌, ◌==◌, if◌then◌else◌, length, arith, Bool-cases, length-append,
}
use qin_db.Page.LittleEndian.{Bytes}
use qin_db.Lexer.Keywords.{string_literal}
use qin_db.Lexer.{
  Chars, Cursor, Token, Scanned, current, advance, string_body, unescape, text_value, close_string,
  scan_string,
}

-- A backslash in front of every quote and every backslash.
abbrev pub escape : ℕ → Bytes → Bytes
escape quote [] = []
escape quote (x ∷ xs) =
    if x == quote || x == b'\\' then b'\\' ∷ x ∷ escape quote xs else x ∷ escape quote xs

abbrev pub NoNul : Bytes → Type 0
NoNul [] = Unit
NoNul (x ∷ xs) = (x ≢ 0) × NoNul xs

escape-longer : (quote : ℕ) (text : Bytes) → length text ≤ length (escape quote text)
escape-longer quote [] = omega arith
escape-longer quote (x ∷ xs) = ground (arith, escape-longer quote xs)

rest-advance : (c : Cursor) (x : ℕ) (xs : Bytes) → c.rest ≡ x ∷ xs → (advance c).rest ≡ xs
unfolding advance
rest-advance c x xs e = rw (e, advance) ground arith

current-cons : (c : Cursor) (x : ℕ) (xs : Bytes) → c.rest ≡ x ∷ xs → current c ≡ x
unfolding current
current-cons c x xs e = rw (e, current) refl

-- The loop reads the text back, and stops at the quote.
string_body-escape :
    (quote : ℕ) (text tail str : Bytes) (fuel : ℕ) (c : Cursor)
    → (quote ≡ b'\'') ⊎ (quote ≡ b'"')
    → NoNul text
    → length text < fuel
    → c.rest ≡ escape quote text ++ (quote ∷ tail)
    → (d : Cursor) × (s : Bytes) × (string_body fuel quote c str ≡ some (d, s))
      × (d.rest ≡ quote ∷ tail)
      × (s ≡ str ++ text)
unfolding string_body
string_body-escape quote text tail str zero c q n enough e = absurd (omega arith)
string_body-escape quote [] tail str (suc fuel) c q n enough e =
    let here = current-cons c quote tail e in
    let stop : (quote == quote || quote == 0) ≡ true = ground arith in
    rw (here, string_body, stop) (c, str, refl, e, sym (append-nil str))
string_body-escape quote (x ∷ text) tail str (suc fuel) c q (there, n) enough e =
    let behind = escape quote text ++ (quote ∷ tail) in
    let joined = append_assoc str (x ∷ []) text in
    elim (Bool-cases (x == quote || x == b'\\')) [
      | inl special ↦
          let split : c.rest ≡ b'\\' ∷ x ∷ behind = e ∙ rw special refl in
          let here : current c ≡ b'\\' = current-cons c b'\\' (x ∷ behind) split in
          let going : (current c == quote || current c == 0) ≡ false =
            rw here (ground (arith, q)) in
          let slash : (current c == b'\\') ≡ true = rw here refl in
          let left : (advance c).rest ≡ x ∷ behind = rest-advance c b'\\' (x ∷ behind) split in
          let kept : unescape (current (advance c)) ≡ x =
            rw (current-cons (advance c) x behind left) (ground (arith, q, special)) in
          let (d, s, found, ends, reads) =
            string_body-escape quote text tail (str ++ (x ∷ [])) fuel (advance (advance c)) q n
              (omega arith) (rest-advance (advance c) x behind left) in
          rw (string_body, going, slash, kept) (d, s, found, ends, reads ∙ joined)
      | inr plain ↦
          let split : c.rest ≡ x ∷ behind = e ∙ rw plain refl in
          let here : current c ≡ x = current-cons c x behind split in
          let going : (current c == quote || current c == 0) ≡ false =
            rw here (ground (arith, plain, there)) in
          let other : (current c == b'\\') ≡ false = rw here (ground (arith, plain)) in
          let (d, s, found, ends, reads) =
            string_body-escape quote text tail (str ++ (x ∷ [])) fuel (advance c) q n (omega arith)
              (rest-advance c x behind split) in
          rw (string_body, going, other, here) (d, s, found, ends, reads ∙ joined)
    ]

-- The string token of a text, with the cursor where reading goes on.
abbrev pub Reads : (q : Chars) → Bytes → Bytes → Option (Scanned q) → Type 0
Reads q text tail r =
    (c : Cursor) × (t : Token q.Double) × (r ≡ some (c, t, none))
    × (t.type ≡ string_literal)
    × (t.value ≡ text_value text)
    × (c.rest ≡ tail)

scan_string-ends :
    (q : Chars) (c end : Cursor) (quote : ℕ) (text tail : Bytes)
    → quote ≢ 0
    → string_body (suc (length (advance c).rest)) (current c) (advance c) [] ≡ some (end, text)
    → end.rest ≡ quote ∷ tail
    → Reads q text tail (scan_string q c)
unfolding scan_string close_string
scan_string-ends q c end quote text tail nonzero found ends =
    let open_end : (current end == 0) ≡ false =
      rw (current-cons end quote tail ends) (ground (arith, nonzero)) in
    rw (found, scan_string, open_end) (_, _, refl, refl, refl, rest-advance end quote tail ends)

-- A text without NUL, between single or double quotes and with a backslash before every such quote and
-- every backslash, is scanned as a string token of that text without an error, and reading goes on
-- behind the closing quote.
pub scan_string-escape :
    (q : Chars) (quote : ℕ) (text tail : Bytes) (line column : ℕ)
    → (quote ≡ b'\'') ⊎ (quote ≡ b'"')
    → NoNul text
    → Reads q text tail (
        scan_string q (record {
          rest = quote ∷ (escape quote text ++ (quote ∷ tail));
          line = line;
          column = column;
        }))
scan_string-escape q quote text tail line column quoted n =
    let source = quote ∷ (escape quote text ++ (quote ∷ tail)) in
    let c : Cursor = record { rest = source; line = line; column = column } in
    let behind = escape quote text ++ (quote ∷ tail) in
    let left : (advance c).rest ≡ behind = rest-advance c quote behind refl in
    let first : current c ≡ quote = current-cons c quote behind refl in
    let room : length text < suc (length (advance c).rest) =
      rw left (
        omega
          (arith, length-append (escape quote text) (quote ∷ tail), escape-longer quote text)) in
    let (d, s, found, ends, reads) =
      string_body-escape quote text tail [] (suc (length (advance c).rest)) (advance c) quoted n
        room left in
    scan_string-ends q c d quote text tail (ground (arith, quoted))
      (ap (λ k. string_body (suc (length (advance c).rest)) k (advance c) []) first
        ∙ found
        ∙ ap (λ t. some (d, t)) reads)
      ends
