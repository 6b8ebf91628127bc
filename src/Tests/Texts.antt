-- ===== src/Tests/Texts.antt =====
-- SQL texts over the characters of ASCII.
use qin_db.Shared.{
  ℕ, suc, ◌≤◌, ◌≡◌, refl, Bool, ◌&&◌, ◌||◌, inl, some, List, [], ◌∷◌, ◌++◌, arith, length, leb,
  ◌==◌,
}
use qin_db.Page.LittleEndian.{Bytes}
use qin_db.Lexer.{Chars, Cursor, Token, start, scan_string, skip_blank}
use qin_db.Lexer.Scanners.{CharLaws}
use qin_db.Lexer.Progress.{all_tokens, all_tokens-start}
use qin_db.Lexer.Strings.{escape, Reads, scan_string-escape}
use qin_db.Lexer.Skipping.{left, AtToken, skip_blank-AtToken}

abbrev is_digit : ℕ → Bool
is_digit x = leb b'0' x && leb x b'9'

abbrev is_letter : ℕ → Bool
is_letter x = leb b'a' x && leb x b'z' || leb b'A' x && leb x b'Z'

abbrev ascii : Chars
ascii = record {
  Double = Bytes;
  is_digit = is_digit;
  is_letter = is_letter;
  is_letter_or_number = λ x. is_letter x || is_digit x;
  is_space = λ x. x == b' ' || x == b'\n';
  to_lower = λ t. t;
  to_double = λ t. t;
  to_long_long = λ t. length t;
}

ascii_laws : CharLaws ascii
ascii_laws = record {
  is_letter-is_letter_or_number = λ x e. ground (arith, e);
  is_space_nul = refl;
  is_digit_nul = refl;
  is_letter_or_number_nul = refl;
}

-- a=1--b
abbrev source : Bytes
source = b'a' ∷ b'=' ∷ b'1' ∷ b'-' ∷ b'-' ∷ b'b' ∷ []

all_tokens-start_example :
    (ts : List (Token Bytes)) × (all_tokens ascii (suc (length source)) (start ascii source)
      ≡ some ts)
    × (length ts ≤ length source)
all_tokens-start_example = all_tokens-start ascii ascii_laws source

-- it's
abbrev text : Bytes
text = b'i' ∷ b't' ∷ b'\'' ∷ b's' ∷ []

scan_string-escape_example : Reads ascii text source (
    scan_string ascii
      (record { rest = b'\'' ∷ (escape b'\'' text ++ (b'\'' ∷ source)); line = 1; column = 1 }))
scan_string-escape_example = scan_string-escape ascii b'\'' text source 1 1 (inl refl) (
  (λ e. absurd (omega (arith, e))),
  (
    (λ e. absurd (omega (arith, e))),
    ((λ e. absurd (omega (arith, e))), ((λ e. absurd (omega (arith, e))), tt)),
  ),
)

-- Two comments, and a letter behind them.
abbrev commented : Cursor
commented = record {
  rest = b' ' ∷ b'/' ∷ b'*' ∷ b'x' ∷ b'*' ∷ b'/' ∷ b' ' ∷ b'-' ∷ b'-' ∷ b'\n' ∷ b'a' ∷ [];
  line = 1;
  column = 1;
}

skip_blank-AtToken_example :
    (d : Cursor) × (skip_blank ascii commented ≡ some d)
    × (left d ≤ left commented)
    × AtToken ascii refl d
skip_blank-AtToken_example = skip_blank-AtToken ascii refl commented
