-- ===== src/Lexer/Cursors.antt =====
-- What is left of the text in src/parser/lexer.cpp, and the loops that advance in it: current, peek, advance
-- and skipComment.
use qin_db.Shared.{
  ℕ, zero, suc, ◌+◌, ◌-◌, Bool, not, ◌&&◌, Option, none, some, [], ◌∷◌, ◌==◌, if◌then◌else◌, length,
  take,
}
use qin_db.Page.LittleEndian.{Bytes}

-- m_source from m_position on, m_line and m_column.
pub record Cursor : Type 0 where
  pub rest : Bytes
  pub line : ℕ
  pub column : ℕ

unfoldable pub current : Cursor → ℕ
current c = elim c.rest [ [] ↦ 0 | x ∷ xs ↦ x ]

unfoldable pub peek : Cursor → ℕ
peek c = elim c.rest [ [] ↦ 0 | x ∷ xs ↦ elim xs [ [] ↦ 0 | y ∷ ys ↦ y ] ]

-- advance answers what current answers before it.
unfoldable pub advance : Cursor → Cursor
advance c = elim c.rest [
  | [] ↦ c
  | x ∷ xs ↦
      if x == b'\n'
      then record { rest = xs; line = c.line + 1; column = 1 }
      else record { rest = xs; line = c.line; column = c.column + 1 }
]

-- while (test) advance();
unfoldable pub advance_while_for : (Cursor → Bool) → ℕ → Cursor → Option Cursor
advance_while_for test zero c = none
advance_while_for test (suc fuel) c =
    let rest = advance_while_for test fuel (advance c) in if test c then rest else some c

abbrev pub advance_while : (Cursor → Bool) → Cursor → Option Cursor
advance_while test c = advance_while_for test (suc (length c.rest)) c

-- What was read between two states, as m_source.mid gives it.
abbrev pub between : Cursor → Cursor → Bytes
between c c' = take (length c.rest - length c'.rest) c.rest

abbrev pub starts_line_comment : Cursor → Bool
starts_line_comment c = current c == b'-' && peek c == b'-'

abbrev pub starts_block_comment : Cursor → Bool
starts_block_comment c = current c == b'/' && peek c == b'*'

abbrev pub ends_block_comment : Cursor → Bool
ends_block_comment c = current c == b'*' && peek c == b'/'

abbrev pub in_line_comment : Cursor → Bool
in_line_comment c = not (current c == b'\n') && not (current c == 0)

abbrev pub in_block_comment : Cursor → Bool
in_block_comment c = not (ends_block_comment c) && not (current c == 0)

unfoldable pub skip_comment : Cursor → Option Cursor
skip_comment c =
    if starts_line_comment c
    then advance_while in_line_comment c
    else if starts_block_comment c
    then elim (advance_while in_block_comment (advance (advance c))) [
      | none ↦ none
      | some d ↦ some (if current d == b'*' then advance (advance d) else d)
    ]
    else some c
