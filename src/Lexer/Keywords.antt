-- ===== src/Lexer/Keywords.antt =====
-- The token types of include/qindb/lexer.h and the keyword map of src/parser/lexer.cpp. Characters are
-- numbers, UTF-16 code units.
use qin_db.Shared.{List, [], ◌∷◌}
use qin_db.Page.LittleEndian.{Bytes}

-- TokenType
pub data TokenType : Type 0 where
  integer_literal float_literal string_literal identifier select_kw from_kw where_kw : TokenType
  insert_kw update_kw delete_kw create_kw drop_kw alter_kw table_kw index_kw into_kw : TokenType
  values_kw set_kw join_kw inner_kw left_kw right_kw full_kw outer_kw cross_kw on_kw : TokenType
  and_kw or_kw not_kw is_kw null_kw like_kw in_kw between_kw exists_kw order_kw by_kw : TokenType
  asc_kw desc_kw group_kw having_kw limit_kw offset_kw as_kw distinct_kw all_kw : TokenType
  count_kw sum_kw avg_kw min_kw max_kw case_kw when_kw then_kw else_kw end_kw if_kw : TokenType
  not_exists_kw if_exists_kw primary_kw key_kw foreign_kw references_kw unique_kw : TokenType
  check_kw default_kw int_kw bigint_kw float_kw double_kw decimal_kw char_kw varchar_kw : TokenType
  text_kw date_kw time_kw datetime_kw boolean_kw blob_kw true_kw false_kw begin_kw : TokenType
  commit_kw rollback_kw transaction_kw show_kw tables_kw indexes_kw database_kw : TokenType
  databases_kw use_kw describe_kw explain_kw analyze_kw save_kw vacuum_kw grant_kw : TokenType
  revoke_kw to_kw with_kw option_kw user_kw password_kw identified_kw add_kw modify_kw : TokenType
  rename_kw column_kw constraint_kw cascade_kw union_kw intersect_kw except_kw match_kw : TokenType
  against_kw auto_increment_kw not_null_kw using_kw outfile_kw format_kw plus_token : TokenType
  minus_token star_token slash_token percent_token eq_token ne_token lt_token le_token : TokenType
  gt_token ge_token assign_token lparen_token rparen_token comma_token semicolon_token : TokenType
  dot_token eof_token invalid_token : TokenType

-- createKeywordMap
abbrev pub keyword_map : List (Bytes × TokenType)
keyword_map =
    (b's' ∷ b'e' ∷ b'l' ∷ b'e' ∷ b'c' ∷ b't' ∷ [], select_kw)
    ∷ (b'f' ∷ b'r' ∷ b'o' ∷ b'm' ∷ [], from_kw)
    ∷ (b'w' ∷ b'h' ∷ b'e' ∷ b'r' ∷ b'e' ∷ [], where_kw)
    ∷ (b'i' ∷ b'n' ∷ b's' ∷ b'e' ∷ b'r' ∷ b't' ∷ [], insert_kw)
    ∷ (b'u' ∷ b'p' ∷ b'd' ∷ b'a' ∷ b't' ∷ b'e' ∷ [], update_kw)
    ∷ (b'd' ∷ b'e' ∷ b'l' ∷ b'e' ∷ b't' ∷ b'e' ∷ [], delete_kw)
    ∷ (b'c' ∷ b'r' ∷ b'e' ∷ b'a' ∷ b't' ∷ b'e' ∷ [], create_kw)
    ∷ (b'd' ∷ b'r' ∷ b'o' ∷ b'p' ∷ [], drop_kw)
    ∷ (b'a' ∷ b'l' ∷ b't' ∷ b'e' ∷ b'r' ∷ [], alter_kw)
    ∷ (b't' ∷ b'a' ∷ b'b' ∷ b'l' ∷ b'e' ∷ [], table_kw)
    ∷ (b'i' ∷ b'n' ∷ b'd' ∷ b'e' ∷ b'x' ∷ [], index_kw)
    ∷ (b'i' ∷ b'n' ∷ b't' ∷ b'o' ∷ [], into_kw)
    ∷ (b'v' ∷ b'a' ∷ b'l' ∷ b'u' ∷ b'e' ∷ b's' ∷ [], values_kw)
    ∷ (b's' ∷ b'e' ∷ b't' ∷ [], set_kw)
    ∷ (b'j' ∷ b'o' ∷ b'i' ∷ b'n' ∷ [], join_kw)
    ∷ (b'i' ∷ b'n' ∷ b'n' ∷ b'e' ∷ b'r' ∷ [], inner_kw)
    ∷ (b'l' ∷ b'e' ∷ b'f' ∷ b't' ∷ [], left_kw)
    ∷ (b'r' ∷ b'i' ∷ b'g' ∷ b'h' ∷ b't' ∷ [], right_kw)
    ∷ (b'f' ∷ b'u' ∷ b'l' ∷ b'l' ∷ [], full_kw)
    ∷ (b'o' ∷ b'u' ∷ b't' ∷ b'e' ∷ b'r' ∷ [], outer_kw)
    ∷ (b'c' ∷ b'r' ∷ b'o' ∷ b's' ∷ b's' ∷ [], cross_kw)
    ∷ (b'o' ∷ b'n' ∷ [], on_kw)
    ∷ (b'a' ∷ b'n' ∷ b'd' ∷ [], and_kw)
    ∷ (b'o' ∷ b'r' ∷ [], or_kw)
    ∷ (b'n' ∷ b'o' ∷ b't' ∷ [], not_kw)
    ∷ (b'i' ∷ b's' ∷ [], is_kw)
    ∷ (b'n' ∷ b'u' ∷ b'l' ∷ b'l' ∷ [], null_kw)
    ∷ (b'l' ∷ b'i' ∷ b'k' ∷ b'e' ∷ [], like_kw)
    ∷ (b'i' ∷ b'n' ∷ [], in_kw)
    ∷ (b'b' ∷ b'e' ∷ b't' ∷ b'w' ∷ b'e' ∷ b'e' ∷ b'n' ∷ [], between_kw)
    ∷ (b'e' ∷ b'x' ∷ b'i' ∷ b's' ∷ b't' ∷ b's' ∷ [], exists_kw)
    ∷ (b'o' ∷ b'r' ∷ b'd' ∷ b'e' ∷ b'r' ∷ [], order_kw)
    ∷ (b'b' ∷ b'y' ∷ [], by_kw)
    ∷ (b'a' ∷ b's' ∷ b'c' ∷ [], asc_kw)
    ∷ (b'd' ∷ b'e' ∷ b's' ∷ b'c' ∷ [], desc_kw)
    ∷ (b'g' ∷ b'r' ∷ b'o' ∷ b'u' ∷ b'p' ∷ [], group_kw)
    ∷ (b'h' ∷ b'a' ∷ b'v' ∷ b'i' ∷ b'n' ∷ b'g' ∷ [], having_kw)
    ∷ (b'l' ∷ b'i' ∷ b'm' ∷ b'i' ∷ b't' ∷ [], limit_kw)
    ∷ (b'o' ∷ b'f' ∷ b'f' ∷ b's' ∷ b'e' ∷ b't' ∷ [], offset_kw)
    ∷ (b'a' ∷ b's' ∷ [], as_kw)
    ∷ (b'd' ∷ b'i' ∷ b's' ∷ b't' ∷ b'i' ∷ b'n' ∷ b'c' ∷ b't' ∷ [], distinct_kw)
    ∷ (b'a' ∷ b'l' ∷ b'l' ∷ [], all_kw)
    ∷ (b'c' ∷ b'o' ∷ b'u' ∷ b'n' ∷ b't' ∷ [], count_kw)
    ∷ (b's' ∷ b'u' ∷ b'm' ∷ [], sum_kw)
    ∷ (b'a' ∷ b'v' ∷ b'g' ∷ [], avg_kw)
    ∷ (b'm' ∷ b'i' ∷ b'n' ∷ [], min_kw)
    ∷ (b'm' ∷ b'a' ∷ b'x' ∷ [], max_kw)
    ∷ (b'c' ∷ b'a' ∷ b's' ∷ b'e' ∷ [], case_kw)
    ∷ (b'w' ∷ b'h' ∷ b'e' ∷ b'n' ∷ [], when_kw)
    ∷ (b't' ∷ b'h' ∷ b'e' ∷ b'n' ∷ [], then_kw)
    ∷ (b'e' ∷ b'l' ∷ b's' ∷ b'e' ∷ [], else_kw)
    ∷ (b'e' ∷ b'n' ∷ b'd' ∷ [], end_kw)
    ∷ (b'i' ∷ b'f' ∷ [], if_kw)
    ∷ (b'e' ∷ b'x' ∷ b'i' ∷ b's' ∷ b't' ∷ b's' ∷ [], exists_kw)
    ∷ (b'p' ∷ b'r' ∷ b'i' ∷ b'm' ∷ b'a' ∷ b'r' ∷ b'y' ∷ [], primary_kw)
    ∷ (b'k' ∷ b'e' ∷ b'y' ∷ [], key_kw)
    ∷ (b'f' ∷ b'o' ∷ b'r' ∷ b'e' ∷ b'i' ∷ b'g' ∷ b'n' ∷ [], foreign_kw)
    ∷ (b'r' ∷ b'e' ∷ b'f' ∷ b'e' ∷ b'r' ∷ b'e' ∷ b'n' ∷ b'c' ∷ b'e' ∷ b's' ∷ [], references_kw)
    ∷ (b'u' ∷ b'n' ∷ b'i' ∷ b'q' ∷ b'u' ∷ b'e' ∷ [], unique_kw)
    ∷ (b'u' ∷ b's' ∷ b'i' ∷ b'n' ∷ b'g' ∷ [], using_kw)
    ∷ (b'c' ∷ b'h' ∷ b'e' ∷ b'c' ∷ b'k' ∷ [], check_kw)
    ∷ (b'd' ∷ b'e' ∷ b'f' ∷ b'a' ∷ b'u' ∷ b'l' ∷ b't' ∷ [], default_kw)
    ∷ (b'i' ∷ b'n' ∷ b't' ∷ [], int_kw)
    ∷ (b'b' ∷ b'i' ∷ b'g' ∷ b'i' ∷ b'n' ∷ b't' ∷ [], bigint_kw)
    ∷ (b'f' ∷ b'l' ∷ b'o' ∷ b'a' ∷ b't' ∷ [], float_kw)
    ∷ (b'd' ∷ b'o' ∷ b'u' ∷ b'b' ∷ b'l' ∷ b'e' ∷ [], double_kw)
    ∷ (b'd' ∷ b'e' ∷ b'c' ∷ b'i' ∷ b'm' ∷ b'a' ∷ b'l' ∷ [], decimal_kw)
    ∷ (b'c' ∷ b'h' ∷ b'a' ∷ b'r' ∷ [], char_kw)
    ∷ (b'v' ∷ b'a' ∷ b'r' ∷ b'c' ∷ b'h' ∷ b'a' ∷ b'r' ∷ [], varchar_kw)
    ∷ (b't' ∷ b'e' ∷ b'x' ∷ b't' ∷ [], text_kw)
    ∷ (b'd' ∷ b'a' ∷ b't' ∷ b'e' ∷ [], date_kw)
    ∷ (b't' ∷ b'i' ∷ b'm' ∷ b'e' ∷ [], time_kw)
    ∷ (b'd' ∷ b'a' ∷ b't' ∷ b'e' ∷ b't' ∷ b'i' ∷ b'm' ∷ b'e' ∷ [], datetime_kw)
    ∷ (b'b' ∷ b'o' ∷ b'o' ∷ b'l' ∷ b'e' ∷ b'a' ∷ b'n' ∷ [], boolean_kw)
    ∷ (b'b' ∷ b'o' ∷ b'o' ∷ b'l' ∷ [], boolean_kw)
    ∷ (b'b' ∷ b'l' ∷ b'o' ∷ b'b' ∷ [], blob_kw)
    ∷ (b't' ∷ b'r' ∷ b'u' ∷ b'e' ∷ [], true_kw)
    ∷ (b'f' ∷ b'a' ∷ b'l' ∷ b's' ∷ b'e' ∷ [], false_kw)
    ∷ (b'b' ∷ b'e' ∷ b'g' ∷ b'i' ∷ b'n' ∷ [], begin_kw)
    ∷ (b'c' ∷ b'o' ∷ b'm' ∷ b'm' ∷ b'i' ∷ b't' ∷ [], commit_kw)
    ∷ (b'r' ∷ b'o' ∷ b'l' ∷ b'l' ∷ b'b' ∷ b'a' ∷ b'c' ∷ b'k' ∷ [], rollback_kw)
    ∷ (
      b't' ∷ b'r' ∷ b'a' ∷ b'n' ∷ b's' ∷ b'a' ∷ b'c' ∷ b't' ∷ b'i' ∷ b'o' ∷ b'n' ∷ [],
      transaction_kw,
    )
    ∷ (b's' ∷ b'h' ∷ b'o' ∷ b'w' ∷ [], show_kw)
    ∷ (b't' ∷ b'a' ∷ b'b' ∷ b'l' ∷ b'e' ∷ b's' ∷ [], tables_kw)
    ∷ (b'i' ∷ b'n' ∷ b'd' ∷ b'e' ∷ b'x' ∷ b'e' ∷ b's' ∷ [], indexes_kw)
    ∷ (b'd' ∷ b'a' ∷ b't' ∷ b'a' ∷ b'b' ∷ b'a' ∷ b's' ∷ b'e' ∷ [], database_kw)
    ∷ (b'd' ∷ b'a' ∷ b't' ∷ b'a' ∷ b'b' ∷ b'a' ∷ b's' ∷ b'e' ∷ b's' ∷ [], databases_kw)
    ∷ (b'u' ∷ b's' ∷ b'e' ∷ [], use_kw)
    ∷ (b'd' ∷ b'e' ∷ b's' ∷ b'c' ∷ b'r' ∷ b'i' ∷ b'b' ∷ b'e' ∷ [], describe_kw)
    ∷ (b'e' ∷ b'x' ∷ b'p' ∷ b'l' ∷ b'a' ∷ b'i' ∷ b'n' ∷ [], explain_kw)
    ∷ (b'a' ∷ b'n' ∷ b'a' ∷ b'l' ∷ b'y' ∷ b'z' ∷ b'e' ∷ [], analyze_kw)
    ∷ (b's' ∷ b'a' ∷ b'v' ∷ b'e' ∷ [], save_kw)
    ∷ (b'v' ∷ b'a' ∷ b'c' ∷ b'u' ∷ b'u' ∷ b'm' ∷ [], vacuum_kw)
    ∷ (b'g' ∷ b'r' ∷ b'a' ∷ b'n' ∷ b't' ∷ [], grant_kw)
    ∷ (b'r' ∷ b'e' ∷ b'v' ∷ b'o' ∷ b'k' ∷ b'e' ∷ [], revoke_kw)
    ∷ (b't' ∷ b'o' ∷ [], to_kw)
    ∷ (b'w' ∷ b'i' ∷ b't' ∷ b'h' ∷ [], with_kw)
    ∷ (b'o' ∷ b'p' ∷ b't' ∷ b'i' ∷ b'o' ∷ b'n' ∷ [], option_kw)
    ∷ (b'u' ∷ b's' ∷ b'e' ∷ b'r' ∷ [], user_kw)
    ∷ (b'p' ∷ b'a' ∷ b's' ∷ b's' ∷ b'w' ∷ b'o' ∷ b'r' ∷ b'd' ∷ [], password_kw)
    ∷ (b'i' ∷ b'd' ∷ b'e' ∷ b'n' ∷ b't' ∷ b'i' ∷ b'f' ∷ b'i' ∷ b'e' ∷ b'd' ∷ [], identified_kw)
    ∷ (b'a' ∷ b'd' ∷ b'd' ∷ [], add_kw)
    ∷ (b'm' ∷ b'o' ∷ b'd' ∷ b'i' ∷ b'f' ∷ b'y' ∷ [], modify_kw)
    ∷ (b'r' ∷ b'e' ∷ b'n' ∷ b'a' ∷ b'm' ∷ b'e' ∷ [], rename_kw)
    ∷ (b'c' ∷ b'o' ∷ b'l' ∷ b'u' ∷ b'm' ∷ b'n' ∷ [], column_kw)
    ∷ (b'c' ∷ b'o' ∷ b'n' ∷ b's' ∷ b't' ∷ b'r' ∷ b'a' ∷ b'i' ∷ b'n' ∷ b't' ∷ [], constraint_kw)
    ∷ (b'c' ∷ b'a' ∷ b's' ∷ b'c' ∷ b'a' ∷ b'd' ∷ b'e' ∷ [], cascade_kw)
    ∷ (b'u' ∷ b'n' ∷ b'i' ∷ b'o' ∷ b'n' ∷ [], union_kw)
    ∷ (b'i' ∷ b'n' ∷ b't' ∷ b'e' ∷ b'r' ∷ b's' ∷ b'e' ∷ b'c' ∷ b't' ∷ [], intersect_kw)
    ∷ (b'e' ∷ b'x' ∷ b'c' ∷ b'e' ∷ b'p' ∷ b't' ∷ [], except_kw)
    ∷ (b'm' ∷ b'a' ∷ b't' ∷ b'c' ∷ b'h' ∷ [], match_kw)
    ∷ (b'a' ∷ b'g' ∷ b'a' ∷ b'i' ∷ b'n' ∷ b's' ∷ b't' ∷ [], against_kw)
    ∷ (
      b'a' ∷ b'u' ∷ b't' ∷ b'o' ∷ b'_' ∷ b'i' ∷ b'n' ∷ b'c' ∷ b'r' ∷ b'e' ∷ b'm' ∷ b'e' ∷ b'n'
          ∷ b't' ∷ [],
      auto_increment_kw,
    )
    ∷ (b'o' ∷ b'u' ∷ b't' ∷ b'f' ∷ b'i' ∷ b'l' ∷ b'e' ∷ [], outfile_kw)
    ∷ (b'f' ∷ b'o' ∷ b'r' ∷ b'm' ∷ b'a' ∷ b't' ∷ [], format_kw)
    ∷ []
