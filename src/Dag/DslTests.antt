-- ===== src/Dag/DslTests.antt =====
-- The arrow DSL at concrete inputs.
use lark.Base.{◌≡◌, refl, [], ◌∷◌, Text, text, text_dec, ℕ_discrete}
use lark.Base.Dict.{contains, assign}
use mathlib.Core.List.{lookup}
use lark.Toolkit.Lexer.{
  skip_space, span, find_symbol, starts_number, lex_symbol, lex_front, lex_at, lex,
}
use lark.Toolkit.Parser.{peek, at_end, match_symbol, expect_token}
use lark.Dag.OpDsl.{
  peeking, matching, identifier, segment, ensure, depend, chain, statements, parse_flow,
}
use lark.Toolkit.Parser.Parsed.{parsed, syntax_error}

abbrev source : Text
source = text "a->b:T a"

two_ops :
    parse_flow source
    ≡ parsed (record {
      defs =
          record { type_name = text "a"; deps = []; id = text "a" }
          ∷ record { type_name = text "T"; deps = text "a" ∷ []; id = text "b" }
          ∷ [];
      index = (text "a", 0) ∷ (text "b", 1) ∷ [];
    })
unfolding parse_flow statements chain depend ensure segment identifier matching peeking expect_token
    match_symbol at_end peek lex lex_at lex_front lex_symbol starts_number find_symbol span
    skip_space contains lookup assign text_dec ℕ_discrete
two_ops = refl

-- BuildDsl does not give its parser the symbol `;`, so a separator is an error.
separator_refused :
    parse_flow (text "a;b")
    ≡ syntax_error (record { message = text "unexpected character ';'"; line = 1; col = 2 })
unfolding parse_flow statements chain depend ensure segment identifier matching peeking expect_token
    match_symbol at_end peek lex lex_at lex_front lex_symbol starts_number find_symbol span
    skip_space contains lookup assign text_dec ℕ_discrete
separator_refused = refl
