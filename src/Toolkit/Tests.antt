-- ===== src/Toolkit/Tests.antt =====
-- The lexer of the arrow DSL, and the functions on strings, at concrete texts.
use lark.Base.{◌≡◌, refl, some, none, List, [], ◌∷◌, Text, text, text_dec, arith, false}
use lark.Base.Dict.{contains}
use lark.Toolkit.Lexer.{Cursor, start_of, find_symbol, insert_symbol, sort_symbols, lex}
use lark.Toolkit.Lexer.Slices.{LexVerdict, AreSymbols, skipped, lex-LexVerdict}
use lark.Toolkit.Lexer.Spans.{Follows}
use lark.Toolkit.Lexer.Munch.{IsLongest, find_symbol-sort_symbols}
use lark.Toolkit.Lexer.{is_space}
use lark.Toolkit.Str.{split, join, replace_all, trim, to_int64}
use lark.Toolkit.Str.Splits.{AreFree, split-IsSplit, replace_all-join}
use lark.Toolkit.Str.Numbers.{to_int64-to_string}
use lark.Base.Int.{negsuc}
use lark.Base.Decimal.{to_string}
use lark.Toolkit.Str.Trims.{IsTrimmed, trim-IsTrimmed}

abbrev arrows : List Text
arrows = text "->" ∷ []

arrows-AreSymbols : AreSymbols arrows
unfolding contains text_dec
arrows-AreSymbols s h = elim (text_dec s (text "->")) [
  | yes e ↦ rw e (refl, omega arith)
  | no ne ↦ absurd (ground (arith, h, ne))
]

-- A comment line, and then an arrow in the second line.
abbrev source : Cursor
source = start_of (text "# flow\n  -> b")

lex-LexVerdict_example :
    ((ws : Text) × Follows source ws (skipped source))
    × LexVerdict (skipped source) (lex (text ":") arrows source)
lex-LexVerdict_example = lex-LexVerdict (text ":") arrows arrows-AreSymbols source

find_symbol-sort_symbols_example :
    IsLongest
      (text ">" ∷ text ">=" ∷ text "->" ∷ [])
      (text ">= 1")
      (find_symbol (sort_symbols (text ">" ∷ text ">=" ∷ text "->" ∷ [])) (text ">= 1"))
find_symbol-sort_symbols_example =
    find_symbol-sort_symbols (text ">" ∷ text ">=" ∷ text "->" ∷ []) (text ">= 1")

finds_longest :
    find_symbol (sort_symbols (text ">" ∷ text ">=" ∷ text "->" ∷ [])) (text ">= 1")
    ≡ some (text ">=")
unfolding find_symbol sort_symbols insert_symbol text_dec
finds_longest = refl

split-IsSplit_example :
    (join (split (text "a,,b") (text ",") false) (text ",") ≡ text "a,,b")
    × AreFree (text ",") (split (text "a,,b") (text ",") false)
split-IsSplit_example = split-IsSplit 44 [] (text "a,,b")

replace_all-join_example :
    replace_all (text "aaa") (text "aa") (text "b")
    ≡ join (split (text "aaa") (text "aa") false) (text "b")
replace_all-join_example = replace_all-join (text "aaa") (text "aa") (text "b")

trim-IsTrimmed_example : IsTrimmed is_space (text "  a b ") (trim (text "  a b "))
trim-IsTrimmed_example = trim-IsTrimmed (text "  a b ")

to_int64-to_string_example : to_int64 (to_string (negsuc 41)) ≡ some (negsuc 41)
to_int64-to_string_example = to_int64-to_string (negsuc 41) (omega arith) (omega arith)

rejects_rest : to_int64 (text "42ms") ≡ none
unfolding to_int64
rejects_rest = refl
