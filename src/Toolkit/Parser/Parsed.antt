-- ===== src/Toolkit/Parser/Parsed.antt =====
-- The results of a parser over toolkit::dsl::Parser, given fuel for its loops.
use lark.Base.{◌≡◌, refl, text}
use lark.Base.Result.{Result, done, throw, Exception, out_of_range}
use lark.Toolkit.Lexer.{DslError, Lexed, token_of, fail, stod_error}
use lark.Toolkit.Parser.Shrinks.{LexYields}

-- A result, a syntax error, another exception, or no fuel left.
pub data Parsed {ℓ} (A : Type ℓ) : Type ℓ where
  parsed : A → Parsed A
  syntax_error : DslError → Parsed A
  thrown : Exception → Parsed A
  out_of_fuel : Parsed A

infixl 5 ◌>>=◌
abbrev pub ◌>>=◌ {ℓ κ} : {A : Type ℓ} {B : Type κ} → Parsed A → (A → Parsed B) → Parsed B
parsed a >>= f = f a
syntax_error e >>= f = syntax_error e
thrown e >>= f = thrown e
out_of_fuel >>= f = out_of_fuel

abbrev pub lexing {ℓ} : {A : Type ℓ} → Lexed A → Parsed A
lexing (token_of a) = parsed a
lexing (fail e) = syntax_error e
lexing stod_error = thrown (out_of_range (text "stod"))

abbrev pub trying {ℓ} : {A : Type ℓ} → Result A → Parsed A
trying (done a) = parsed a
trying (throw e) = thrown e

-- There was fuel enough, and a result has a property.
abbrev pub Yields {ℓ} : {A : Type ℓ} → (A → Type 0) → Parsed A → Type 0
Yields Q (parsed a) = Q a
Yields Q (syntax_error e) = Unit
Yields Q (thrown e) = Unit
Yields Q out_of_fuel = ⊥

pub Yields->>= {ℓ κ} :
    {A : Type ℓ} {B : Type κ} (Q : A → Type 0) (R : B → Type 0) (m : Parsed A) (f : A → Parsed B)
    → Yields Q m
    → ((a : A) → Q a → Yields R (f a))
    → Yields R (m >>= f)
Yields->>= Q R (parsed a) f y h = h a y
Yields->>= Q R (syntax_error e) f y h = tt
Yields->>= Q R (thrown e) f y h = tt
Yields->>= Q R out_of_fuel f y h = absurd y

pub Yields-lexing {ℓ} :
    {A : Type ℓ} (Q : A → Type 0) (m : Lexed A) → LexYields Q m → Yields Q (lexing m)
Yields-lexing Q (token_of a) y = y
Yields-lexing Q (fail e) y = tt
Yields-lexing Q stod_error y = tt

pub Yields-trying {ℓ} :
    {A : Type ℓ} (Q : A → Type 0) (m : Result A)
    → ((a : A) → m ≡ done a → Q a)
    → Yields Q (trying m)
Yields-trying Q (done a) h = h a refl
Yields-trying Q (throw e) h = tt

pub Yields-mono {ℓ} :
    {A : Type ℓ} (Q R : A → Type 0) (m : Parsed A) → ((a : A) → Q a → R a) → Yields Q m → Yields R m
Yields-mono Q R (parsed a) h y = h a y
Yields-mono Q R (syntax_error e) h y = tt
Yields-mono Q R (thrown e) h y = tt
Yields-mono Q R out_of_fuel h y = y
