-- ===== src/Rpc/Endpoint.antt =====
-- RpcEndpoint::Parse (rpc/include/rpc/endpoint.h): an address from its text, and back.
use lark.Base.{
  ℕ, suc, ◌+◌, ◌≡◌, refl, sym, ap, ◌∙◌, true, false, none, some, [], ◌∷◌, ◌++◌, Text, text,
  text_dec, length, take, drop, if_pos, if_neg, ◌≢◌, if◌then◌else◌, arith, ℕ_discrete, Option-cases,
  inl, inr,
}
use lark.Base.Dict.{contains}
use lark.Rpc.InProc.{RpcEndpoint, uri}
use lark.Toolkit.Lexer.{starts_with}
use lark.Toolkit.Str.{find_text, has_text}
use lark.Toolkit.Str.Splits.{find_text-cut}

unfoldable pub parse_endpoint : Text → RpcEndpoint
unfolding find_text
parse_endpoint s = elim (find_text (text "://") s) [
  | none ↦ record { scheme = text "inproc"; address = s }
  | some i ↦ record { scheme = take i s; address = drop (i + 3) s }
]

find_separator :
    (scheme address : Text)
    → contains ℕ_discrete b':' scheme ≡ false
    → find_text (text "://") (scheme ++ (text "://" ++ address)) ≡ some (length scheme)
unfolding find_text contains
find_separator [] address h =
    let here : starts_with (text "://") (text "://" ++ address) ≡ true =
      if_pos (text_dec (text "://") (text "://")) refl true false in
    rw here refl
find_separator (c ∷ scheme) address h =
    let other : c ≢ b':' = λ e. absurd (ground (arith, h, e)) in
    let later = text "://" ++ address in
    let not_here : starts_with (text "://") (c ∷ scheme ++ later) ≡ false =
      if_neg (text_dec (c ∷ take 2 (scheme ++ later)) (text "://")) (λ e. other (cc)) true false in
    rw not_here (rw (find_separator scheme address (ground (arith, h))) refl)

take-append : (s t : Text) → take (length s) (s ++ t) ≡ s
take-append [] t = refl
take-append (c ∷ s) t = ap (◌∷◌ c) (take-append s t)

drop-append : (s t : Text) (k : ℕ) → drop (length s + k) (s ++ t) ≡ drop k t
drop-append [] t k = ap (λ n. drop n t) (let e : 0 + k ≡ k = omega arith in e)
drop-append (c ∷ s) t k =
    let e : suc (length s) + k ≡ suc (length s + k) = omega arith in rw e (drop-append s t k)

abbrev cut_at : Text → ℕ → RpcEndpoint
cut_at s i = record { scheme = take i s; address = drop (i + 3) s }

parse_found : (s : Text) (i : ℕ) → find_text (text "://") s ≡ some i → parse_endpoint s ≡ cut_at s i
unfolding parse_endpoint
parse_found s i h = rw (h, parse_endpoint) refl

parse_bare :
    (s : Text)
    → find_text (text "://") s ≡ none
    → parse_endpoint s ≡ record { scheme = text "inproc"; address = s }
unfolding parse_endpoint
parse_bare s h = rw (h, parse_endpoint) refl

uri-parse_endpoint :
    (s : Text)
    → uri (parse_endpoint s)
      ≡ (if has_text s (text "://") then s else text "inproc" ++ (text "://" ++ s))
unfolding uri
uri-parse_endpoint s = elim (Option-cases (find_text (text "://") s)) [
  | inl gone ↦
      let without : has_text s (text "://") ≡ false = ground (arith, gone) in
      rw without (ap uri (parse_bare s gone))
  | inr (i, there) ↦
      let with_one : has_text s (text "://") ≡ true = ground (arith, there) in
      rw with_one (ap uri (parse_found s i there) ∙ sym (find_text-cut (text "://") s i there))
]

parse_endpoint-back :
    (e : RpcEndpoint) → contains ℕ_discrete b':' e.scheme ≡ false → parse_endpoint (uri e) ≡ e
unfolding uri
parse_endpoint-back e h =
    let later = text "://" ++ e.address in
    parse_found (uri e) (length e.scheme) (find_separator e.scheme e.address h)
    ∙ ap (λ t. record e { scheme = t; address = drop (length e.scheme + 3) (e.scheme ++ later) })
        (take-append e.scheme later)
    ∙ ap (λ t. record e { address = t }) (drop-append e.scheme later 3)

-- An address whose scheme has no colon is read back from its text. Any text is the text of what
-- Parse makes of it, if it has a separator; otherwise it is the address in the in-process backend.
pub parse_endpoint-uri :
    (e : RpcEndpoint) (s : Text)
    → contains ℕ_discrete b':' e.scheme ≡ false
    → (parse_endpoint (uri e) ≡ e)
      × (uri (parse_endpoint s)
          ≡ (if has_text s (text "://") then s else text "inproc" ++ (text "://" ++ s)))
parse_endpoint-uri e s h = (parse_endpoint-back e h, uri-parse_endpoint s)
