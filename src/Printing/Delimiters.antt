-- ===== src/Printing/Delimiters.antt =====
-- When a delimiter is read.
use distributed_math_arh.Prelude.{
  ℕ, ◌≡◌, refl, ap, ◌∙◌, ◌↔◌, ◌⊎◌, inl, inr, Bool-cases, arith, true, false, List, [], ◌∷◌, ◌++◌,
}
use distributed_math_arh.Printing.{
  good_input, good, is_only_whitespace, match_characters, read_delimiter, parse_delim,
}

pub match_characters-append : (ks cs : List ℕ) → match_characters ks (ks ++ cs) ≡ good_input cs
unfolding match_characters
match_characters-append [] cs = refl
match_characters-append (k ∷ ks) cs = ground (arith, match_characters-append ks cs)

match_characters_only :
    (ks cs : List ℕ)
    → good (match_characters ks cs) ≡ true
    → cs ≡ ks ++ (match_characters ks cs).rest
unfolding match_characters
match_characters_only [] cs h = refl
match_characters_only (k ∷ ks) [] h = cc
match_characters_only (k ∷ ks) (c ∷ cs) h = ground (arith, match_characters_only ks cs)

pub read_delimiter_lem :
    (str cs : List ℕ)
    → is_only_whitespace str ≡ false
    → read_delimiter str (good_input cs) ≡ match_characters str cs
unfolding read_delimiter match_characters is_only_whitespace
read_delimiter_lem [] cs h = refl
read_delimiter_lem (k ∷ ks) cs h = rw h

pub read_delimiter_blank :
    (str cs : List ℕ)
    → is_only_whitespace str ≡ true
    → read_delimiter str (good_input cs) ≡ good_input cs
unfolding read_delimiter
read_delimiter_blank str cs h = rw h

-- What stands in front of the rest was matched.
matched :
    (str cs : List ℕ)
    → is_only_whitespace str ≡ false
    → (is_only_whitespace str ≡ true) ⊎ (cs ≡ str ++ (match_characters str cs).rest)
    → good (match_characters str cs) ≡ true
matched str cs solid (inl blank) = cc
matched str cs solid (inr e) =
    ap (λ z. good (match_characters str z)) e
    ∙ ap good (match_characters-append str (match_characters str cs).rest)

-- On a stream without errors a delimiter that is not blank is read exactly when the text starts with
-- it, and then what is left is the text after it. A blank delimiter is read without reading anything.
pub parse_delim_iff :
    (str cs : List ℕ)
    → ((parse_delim str (good_input cs)).0 ≡ true ↔ (
        (is_only_whitespace str ≡ true) ⊎ (cs ≡ str ++ (parse_delim str (good_input cs)).1.rest)))
      × (is_only_whitespace str ≡ true → (parse_delim str (good_input cs)).1 ≡ good_input cs)
unfolding parse_delim
parse_delim_iff str cs = elim (Bool-cases (is_only_whitespace str)) [
  | inl blank ↦ rw (read_delimiter_blank str cs blank) ((λ h. inl blank, λ h. refl), λ h. refl)
  | inr solid ↦
      rw (read_delimiter_lem str cs solid)
        ((λ h. inr (match_characters_only str cs h), matched str cs solid), λ h. cc)
]
