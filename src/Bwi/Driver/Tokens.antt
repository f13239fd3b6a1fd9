-- ===== src/Bwi/Driver/Tokens.antt =====
-- bwi-client_server/main.c: the tokens of arguments that are put together.
use realtime_tests.Prelude.{
  ℕ, ◌<◌, ◌≡◌, refl, sym, ap, ◌∙◌, false, List, [], ◌∷◌, ◌++◌, append_assoc, append-nil, Bool-cases,
  inl, inr, length, All, arith,
}
use realtime_tests.Time.Text.{print_lu}
use realtime_tests.Time.Text.Digits.{AllDigits, print_lu-AllDigits, print_lu_pos}
use realtime_tests.Bwi.Driver.{is_delimiter, flushed, tokens, placeholder}

flushed-append :
    (start : List ℕ) (xs ys : List (List ℕ)) → flushed start (xs ++ ys) ≡ flushed start xs ++ ys
flushed-append [] xs ys = refl
flushed-append (c ∷ cs) xs ys = refl

-- A space separates the tokens before it from those behind it.
pub tokens-append :
    (xs ys start : List ℕ) → tokens (xs ++ (b' ' ∷ ys)) start ≡ tokens xs start ++ tokens ys []
unfolding tokens
tokens-append [] ys start = flushed-append start [] (tokens ys [])
tokens-append (x ∷ xs) ys start = elim (Bool-cases (is_delimiter x)) [
  | inl cut ↦ rw cut (
      ap (flushed start) (tokens-append xs ys [])
      ∙ flushed-append start (tokens xs []) (tokens ys []))
  | inr more ↦ rw more (tokens-append xs ys (start ++ (x ∷ [])))
]

abbrev pub IsWord : List ℕ → Type 0
IsWord = All (λ c. is_delimiter c ≡ false)

AllDigits-IsWord : (ds : List ℕ) → AllDigits ds → IsWord ds
AllDigits-IsWord [] h = tt
AllDigits-IsWord (d ∷ ds) h = (ground (arith, h.0), AllDigits-IsWord ds h.1)

flushed-some : (start : List ℕ) → 0 < length start → flushed start [] ≡ start ∷ []
flushed-some [] h = absurd (omega arith)
flushed-some (c ∷ cs) h = refl

-- A word is one token.
pub tokens-IsWord :
    (w start : List ℕ) → IsWord w → 0 < length (start ++ w) → tokens w start ≡ (start ++ w) ∷ []
unfolding tokens
tokens-IsWord [] start h some_char =
    flushed-some start (rw (sym (append-nil start)) some_char)
    ∙ ap (λ l. l ∷ []) (sym (append-nil start))
tokens-IsWord (c ∷ cs) start h some_char = rw (h.0) (
    tokens-IsWord cs (start ++ (c ∷ [])) h.1 (rw (append_assoc start (c ∷ []) cs) some_char)
    ∙ ap (λ l. l ∷ []) (append_assoc start (c ∷ []) cs))

pub tokens-print_lu : (n : ℕ) → tokens (print_lu n) [] ≡ print_lu n ∷ []
tokens-print_lu n =
    tokens-IsWord (print_lu n) [] (AllDigits-IsWord (print_lu n) (print_lu-AllDigits n))
      (print_lu_pos n)

-- A placeholder behind a text adds the option and its number.
pub tokens-placeholder :
    (xs : List ℕ) (c n : ℕ)
    → is_delimiter c ≡ false
    → tokens (xs ++ placeholder c n) [] ≡ tokens xs [] ++ ((b'-' ∷ c ∷ []) ∷ print_lu n ∷ [])
tokens-placeholder xs c n word =
    tokens-append xs (b'-' ∷ c ∷ b' ' ∷ print_lu n) []
    ∙ ap (λ ts. tokens xs [] ++ ts)
        (tokens-append (b'-' ∷ c ∷ []) (print_lu n) []
          ∙ ap (λ ts. ts ++ tokens (print_lu n) [])
              (tokens-IsWord (b'-' ∷ c ∷ []) [] (refl, (word, tt)) (omega arith))
          ∙ ap (λ ts. (b'-' ∷ c ∷ []) ∷ ts) (tokens-print_lu n))
