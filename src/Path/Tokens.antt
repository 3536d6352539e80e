-- ===== src/Path/Tokens.antt =====
-- The tokens that `_find_file` of src/udfread.c takes from a path.
use libudfread.Common.{ℕ, ◌≡◌, ◌≢◌, refl, sym, ap, true, false, List, [], ◌∷◌, ◌++◌, map}
use libudfread.Path.{is_separator, add_token, tokens_from, tokens}
use mathlib.Core.List.{append-nil, append_assoc}

-- Characters none of which is '/' or '\\'.
unfoldable pub IsPlain : List ℕ → Type 0
IsPlain [] = Unit
IsPlain (ch ∷ name) = (is_separator ch ≡ false) × IsPlain name

-- Pieces of a path: a delimiter and a name that is not empty.
unfoldable pub IsPieces : List (ℕ × List ℕ) → Type 0
IsPieces [] = Unit
IsPieces ((sep, name) ∷ pieces) =
    (is_separator sep ≡ true) × (name ≢ []) × IsPlain name × IsPieces pieces

unfoldable pub path_of : List (ℕ × List ℕ) → List ℕ
path_of [] = []
path_of ((sep, name) ∷ pieces) = sep ∷ (name ++ path_of pieces)

tokens_from-plain :
    (name token path : List ℕ)
    → IsPlain name
    → tokens_from token (name ++ path) ≡ tokens_from (token ++ name) path
unfolding tokens_from IsPlain
tokens_from-plain [] token path h = ap (λ l. tokens_from l path) (sym (append-nil token))
tokens_from-plain (ch ∷ name) token path (plain, h) =
    rw
      (plain, tokens_from-plain name (token ++ (ch ∷ [])) path h, append_assoc token (ch ∷ []) name)
      refl

add_token_kept :
    (name : List ℕ) (rest : List (List ℕ)) → name ≢ [] → add_token name rest ≡ name ∷ rest
unfolding add_token
add_token_kept [] rest h = absurd (h refl)
add_token_kept (ch ∷ name) rest h = refl

tokens_from-path_of :
    (pieces : List (ℕ × List ℕ)) (token : List ℕ)
    → IsPieces pieces
    → tokens_from token (path_of pieces) ≡ add_token token (map (λ p. p.1) pieces)
unfolding tokens_from path_of IsPieces
tokens_from-path_of [] token h = refl
tokens_from-path_of ((sep, name) ∷ pieces) token (s, full, plain, h) =
    rw
      (
        s,
        tokens_from-plain name [] (path_of pieces) plain,
        tokens_from-path_of pieces name h,
        add_token_kept name (map (λ p. p.1) pieces) full,
      )
      refl

-- A path of names, each behind a '/' or a '\\', has these names as its tokens, if no name is empty
-- or has a delimiter in it.
tokens-path_of :
    (pieces : List (ℕ × List ℕ)) → IsPieces pieces → tokens (path_of pieces) ≡ map (λ p. p.1) pieces
unfolding tokens add_token
tokens-path_of pieces h = tokens_from-path_of pieces [] h
