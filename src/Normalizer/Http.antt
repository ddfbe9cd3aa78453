-- ===== src/Normalizer/Http.antt =====
-- `normalize_http_path_or_query` of src/core/input_normalizer.py. The regular expression
-- `^([A-Za-z]+)\s+(\S+)(.*)$` is three spans: each class excludes the next one, so a match never
-- gives characters back.
use honey_mind.Prelude.{
  ℕ, Text, codes, eqb, member, upper, is_space, space, leb, span, strip, Bool, true, false, ◌||◌,
  ◌&&◌, not, List, [], ◌∷◌, ◌++◌, if◌then◌else◌, Option, none, some, ◌≡◌, refl,
}

abbrev pub http_methods : List Text
http_methods =
    codes "CONNECT"
    ∷ codes "DELETE"
    ∷ codes "GET"
    ∷ codes "HEAD"
    ∷ codes "OPTIONS"
    ∷ codes "PATCH"
    ∷ codes "POST"
    ∷ codes "PUT"
    ∷ codes "TRACE"
    ∷ []

abbrev is_letter : ℕ → Bool
is_letter c = (leb b'A' c && leb c b'Z') || (leb b'a' c && leb c b'z')

pub record RequestLine : Type 0 where
  pub method : Text
  pub path : Text
  pub rest : Text

non_empty : Text → Bool
non_empty [] = false
non_empty (c ∷ s) = true

-- `re.match`, with the three groups
unfoldable pub match_request_line : Text → Option RequestLine
unfolding span is_space non_empty
match_request_line s =
    let (method, after) = span is_letter s in
    let (gap, tail) = span is_space after in
    let (path, rest) = span (λ c. not (is_space c)) tail in
    if non_empty method && non_empty gap && non_empty path
    then some (record { method = method; path = path; rest = rest })
    else none

with_rest : Text → Text → Text → Text
with_rest method path [] = method ++ (space ∷ path)
with_rest method path (c ∷ rest) = method ++ (space ∷ (path ++ (space ∷ (c ∷ rest))))

unfoldable pub normalize_http_path_or_query : Text → Text
unfolding strip match_request_line with_rest upper member
normalize_http_path_or_query raw = elim (match_request_line (strip raw)) [
  | none ↦ strip raw
  | some m ↦
      if member (upper m.method) http_methods
      then with_rest m.method m.path (strip m.rest)
      else strip raw
]

get_twice : normalize_http_path_or_query (codes " get   /a  b ") ≡ codes "get /a b"
unfolding normalize_http_path_or_query eqb
get_twice = refl
