-- ===== src/Http/Lists.antt =====
-- Lists of pairs in place of header maps, and a reading of plain `http://host/path` texts in place of
-- URIs, whose port is not read: a value of the parameter at which the laws hold.
use xboxproxy.Prelude.{
  ◌≡◌, refl, List, [], ◌∷◌, Option, none, some, arith, ◌==◌, any, ◌||◌, leb, is_empty,
  if◌then◌else◌,
}
use xboxproxy.Text.{Text, codes, text_eq}
use xboxproxy.Text.Equality.{text_eq_iff}
use xboxproxy.Http.{Http, IsHeaderMap}

abbrev without : Text → List (Text × Text) → List (Text × Text)
without k [] = []
without k ((j, v) ∷ m) = let rest = without k m in if text_eq k j then rest else (j, v) ∷ rest

abbrev values : Text → List (Text × Text) → List Text
values k [] = []
values k ((j, v) ∷ m) = let rest = values k m in if text_eq j k then v ∷ rest else rest

-- The text behind a prefix.
abbrev strip_prefix : Text → Text → Option Text
strip_prefix [] s = some s
strip_prefix (c ∷ p) [] = none
strip_prefix (c ∷ p) (d ∷ s) = let rest = strip_prefix p s in if c == d then rest else none

-- Up to the first slash, and from it on.
abbrev until_slash : Text → Text
until_slash [] = []
until_slash (c ∷ s) = let rest = until_slash s in if c == b'/' then [] else c ∷ rest

abbrev from_slash : Text → Text
from_slash [] = []
from_slash (c ∷ s) = let rest = from_slash s in if c == b'/' then c ∷ s else rest

abbrev until_port : Text → Text
until_port [] = []
until_port (c ∷ s) = let rest = until_port s in if c == b':' then [] else c ∷ rest

-- No spaces in a URI, and a host before the path.
abbrev plain_uri : Text → Option (Text × Text)
plain_uri s = elim (strip_prefix (codes "http://") s) [
  | none ↦ none
  | some rest ↦
      if any (λ c. leb c b' ') rest || is_empty (until_slash rest)
      then none
      else some (until_slash rest, from_slash rest)
]

abbrev pub plain_http : Http
plain_http = record {
  Uri = Text × Text;
  parse_uri = plain_uri;
  uri_path = λ u. u.1;
  has_query = λ u. any (λ c. c == b'?') u.1;
  authority = λ u. some u.0;
  uri_host = λ u. some (until_port u.0);
  uri_port = λ u. none;
  HeaderMap = List (Text × Text);
  empty_map = [];
  insert = λ m k v. (k, v) ∷ without k m;
  get_all = λ m k. values k m;
  iter = λ m. m;
  to_str = some;
}

values-without :
    (k j : Text) (m : List (Text × Text))
    → values j (without k m) ≡ (if text_eq k j then [] else values j m)
values-without k j [] = ground arith
values-without k j ((i, v) ∷ m) =
    ground (arith, values-without k j m, text_eq_iff k i, text_eq_iff i j, text_eq_iff k j)

values-insert :
    (m : List (Text × Text)) (k j v : Text)
    → values j ((k, v) ∷ without k m) ≡ (if text_eq k j then v ∷ [] else values j m)
values-insert m k j v = ground (arith, values-without k j m)

pub plain_http-IsHeaderMap : IsHeaderMap plain_http
plain_http-IsHeaderMap = record { get_all_empty = λ k. refl; get_all_insert = values-insert }
