-- ===== src/Http.antt =====
-- What the program takes of the `http` crate: URIs and header maps. They are parameters, and what the
-- crate's documentation says of them stands as named laws. A header value is a text here.
pub mod Lists
use xboxproxy.Prelude.{ℕ, ◌≡◌, ◌↔◌, Bool, List, [], ◌∷◌, Option, Memᴰ, if◌then◌else◌}
use xboxproxy.Text.{Text, text_eq}

pub record Http : Type 1 where
  pub Uri : Type 0
  pub parse_uri : Text → Option Uri
  pub uri_path : Uri → Text
  pub has_query : Uri → Bool
  pub authority : Uri → Option Text
  pub uri_host : Uri → Option Text
  pub uri_port : Uri → Option ℕ
  pub HeaderMap : Type 0
  pub empty_map : HeaderMap
  -- `map.insert(k, v)`
  pub insert : HeaderMap → Text → Text → HeaderMap
  -- The values of a name, and all pairs in the order of `iter`.
  pub get_all : HeaderMap → Text → List Text
  pub iter : HeaderMap → List (Text × Text)
  -- `HeaderValue::to_str`
  pub to_str : Text → Option Text

-- `insert` removes what was there under the name, and leaves the other names.
pub record IsHeaderMap (lib : Http) : Type 0 where
  pub get_all_empty : (k : Text) → lib.get_all lib.empty_map k ≡ []
  pub get_all_insert :
      (m : lib.HeaderMap) (k j v : Text)
      → lib.get_all (lib.insert m k v) j ≡ (if text_eq k j then v ∷ [] else lib.get_all m j)
