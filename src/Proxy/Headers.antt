-- ===== src/Proxy/Headers.antt =====
-- proxy.rs: the host name of a request, and the headers that are forwarded and returned.
pub mod HostName
pub mod Forwarded
use xboxproxy.Prelude.{
  ℕ, ◌==◌, Bool, true, false, not, ◌&&◌, ◌||◌, List, [], ◌∷◌, ◌++◌, map, Option, none, some, select,
  any, is_empty, if◌then◌else◌, ◌>>=◌,
}
use xboxproxy.Text.{
  Text, codes, text_eq, to_ascii_lowercase, trim, trim_start_matches, trim_end_matches, split_by,
}
use xboxproxy.Http.{Http}
use xboxproxy.Proxy.Retry.{Method, get, head, other, retryable}

unfoldable pub contains : List Text → Text → Bool
unfolding text_eq
contains names name = any (λ n. text_eq n name) names

abbrev pub hop_by_hop : List Text
hop_by_hop =
    codes "connection"
    ∷ codes "keep-alive"
    ∷ codes "proxy-authenticate"
    ∷ codes "proxy-authorization"
    ∷ codes "proxy-connection"
    ∷ codes "te"
    ∷ codes "trailer"
    ∷ codes "transfer-encoding"
    ∷ codes "upgrade"
    ∷ []

unfoldable pub is_hop_by_hop : Text → Bool
unfolding contains to_ascii_lowercase
is_hop_by_hop name = contains hop_by_hop (to_ascii_lowercase name)

unfoldable pub should_strip_header : Text → List Text → Bool
unfolding is_hop_by_hop contains
should_strip_header name connection = is_hop_by_hop name || contains connection name

-- `filter_map`, and `flat_map` of `split(',')`.
filter_map : (Text → Option Text) → List Text → List Text
filter_map g [] = []
filter_map g (v ∷ vs) = elim (g v) [ none ↦ filter_map g vs | some s ↦ s ∷ filter_map g vs ]

split_values : List Text → List Text
unfolding split_by
split_values [] = []
split_values (v ∷ vs) = split_by (λ c. c == b',') v ++ split_values vs

-- The test of the loop that forwards headers. Header names are lower case.
unfoldable pub is_dropped : Method → List Text → Text → Bool
unfolding should_strip_header text_eq retryable
is_dropped method connection k =
    should_strip_header k connection
    || text_eq k (codes "host")
    || (retryable method
        && (text_eq k (codes "content-length") || text_eq k (codes "transfer-encoding")))

module _ (lib : Http) where
  open lib use {HeaderMap, insert, get_all, iter, to_str, empty_map}

  unfoldable pub connection_tokens : HeaderMap → List Text
  unfolding filter_map split_values trim to_ascii_lowercase
  connection_tokens headers =
      select (λ name. not (is_empty name))
        (map (λ name. to_ascii_lowercase (trim name))
          (split_values (filter_map to_str (get_all headers (codes "connection")))))

  unfoldable pub host_name_from_header : Text → Option Text
  unfolding trim_start_matches trim_end_matches to_ascii_lowercase
  host_name_from_header host_header = do
    u ← lib.parse_uri (codes "http://" ++ (host_header ++ codes "/"))
    if not (text_eq (lib.uri_path u) (codes "/")) || lib.has_query u then none else (do
      authority ← lib.authority u
      if any (λ c. c == b'@') authority then none else (do
        raw ← lib.uri_host u
        let host = trim_end_matches b'.' (trim_end_matches b']' (trim_start_matches b'[' raw))
        if is_empty host then none else some (to_ascii_lowercase host)))

  unfoldable pub forward_from : Method → List Text → List (Text × Text) → HeaderMap → HeaderMap
  unfolding is_dropped
  forward_from method connection [] fwd = fwd
  forward_from method connection ((k, v) ∷ pairs) fwd =
      forward_from method connection pairs
        (if is_dropped method connection k then fwd else insert fwd k v)

  -- The headers sent upstream.
  unfoldable pub forwarded_headers : Method → HeaderMap → Text → HeaderMap
  unfolding forward_from connection_tokens
  forwarded_headers method headers client_ip =
      insert
        (insert (forward_from method (connection_tokens headers) (iter headers) empty_map)
          (codes "x-forwarded-for") client_ip)
        (codes "x-real-ip") client_ip

-- The headers of the response, without those that concern one connection. `builder.header` appends.
unfoldable pub returned_headers : List Text → List (Text × Text) → List (Text × Text)
unfolding should_strip_header
returned_headers connection = select (λ pair. not (should_strip_header pair.0 connection))
