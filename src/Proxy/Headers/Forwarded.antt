-- ===== src/Proxy/Headers/Forwarded.antt =====
-- proxy.rs: what reaches the upstream of each header of a request.
use xboxproxy.Prelude.{
  ◌≡◌, refl, sym, ap, ◌∙◌, Bool, true, false, ◌||◌, List, [], ◌∷◌, arith, is_empty, Bool-cases, inl,
  inr, if◌then◌else◌,
}
use xboxproxy.Text.{Text, codes, text_eq}
use xboxproxy.Text.Equality.{text_eq_iff}
use xboxproxy.Http.{Http, IsHeaderMap}
use xboxproxy.Proxy.Retry.{Method}
use xboxproxy.Proxy.Headers.{is_dropped, forward_from, forwarded_headers, connection_tokens}

-- The last value under a name, alone.
unfoldable pub last_value : Text → List (Text × Text) → List Text
last_value j [] = []
last_value j ((k, v) ∷ pairs) =
    let rest = last_value j pairs in
    if is_empty rest then (if text_eq k j then v ∷ [] else []) else rest

abbrev or_else : List Text → List Text → List Text
or_else [] ys = ys
or_else (x ∷ xs) ys = x ∷ xs

module _ (lib : Http) (laws : IsHeaderMap lib) (method : Method) (connection : List Text)
    (j : Text) where
  open lib use {HeaderMap, insert, get_all}

  round_dropped :
      (k v : Text) (m : HeaderMap)
      → is_dropped method connection j ≡ true
      → get_all (if is_dropped method connection k then m else insert m k v) j ≡ get_all m j
  round_dropped k v m d = elim (Bool-cases (is_dropped method connection k)) [
    | inl e ↦ rw e
    | inr e ↦ rw e (laws.get_all_insert m k j v ∙ rw (differs e))
  ]
    where
      differs : is_dropped method connection k ≡ false → text_eq k j ≡ false
      differs e = ground (arith, text_eq_iff k j)

  forward_from_dropped :
      (pairs : List (Text × Text)) (m : HeaderMap)
      → is_dropped method connection j ≡ true
      → get_all (forward_from lib method connection pairs m) j ≡ get_all m j
  unfolding forward_from
  forward_from_dropped [] m d = refl
  forward_from_dropped ((k, v) ∷ pairs) m d = forward_from_dropped pairs _ d ∙ round_dropped k v m d

  round_kept :
      (k v : Text) (m : HeaderMap)
      → is_dropped method connection j ≡ false
      → get_all (if is_dropped method connection k then m else insert m k v) j
        ≡ (if text_eq k j then v ∷ [] else get_all m j)
  round_kept k v m d = elim (Bool-cases (is_dropped method connection k)) [
    | inl e ↦ rw e (sym (rw (differs e)))
    | inr e ↦ rw e (laws.get_all_insert m k j v)
  ]
    where
      differs : is_dropped method connection k ≡ true → text_eq k j ≡ false
      differs e = ground (arith, text_eq_iff k j)

  forward_from_kept :
      (pairs : List (Text × Text)) (m : HeaderMap)
      → is_dropped method connection j ≡ false
      → get_all (forward_from lib method connection pairs m) j
        ≡ or_else (last_value j pairs) (get_all m j)
  unfolding forward_from last_value
  forward_from_kept [] m d = refl
  forward_from_kept ((k, v) ∷ pairs) m d =
      forward_from_kept pairs _ d
      ∙ ap (or_else (last_value j pairs)) (round_kept k v m d)
      ∙ regroup (last_value j pairs) (text_eq k j) v (get_all m j)
    where
      regroup :
          (xs : List Text) (b : Bool) (w : Text) (ys : List Text)
          → or_else xs (if b then w ∷ [] else ys)
            ≡ or_else (if is_empty xs then (if b then w ∷ [] else []) else xs) ys
      regroup [] true w ys = refl
      regroup [] false w ys = refl
      regroup (x ∷ xs) b w ys = refl

  or_else-nil : (xs : List Text) → or_else xs [] ≡ xs
  or_else-nil [] = refl
  or_else-nil (x ∷ xs) = refl

  forward_from_values :
      (pairs : List (Text × Text))
      → get_all (forward_from lib method connection pairs lib.empty_map) j
        ≡ (if is_dropped method connection j then [] else last_value j pairs)
  forward_from_values pairs = elim (Bool-cases (is_dropped method connection j)) [
    | inl d ↦ rw d (forward_from_dropped pairs lib.empty_map d ∙ laws.get_all_empty j)
    | inr d ↦ rw d (
        forward_from_kept pairs lib.empty_map d
        ∙ ap (or_else (last_value j pairs)) (laws.get_all_empty j)
        ∙ or_else-nil (last_value j pairs))
  ]

module _ (lib : Http) (laws : IsHeaderMap lib) (method : Method) (headers : lib.HeaderMap)
    (client_ip : Text) where
  -- If header maps follow the documentation of `insert`, the upstream gets under each name: the
  -- client's address under `x-real-ip` and `x-forwarded-for`; nothing under any other name that the
  -- forwarding loop drops; else the last value that the client sent under it, alone.
  pub forwarded_headers_values :
      (j : Text)
      → lib.get_all (forwarded_headers lib method headers client_ip) j ≡ (
          if text_eq (codes "x-real-ip") j || text_eq (codes "x-forwarded-for") j
          then client_ip ∷ []
          else if is_dropped method (connection_tokens lib headers) j
          then []
          else last_value j (lib.iter headers))
  unfolding forwarded_headers
  forwarded_headers_values j =
      laws.get_all_insert _ (codes "x-real-ip") j client_ip
      ∙ ap (λ l. if text_eq (codes "x-real-ip") j then client_ip ∷ [] else l)
          (laws.get_all_insert _ (codes "x-forwarded-for") j client_ip
            ∙ ap (λ l. if text_eq (codes "x-forwarded-for") j then client_ip ∷ [] else l)
                (forward_from_values lib laws method (connection_tokens lib headers) j
                  (lib.iter headers)))
      ∙ join (text_eq (codes "x-real-ip") j) (text_eq (codes "x-forwarded-for") j) _ _
    where
      join :
          (a b : Bool) (x y : List Text)
          → (if a then x else if b then x else y) ≡ (if a || b then x else y)
      join true b x y = refl
      join false b x y = refl
