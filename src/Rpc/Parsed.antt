-- ===== src/Rpc/Parsed.antt =====
-- What `parse_line` and `negotiate_protocol` of rpc.rs accept.
use toolcage.Prelude.{
  ◌≡◌, ◌↔◌, ◌≢◌, ◌++◌, if-cases, any, inl, inr, refl, ap, Text, text, text_eq, text_eq_iff, Bool,
  true, false, not, List, [], ◌∷◌, Option, none, some, Option-cases, Result-cases, Bool-cases, ok,
  err, arith,
}
use toolcage.TreeMap.{TreeMap, get}
use toolcage.Json.{
  Value, null, bool, number, string, array, object, Members, members, as_str, ◌>>=◌, or_null, Serde,
}
use toolcage.Rpc.{
  Incoming, request, notification, malformed, parse_error, incoming, is_text, parse_object,
  parse_value, parse_line, first_equal, negotiate_protocol, supported_protocols, protocol_fallback,
}

-- A JSON-RPC 2.0 message: an object with the version, a method, perhaps an id, and parameters, null
-- if there are none.
pub record IsMessage (o : TreeMap Value) (id : Option Value) (method : Text) (params : Value)
    : Type 0 where
  pub version_is : get (text "jsonrpc") o ≡ some (string (text "2.0"))
  pub method_is : get (text "method") o ≡ some (string method)
  pub id_is : get (text "id") o ≡ id
  pub params_is : or_null (get (text "params") o) ≡ params

-- How a parsed message comes about.
pub data IsIncoming (o : TreeMap Value) : Incoming → Type 0 where
  is_request :
      (id : Value) (method : Text) (params : Value)
      → IsMessage o (some id) method params
      → IsIncoming o (request id method params)
  is_notification :
      (method : Text) (params : Value)
      → IsMessage o none method params
      → IsIncoming o (notification method params)
  is_malformed :
      (detail : Text)
      → ((id : Option Value) (method : Text) (params : Value) → IsMessage o id method params → ⊥)
      → IsIncoming o (malformed detail)

as_str-some : (v : Option Value) (t : Text) → (v >>= as_str) ≡ some t → v ≡ some (string t)
as_str-some none t h = absurd (ground (arith, h))
as_str-some (some null) t h = absurd (ground (arith, h))
as_str-some (some (bool b)) t h = absurd (ground (arith, h))
as_str-some (some (number n)) t h = absurd (ground (arith, h))
as_str-some (some (string s)) t h = cc
as_str-some (some (array vs)) t h = absurd (ground (arith, h))
as_str-some (some (object o)) t h = absurd (ground (arith, h))

is_text_iff : (o : Option Text) (t : Text) → (is_text o t ≡ true) ↔ (o ≡ some t)
is_text_iff none t = (λ h. absurd (ground (arith, h)), λ h. absurd (ground (arith, h)))
is_text_iff (some s) t = ground (arith, text_eq_iff s t)

incoming-IsIncoming :
    (o : TreeMap Value) (id : Option Value) (method : Text) (params : Value)
    → IsMessage o id method params
    → IsIncoming o (incoming id method params)
incoming-IsIncoming o none method params m = is_notification method params m
incoming-IsIncoming o (some id) method params m = is_request id method params m

module _ (o : TreeMap Value) where
  bad_version :
      is_text (get (text "jsonrpc") o >>= as_str) (text "2.0") ≡ false
      → (id : Option Value) (method : Text) (params : Value) → IsMessage o id method params
      → ⊥
  bad_version e id method params m =
      let h : is_text (get (text "jsonrpc") o >>= as_str) (text "2.0") ≡ true =
        (is_text_iff _ (text "2.0")).1 (ap (λ v. v >>= as_str) m.version_is) in
      ground (arith, e, h)

  no_method :
      (get (text "method") o >>= as_str) ≡ none
      → (id : Option Value) (method : Text) (params : Value) → IsMessage o id method params
      → ⊥
  no_method e id method params m =
      let h : (get (text "method") o >>= as_str) ≡ some method =
        ap (λ v. v >>= as_str) m.method_is in
      ground (arith, e, h)

  parse_object-IsIncoming : IsIncoming o (parse_object o)
  unfolding parse_object
  parse_object-IsIncoming =
      if-cases (IsIncoming o) (not (is_text (get (text "jsonrpc") o >>= as_str) (text "2.0")))
        (λ e. is_malformed _ (bad_version (ground (arith, e))))
        (λ e. elim (Option-cases (get (text "method") o >>= as_str)) [
          | inl n ↦ rw n (is_malformed _ (no_method n))
          | inr (method, m) ↦ rw m (
              incoming-IsIncoming o (get (text "id") o) method _ (record {
                version_is = as_str-some _ _ ((is_text_iff _ (text "2.0")).0 (ground (arith, e)));
                method_is = as_str-some _ _ m;
                id_is = refl;
                params_is = refl;
              }))
        ])

-- What a line parses to.
pub data IsParsed (serde : Serde) (line : Text) : Incoming → Type 0 where
  message :
      (o : Members) (m : Incoming)
      → serde.from_str line ≡ ok (object o)
      → IsIncoming (members o) m
      → IsParsed serde line m
  no_object :
      (v : Value) (detail : Text)
      → serde.from_str line ≡ ok v
      → ((o : Members) → v ≢ object o)
      → IsParsed serde line (malformed detail)
  no_json :
      (e : Text)
      → serde.from_str line ≡ err e
      → IsParsed serde line (parse_error (text "invalid JSON: " ++ e))

module _ (serde : Serde) (line : Text) where
  parse_value-IsParsed :
      (v : Value) → serde.from_str line ≡ ok v → IsParsed serde line (parse_value v)
  unfolding parse_value
  parse_value-IsParsed null h = no_object _ _ h (λ o e. cc)
  parse_value-IsParsed (bool b) h = no_object _ _ h (λ o e. cc)
  parse_value-IsParsed (number n) h = no_object _ _ h (λ o e. cc)
  parse_value-IsParsed (string t) h = no_object _ _ h (λ o e. cc)
  parse_value-IsParsed (array vs) h = no_object _ _ h (λ o e. cc)
  parse_value-IsParsed (object o) h = message o _ h (parse_object-IsIncoming (members o))

  -- A line is a parse error just if serde rejects it; a request or a notification just if it is a
  -- JSON object with `jsonrpc` "2.0" and a string for `method`, a request if it has an `id`, be it
  -- null, and a notification if not; and malformed in every other case, an array included.
  pub parse_line-IsParsed : IsParsed serde line (parse_line serde line)
  unfolding parse_line
  parse_line-IsParsed = elim (Result-cases (serde.from_str line)) [
    | inl (v, e) ↦ rw (e, parse_line) (parse_value-IsParsed v e)
    | inr (e, q) ↦ rw (q, parse_line) (no_json e q)
  ]

abbrev has : List Text → Text → Bool
has ps r = any (λ p. text_eq p r) ps

first_equal-has : (r : Text) (ps : List Text) → has ps r ≡ true → first_equal r ps ≡ r
unfolding first_equal
first_equal-has r [] h = absurd (ground (arith, h))
first_equal-has r (p ∷ ps) h = ground (arith, text_eq_iff p r, first_equal-has r ps)

first_equal-lacks :
    (r : Text) (ps : List Text) → has ps r ≡ false → first_equal r ps ≡ protocol_fallback
unfolding first_equal
first_equal-lacks r [] h = refl
first_equal-lacks r (p ∷ ps) h = ground (arith, first_equal-lacks r ps)

-- The protocols that `negotiate_protocol` may give.
unfoldable pub is_supported : Text → Bool
is_supported r = has supported_protocols r

is_supported-fallback : is_supported protocol_fallback ≡ true
unfolding is_supported supported_protocols protocol_fallback text_eq text
is_supported-fallback = refl

-- The protocol that answers a request for one, or for none.
pub data IsNegotiated : Option Text → Text → Type 0 where
  unrequested : IsNegotiated none protocol_fallback
  accepted : (r : Text) → is_supported r ≡ true → IsNegotiated (some r) r
  refused : (r : Text) → is_supported r ≡ false → IsNegotiated (some r) protocol_fallback

IsNegotiated-supported : (o : Option Text) (r : Text) → IsNegotiated o r → is_supported r ≡ true
IsNegotiated-supported o r unrequested = is_supported-fallback
IsNegotiated-supported o r (accepted _ e) = e
IsNegotiated-supported o r (refused _ e) = is_supported-fallback

negotiated : (o : Option Text) → IsNegotiated o (negotiate_protocol o)
unfolding negotiate_protocol is_supported
negotiated none = unrequested
negotiated (some r) = elim (Bool-cases (is_supported r)) [
  | inl e ↦ rw (first_equal-has r supported_protocols e) (accepted r e)
  | inr e ↦ rw (first_equal-lacks r supported_protocols e) (refused r e)
]

-- The protocol that `negotiate_protocol` gives is always supported: it is the requested one if that
-- is supported, and the fallback if the requested one is not, or if the client requests none.
pub negotiate_protocol-IsNegotiated :
    (o : Option Text)
    → (is_supported (negotiate_protocol o) ≡ true) × IsNegotiated o (negotiate_protocol o)
negotiate_protocol-IsNegotiated o = (IsNegotiated-supported o _ (negotiated o), negotiated o)
