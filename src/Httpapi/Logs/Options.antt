-- ===== src/Httpapi/Logs/Options.antt =====
-- The bounds that the options of a log request keep.
use tenant_deck.Base.{
  ℕ, ◌≤◌, String, ◌≡◌, refl, Bool, ◌⊎◌, inl, inr, ok, Error, arith, codes, str_eq, Bool-cases,
  Result-cases, subst,
}
use tenant_deck.Base.Results.{and_then-inv}
use tenant_deck.Std.Strconv.{parse_int}
use tenant_deck.Capsule.Logs.{LogOptions}
use tenant_deck.Httpapi.Validate.{valid_k8s_name}
use tenant_deck.Httpapi.Validate.Labels.{IsLabel, valid_k8s_name_iff}
use tenant_deck.Httpapi.Logs.{
  max_tail_lines, max_limit_bytes, positive, positive_param, container_param, store_tail_lines,
  store_limit_bytes, store_since_seconds, default_options, parse_log_options,
}

-- What the client may send upstream: both numbers set and within their bounds, and no container or
-- a container that is an RFC 1123 label.
pub record IsClamped (o : LogOptions) : Type 0 where
  pub some_lines : 1 ≤ o.tail_lines
  pub lines : o.tail_lines ≤ max_tail_lines
  pub some_bytes : 1 ≤ o.limit_bytes
  pub bytes : o.limit_bytes ≤ max_limit_bytes
  pub container : (o.container ≡ "") ⊎ IsLabel (codes o.container)

positive_ge : (bad : Error) (v : String) (n : ℕ) → positive bad (parse_int 64 v) ≡ ok n → 1 ≤ n
unfolding positive
positive_ge bad v n h = elim (Result-cases (parse_int 64 v)) [
  | inl (i, parsed) ↦ ground arith
  | inr (e, failed) ↦ ground arith
]

-- A parameter's step changes nothing, or stores a positive number.
positive_param_stores :
    (store : ℕ → LogOptions → LogOptions) (bad : Error) (v : String) (o o' : LogOptions)
    → positive_param store bad v o ≡ ok o'
    → (o ≡ o') ⊎ ((n : ℕ) × (1 ≤ n) × (store n o ≡ o'))
unfolding positive_param
positive_param_stores store bad v o o' h = elim (Bool-cases (str_eq v "")) [
  | inl absent ↦ inl (ground arith)
  | inr there ↦ elim (Result-cases (positive bad (parse_int 64 v))) [
    | inl (n, parsed) ↦ inr (n, positive_ge bad v n parsed, ground arith)
    | inr (e, failed) ↦ ground arith
  ]
]

container_param_stores :
    (v : String) (o o' : LogOptions)
    → container_param v o ≡ ok o'
    → (o ≡ o') ⊎ (IsLabel (codes v) × (record o { container = v } ≡ o'))
unfolding container_param
container_param_stores v o o' h = elim (Bool-cases (str_eq v "")) [
  | inl absent ↦ inl (ground arith)
  | inr there ↦ elim (Bool-cases (valid_k8s_name v)) [
    | inl valid ↦ inr ((valid_k8s_name_iff v).0 valid, ground arith)
    | inr wrong ↦ ground arith
  ]
]

tail_param_keeps :
    (bad : Error) (v : String) (o o' : LogOptions)
    → IsClamped o
    → positive_param store_tail_lines bad v o ≡ ok o'
    → IsClamped o'
tail_param_keeps bad v o o' k h = elim (positive_param_stores store_tail_lines bad v o o' h) [
  | inl same ↦ rw same at k
  | inr (n, some', same) ↦ subst IsClamped same (record {
    some_lines = omega arith;
    lines = omega arith;
    some_bytes = k.some_bytes;
    bytes = k.bytes;
    container = k.container;
  })
]

bytes_param_keeps :
    (bad : Error) (v : String) (o o' : LogOptions)
    → IsClamped o
    → positive_param store_limit_bytes bad v o ≡ ok o'
    → IsClamped o'
bytes_param_keeps bad v o o' k h = elim (positive_param_stores store_limit_bytes bad v o o' h) [
  | inl same ↦ rw same at k
  | inr (n, some', same) ↦ subst IsClamped same (record {
    some_lines = k.some_lines;
    lines = k.lines;
    some_bytes = omega arith;
    bytes = omega arith;
    container = k.container;
  })
]

since_param_keeps :
    (bad : Error) (v : String) (o o' : LogOptions)
    → IsClamped o
    → positive_param store_since_seconds bad v o ≡ ok o'
    → IsClamped o'
since_param_keeps bad v o o' k h = elim (positive_param_stores store_since_seconds bad v o o' h) [
  | inl same ↦ rw same at k
  | inr (n, some', same) ↦ subst IsClamped same (record {
    some_lines = k.some_lines;
    lines = k.lines;
    some_bytes = k.some_bytes;
    bytes = k.bytes;
    container = k.container;
  })
]

container_param_keeps :
    (v : String) (o o' : LogOptions) → IsClamped o → container_param v o ≡ ok o' → IsClamped o'
container_param_keeps v o o' k h = elim (container_param_stores v o o' h) [
  | inl same ↦ rw same at k
  | inr (label, same) ↦ subst IsClamped same (record {
    some_lines = k.some_lines;
    lines = k.lines;
    some_bytes = k.some_bytes;
    bytes = k.bytes;
    container = inr label;
  })
]

default_options-IsClamped : (follow : Bool) → IsClamped (default_options follow)
default_options-IsClamped follow = record {
  some_lines = omega arith;
  lines = omega arith;
  some_bytes = omega arith;
  bytes = omega arith;
  container = inl refl;
}

-- Whatever the query of a log request holds, the options that are accepted ask upstream for 1 to
-- 2000 lines and 1 byte to 1 MiB, and name no container or one that is an RFC 1123 label.
pub parse_log_options-IsClamped :
    (q : String → String) (o : LogOptions) → parse_log_options q ≡ ok o → IsClamped o
unfolding parse_log_options
parse_log_options-IsClamped q o h =
    let (o1, tail, h1) = and_then-inv _ _ h in
    let (o2, limit, h2) = and_then-inv _ _ h1 in
    let (o3, since, h3) = and_then-inv _ _ h2 in
    container_param_keeps _ o3 o
      (since_param_keeps _ _ o2 o3
        (bytes_param_keeps _ _ o1 o2 (tail_param_keeps _ _ _ o1 (default_options-IsClamped _) tail)
          limit)
        since)
      h3
