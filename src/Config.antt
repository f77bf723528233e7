-- ===== src/Config.antt =====
-- config/config.go: the readers of the environment, a function of names, and VerifyConfig, whose
-- panics are `false`.
mod Tests
pub mod Verified
pub mod Lists
use sr_server.Prelude.{
  ℕ, ◌+◌, ◌^◌, Bool, true, false, not, ◌&&◌, ◌||◌, Option, none, some, List, [], ◌∷◌, ◌++◌, length,
  ltb, leb, ◌==◌, if◌then◌else◌, Text, codes, text_eq, parse_digits, ℤ, pos, negsuc, zero, suc,
}

abbrev pub Environment : Type 0
Environment = Text → Option Text

-- readString
unfoldable pub read_string : Environment → Text → Text → Text
read_string env name default_value = elim (env (codes "SR_" ++ name)) [
  | none ↦ default_value
  | some val ↦ val
]

-- strings.Split at one byte
unfoldable pub add_to_first : ℕ → List Text → List Text
add_to_first c [] = (c ∷ []) ∷ []
add_to_first c (t ∷ ts) = (c ∷ t) ∷ ts

unfoldable pub split : ℕ → Text → List Text
unfolding add_to_first
split sep [] = [] ∷ []
split sep (c ∷ s) = let rest = split sep s in if c == sep then [] ∷ rest else add_to_first c rest

unfoldable pub list_of : Text → List Text
unfolding split
list_of [] = []
list_of (c ∷ s) = split b',' (c ∷ s)

-- readStringArray
unfoldable pub read_string_array : Environment → Text → Text → List Text
unfolding list_of read_string
read_string_array env name default_value = list_of (read_string env name default_value)

abbrev in_int64 : Bool → Option ℕ → Option ℤ
in_int64 minus none = none
in_int64 true (some zero) = some (pos 0)
in_int64 true (some (suc n)) = if ltb n (2 ^ 63) then some (negsuc n) else none
in_int64 false (some n) = if ltb n (2 ^ 63) then some (pos n) else none

-- a text of digits, at least one
digits : Text → Option ℕ
unfolding parse_digits
digits [] = none
digits (c ∷ s) = parse_digits 0 (c ∷ s)

-- strconv.Atoi
unfoldable pub atoi : Text → Option ℤ
unfolding digits
atoi [] = none
atoi (c ∷ s) =
    if c == b'-'
    then in_int64 true (digits s)
    else if c == b'+'
    then in_int64 false (digits s)
    else in_int64 false (digits (c ∷ s))

-- readInt; `none` is the panic
unfoldable pub read_int : Environment → Text → ℤ → Option ℤ
unfolding atoi
read_int env name default_value = elim (env (codes "SR_" ++ name)) [
  | none ↦ some default_value
  | some val ↦ atoi val
]

-- strconv.ParseBool
unfoldable pub parse_bool : Text → Option Bool
parse_bool s =
    if text_eq s (codes "1")
      || text_eq s (codes "t")
      || text_eq s (codes "T")
      || text_eq s (codes "true")
      || text_eq s (codes "TRUE")
      || text_eq s (codes "True")
    then some true
    else if text_eq s (codes "0")
        || text_eq s (codes "f")
        || text_eq s (codes "F")
        || text_eq s (codes "false")
        || text_eq s (codes "FALSE")
        || text_eq s (codes "False")
    then some false
    else none

-- readBool; `none` is the panic
unfoldable pub read_bool : Environment → Text → Bool → Option Bool
unfolding parse_bool
read_bool env name default_value = elim (env (codes "SR_" ++ name)) [
  | none ↦ some default_value
  | some val ↦ parse_bool val
]

-- The values that VerifyConfig reads; of the key only its length, of the origins only the hosts.
pub record Config : Type 0 where
  pub is_production : Bool
  pub main_listen_http : Text
  pub main_listen_https : Text
  pub redirect_listen_http : Text
  pub reverse_proxied : Bool
  pub health_check_key_length : ℕ
  pub tls_autocert_dir : Text
  pub tls_cert_files : List Text
  pub host_frontend : Text
  pub frontend_host : Text
  pub backend_host : Text
  pub frontend_base_path : Text

abbrev pub is_unset : Text → Bool
is_unset [] = true
is_unset (_ ∷ _) = false

abbrev pub has_none : List Text → Bool
has_none [] = true
has_none (_ ∷ _) = false

abbrev pub same : Bool → Bool → Bool
same true b = b
same false b = not b

-- the tests under IsProduction
unfoldable pub production_fails : Config → Bool
production_fails c =
    (not (is_unset c.main_listen_http) && not c.reverse_proxied)
    || (not (c.health_check_key_length == 0) && ltb c.health_check_key_length 256)

-- VerifyConfig
unfoldable pub verify_config : Config → Bool
unfolding production_fails
verify_config c =
    if c.is_production && production_fails c
    then false
    else if text_eq c.redirect_listen_http c.main_listen_https && not (is_unset c.main_listen_https)
    then false
    else if same (is_unset c.main_listen_http) (is_unset c.main_listen_https)
    then false
    else if not (is_unset c.redirect_listen_http)
        && text_eq c.main_listen_http c.redirect_listen_http
    then false
    else if not (is_unset c.main_listen_https)
        && same (is_unset c.tls_autocert_dir) (has_none c.tls_cert_files)
    then false
    else if not (is_unset c.host_frontend)
        && not (text_eq c.host_frontend (codes "by-domain"))
        && not (text_eq c.host_frontend (codes "redirect"))
        && not (text_eq c.host_frontend (codes "subroute"))
    then false
    else if text_eq c.host_frontend (codes "by-domain") && text_eq c.frontend_host c.backend_host
    then false
    else if not (is_unset c.host_frontend)
        && not (text_eq c.host_frontend (codes "redirect"))
        && is_unset c.frontend_base_path
    then false
    else true
