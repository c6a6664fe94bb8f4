-- ===== src/Config.antt =====
-- router/internal/config/config.go: the configuration from the environment. `time.ParseDuration` and the host
-- name are parameters; a duration is in nanoseconds.
use aether_code.Base.{
  ℕ, Bool, true, false, List, [], ◌∷◌, Option, none, some, Text, codes, ◌==◌, text_eq, nat_eq, ℤ,
  pos, negsuc, any, ltb, zero, suc, two_63, if◌then◌else◌, ◌≡◌, refl, text_beq,
}
use aether_code.Text.{scan_digits}

pub record Config : Type 0 where
  pub addr : Text
  pub instance_id : Text
  pub sql_dsn : Text
  pub config_sync_interval : ℤ
  pub request_timeout : ℤ
  pub max_retries : ℤ
  pub max_body_bytes : ℤ
  pub api_key : Text
  pub admin_key : Text
  pub account_key_auth : Bool
  pub api_key_hash_secret : Text
  pub account_service_key : Text

-- `strconv.Atoi`: an optional sign and digits, within an int64.
abbrev negative : ℕ → Option ℤ
negative zero = some (pos 0)
negative (suc n) = if ltb n two_63 then some (negsuc n) else none

abbrev signed : Bool → Option ℕ → Option ℤ
signed minus none = none
signed true (some n) = negative n
signed false (some n) = if ltb n two_63 then some (pos n) else none

abbrev digits_of : Bool → Text → Option ℤ
digits_of minus [] = none
digits_of minus (c ∷ s) = signed minus (scan_digits 0 (c ∷ s))

unfoldable pub atoi : Text → Option ℤ
atoi [] = none
atoi (c ∷ s) =
    if c == b'-'
    then digits_of true s
    else if c == b'+'
    then digits_of false s
    else digits_of false (c ∷ s)

-- `strconv.ParseBool`
abbrev one_of : Text → List Text → Bool
one_of value words = any (λ w. w == value) words

unfoldable pub parse_bool : Text → Option Bool
parse_bool value =
    if one_of value
      (codes "1" ∷ codes "t" ∷ codes "T" ∷ codes "true" ∷ codes "TRUE" ∷ codes "True" ∷ [])
    then some true
    else if one_of value
        (codes "0" ∷ codes "f" ∷ codes "F" ∷ codes "false" ∷ codes "FALSE" ∷ codes "False" ∷ [])
    then some false
    else none

abbrev parsed_or {ℓ} : {A : Type ℓ} → A → Option A → A
parsed_or fallback none = fallback
parsed_or fallback (some value) = value

abbrev host_name : Option Text → Text
host_name none = codes "local"
host_name (some name) = if name == [] then codes "local" else name

-- `hostname`, given what `os.Hostname` returns, `none` for an error
unfoldable pub hostname : Option Text → Text
hostname answered = host_name answered

module _ (environment : Text → Text) where
  unfoldable pub getenv : Text → Text → Text
  getenv key fallback = if environment key == [] then fallback else environment key

  unfoldable pub get_duration : (Text → Option ℤ) → Text → ℤ → ℤ
  get_duration parse_duration key fallback =
      if environment key == []
      then fallback
      else parsed_or fallback (parse_duration (environment key))

  unfoldable pub get_int : Text → ℤ → ℤ
  get_int key fallback =
      if environment key == [] then fallback else parsed_or fallback (atoi (environment key))

  unfoldable pub get_bool : Text → Bool → Bool
  get_bool key fallback =
      if environment key == [] then fallback else parsed_or fallback (parse_bool (environment key))

  unfoldable pub load : (Text → Option ℤ) → Option Text → Config
  unfolding getenv get_duration get_int get_bool hostname
  load parse_duration host = record {
    addr = getenv (codes "ROUTER_ADDR") (codes ":8080");
    instance_id = getenv (codes "ROUTER_INSTANCE_ID") (hostname host);
    sql_dsn = environment (codes "SQL_DSN");
    config_sync_interval =
        get_duration parse_duration (codes "CONFIG_SYNC_INTERVAL") (pos 5000000000);
    request_timeout = get_duration parse_duration (codes "UPSTREAM_TIMEOUT") (pos 300000000000);
    max_retries = get_int (codes "UPSTREAM_MAX_RETRIES") (pos 2);
    max_body_bytes = get_int (codes "MAX_BODY_BYTES") (pos 33554432);
    api_key = environment (codes "ROUTER_API_KEY");
    admin_key = environment (codes "ROUTER_ADMIN_KEY");
    account_key_auth = get_bool (codes "RELAY_ACCOUNT_KEY_AUTH") false;
    api_key_hash_secret = environment (codes "API_KEY_HASH_SECRET");
    account_service_key =
        getenv (codes "ACCOUNT_SERVICE_KEY") (environment (codes "ROUTER_ADMIN_KEY"));
  }

reads_negative : atoi (codes "-12") ≡ some (negsuc 11)
unfolding atoi scan_digits
reads_negative = refl

refuses_empty_sign : atoi (codes "-") ≡ none
unfolding atoi
refuses_empty_sign = refl

reads_word : parse_bool (codes "True") ≡ some true
unfolding parse_bool text_beq
reads_word = refl
