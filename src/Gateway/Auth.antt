-- ===== src/Gateway/Auth.antt =====
-- gateway/auth.py. `hash_api_key` is SHA-256 in hexadecimal, a library's function and so a
-- parameter; `hmac.compare_digest` is equality of texts.
use model_hub.Prelude.{
  ◌≡◌, sym, err-injective, inl, inr, Bool-cases, false, [], ◌∷◌, String, Result, ok, err, str_eq,
  if◌then◌else◌,
}
use model_hub.Prelude.Dict.{Dict}
use model_hub.Common.Errors.{ModelHubError, gateway_error, auth_invalid_api_key, serve}

pub record Principal : Type 0 where
  pub tenant_id : String
  pub tier : String

pub record AuthConfig : Type 0 where
  pub principals_by_key_hash : Dict Principal

abbrev pub auth_error : ModelHubError
auth_error = record {
  error_class = gateway_error;
  code = auth_invalid_api_key;
  stage = serve;
  context = [];
  retryable = false;
}

-- The loop over `principals_by_key_hash.items()`.
pub find_principal : String → Dict Principal → Result ModelHubError Principal
find_principal key_hash [] = err auth_error
find_principal key_hash ((candidate_hash, principal) ∷ rest) =
    if str_eq candidate_hash key_hash then ok principal else find_principal key_hash rest

unfoldable pub authenticate :
    (String → String) → String → AuthConfig → Result ModelHubError Principal
unfolding find_principal
authenticate hash_api_key raw_api_key config =
    find_principal (hash_api_key raw_api_key) config.principals_by_key_hash

-- The only error of the scan is the invalid key.
pub find_principal-err :
    (key_hash : String) (d : Dict Principal) {e : ModelHubError}
    → find_principal key_hash d ≡ err e
    → e ≡ auth_error
unfolding find_principal
find_principal-err key_hash [] h = sym (err-injective h)
find_principal-err key_hash ((k, p) ∷ d) h = elim (Bool-cases (str_eq k key_hash)) [
  | inl f ↦ cc (rw (f, find_principal) at h)
  | inr f ↦ find_principal-err key_hash d (rw (f, find_principal) at h)
]

pub authenticate-err :
    (hash_api_key : String → String) (raw_api_key : String) (config : AuthConfig)
    {e : ModelHubError}
    → authenticate hash_api_key raw_api_key config ≡ err e
    → e ≡ auth_error
unfolding authenticate
authenticate-err hash_api_key raw_api_key config h =
    find_principal-err (hash_api_key raw_api_key) config.principals_by_key_hash h
