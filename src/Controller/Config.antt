-- ===== src/Controller/Config.antt =====
-- services/attempt-controller/internal/config/config.go: the controller's environment variables.
use rootenv.Common.{
  ◌≡◌, ◌≢◌, ◌↔◌, ◌⊎◌, inl, inr, Bool, not, Bytes, bytes_eq, bytes_beq_iff, codes, ◌==◌,
  if◌then◌else◌, arith, [],
}

pub record Config : Type 0 where
  pub pb_url : Bytes
  pub pb_email : Bytes
  pub pb_password : Bytes
  pub tls_verify : Bool

-- The variable that is missing.
pub data Missing : Type 0 where
  missing_url missing_email missing_password : Missing

abbrev pub url_variable : Bytes
url_variable = codes "ATTEMPT_CONTROLLER_BACKEND_URL"

abbrev pub email_variable : Bytes
email_variable = codes "ATTEMPT_CONTROLLER_BACKEND_USERNAME"

abbrev pub password_variable : Bytes
password_variable = codes "ATTEMPT_CONTROLLER_BACKEND_PASSWORD"

abbrev pub tls_variable : Bytes
tls_variable = codes "ATTEMPT_CONTROLLER_BACKEND_TLS_VERIFY"

unfoldable pub validate : Config → Missing ⊎ Config
validate c =
    if c.pb_url == []
    then inl missing_url
    else if c.pb_email == []
    then inl missing_email
    else if c.pb_password == []
    then inl missing_password
    else inr c

-- `getenv` stands for `os.Getenv`, which gives "" for a variable that is not set.
unfoldable pub load : (Bytes → Bytes) → Missing ⊎ Config
load getenv = validate (record {
  pb_url = getenv url_variable;
  pb_email = getenv email_variable;
  pb_password = getenv password_variable;
  tls_verify = not (getenv tls_variable == codes "false");
})

-- The configuration is loaded exactly if the URL, the user name and the password are set; it then
-- is those three, and certificates are verified unless the fourth variable is "false".
pub load_iff :
    (getenv : Bytes → Bytes) (c : Config)
    → (load getenv ≡ inr c) ↔ (
        (c.pb_url ≢ [])
        × (c.pb_email ≢ [])
        × (c.pb_password ≢ [])
        × (c ≡ record {
          pb_url = getenv url_variable;
          pb_email = getenv email_variable;
          pb_password = getenv password_variable;
          tls_verify = not (getenv tls_variable == codes "false");
        }))
unfolding load validate
load_iff getenv c = ground (
  arith,
  bytes_beq_iff (getenv url_variable) [],
  bytes_beq_iff (getenv email_variable) [],
  bytes_beq_iff (getenv password_variable) [],
)
