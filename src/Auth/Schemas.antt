-- ===== src/Auth/Schemas.antt =====
-- The requests of registration and login and their validation: backend/app/schemas/auth.py. Whether
-- a text is an address (pydantic's EmailStr), and how it is written then, is a parameter.
use Prim.Native.Char.{Char, code}
use Prim.Native.String.{[], ◌∷◌, count}
use text.Mathlib.Text.{◌==◌ as str_eq}
use crypto_exchange_pro.Prelude.{
  ℕ, String, Bool, Option, none, some, ◌&&◌, ◌||◌, ◌==◌, leb, not, if◌then◌else◌,
}

pub record RegisterRequest : Type 0 where
  pub email : String
  pub username : String
  pub password : String

pub record LoginRequest : Type 0 where
  pub email : String
  pub password : String

abbrev between : ℕ → ℕ → ℕ → Bool
between low high n = leb low n && leb n high

-- `str.isspace` of one character.
unfoldable pub is_space : Char → Bool
is_space c =
    let n = code c in
    between 9 13 n
    || between 28 32 n
    || n == 133
    || n == 160
    || n == 5760
    || between 8192 8202 n
    || between 8232 8233 n
    || n == 8239
    || n == 8287
    || n == 12288

unfoldable pub strip_start : String → String
strip_start [] = []
strip_start (c ∷ s) = if is_space c then strip_start s else c ∷ s

unfoldable pub strip_end : String → String
strip_end [] = []
strip_end (c ∷ s) = let rest = strip_end s in if is_space c && str_eq rest "" then [] else c ∷ rest

-- `str.strip`.
unfoldable pub strip : String → String
strip s = strip_end (strip_start s)

-- The length is of the name as it was sent; the name that is kept is stripped.
abbrev pub register_request : RegisterRequest → Option String → Option RegisterRequest
register_request sent none = none
register_request sent (some address) =
    if between 3 100 (count sent.username)
      && not (str_eq (strip sent.username) "")
      && between 8 128 (count sent.password)
    then some (record { email = address; username = strip sent.username; password = sent.password })
    else none

unfoldable pub validate_register :
    (String → Option String) → RegisterRequest → Option RegisterRequest
validate_register address sent = register_request sent (address sent.email)

abbrev pub login_request : LoginRequest → Option String → Option LoginRequest
login_request sent none = none
login_request sent (some address) =
    if leb 1 (count sent.password)
    then some (record { email = address; password = sent.password })
    else none

unfoldable pub validate_login : (String → Option String) → LoginRequest → Option LoginRequest
validate_login address sent = login_request sent (address sent.email)
