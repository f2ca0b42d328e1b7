-- ===== src/Http/Request.antt =====
-- `setup_curl` of src/http.c: the parameters of the URL and the body of a request.
pub mod Overrides
use pg_clickhouse.Prelude.{
  ℕ, zero, suc, ◌+◌, ◌≤◌, ◌<◌, Bytes, codes, Bool, true, false, ◌||◌, List, [], ◌∷◌, ◌++◌, Option,
  none, some, ◌==◌, if◌then◌else◌, length, length-append, length-take, take, str_eq, str_eq_iff,
  All, map, ◌≡◌, ◌≢◌, ◌↔◌, refl, sym, ap, subst, ◌∙◌, ◌⊎◌, inl, inr, Bool-cases, arith,
}

-- A setting: its name and value.
abbrev pub Setting : Type 0
Setting = Bytes × Bytes

-- `is_overridden`.
unfoldable pub is_overridden : List Setting → Bytes → Bool
unfolding str_eq
is_overridden [] name = false
is_overridden (o ∷ overrides) name = str_eq o.0 name || is_overridden overrides name

-- `snprintf` into `temp_buf`, of 512 bytes with the NUL.
unfoldable pub temp_buf : Bytes → Bytes
temp_buf s = take 511 s

abbrev pub joined : Setting → Bytes
joined s = s.0 ++ b'=' ∷ s.1

unfoldable pub parameter : Setting → Bytes
unfolding temp_buf
parameter s = temp_buf (joined s)

-- The settings of the query that no override replaces.
unfoldable pub user_parameters : List Setting → List Setting → List Bytes
unfolding is_overridden parameter
user_parameters overrides [] = []
user_parameters overrides (s ∷ settings) =
    let rest = user_parameters overrides settings in
    if is_overridden overrides s.0 then rest else parameter s ∷ rest

-- What is appended to the URL behind the base, each part encoded by libcurl.
unfoldable pub url_parameters : Bytes → List Setting → List Setting → List Bytes
unfolding user_parameters parameter temp_buf
url_parameters query_id settings overrides =
    temp_buf (codes "query_id=" ++ query_id)
    ∷ (user_parameters overrides settings ++ map parameter overrides)

-- The name and value that a server reads of a parameter.
unfoldable pub split : Bytes → Bytes × Bytes
split [] = ([], [])
split (c ∷ s) = let rest = split s in if c == b'=' then ([], s) else (c ∷ rest.0, rest.1)

-- The value that the server uses of a name: the last one.
unfoldable pub last_parameter : Bytes → List Bytes → Option Bytes → Option Bytes
unfolding split str_eq
last_parameter k [] before = before
last_parameter k (p ∷ params) before =
    last_parameter k params (if str_eq (split p).0 k then some (split p).1 else before)

-- The value of a name among settings, the last one as well.
unfoldable pub last_setting : Bytes → List Setting → Option Bytes → Option Bytes
unfolding str_eq
last_setting k [] before = before
last_setting k (s ∷ settings) before =
    last_setting k settings (if str_eq s.0 k then some s.1 else before)
