-- ===== src/Endpoint.antt =====
-- src/endpoint.c: the port and the TLS mode of a connection.
use pg_clickhouse.Prelude.{
  ℕ, zero, suc, ◌+◌, ◌-◌, ◌≡◌, ◌≢◌, ◌↔◌, refl, ap, ◌∙◌, Bytes, codes, Bool, true, false, ◌&&◌, ◌||◌,
  not, [], ◌∷◌, ◌++◌, Option, none, some, ◌==◌, leb, if◌then◌else◌, length, take, drop, and_true,
  str_eq, str_eq_iff, arith, inl, inr, Bool-cases, length-append,
}
use pg_clickhouse.Options.Extract.{TlsMode, auto, on, off, Details}

abbrev pub http_port : ℕ
http_port = 8123

abbrev pub http_tls_port : ℕ
http_tls_port = 8443

abbrev pub https_port : ℕ
https_port = 443

abbrev pub native_port : ℕ
native_port = 9000

abbrev pub native_tls_port : ℕ
native_tls_port = 9440

-- `ch_port_set` of src/include/engine.h.
pub data PortSet : Type 0 where
  ports_http ports_native : PortSet

unfoldable pub ends_with : Bytes → Bytes → Bool
ends_with s suffix =
    leb (length suffix) (length s) && str_eq (drop (length s - length suffix) s) suffix

unfoldable pub ch_is_cloud_host : Option Bytes → Bool
unfolding ends_with
ch_is_cloud_host none = false
ch_is_cloud_host (some host) =
    ends_with host (codes ".clickhouse.cloud")
    || (ends_with host (codes ".clickhouse-staging.com")
        || ends_with host (codes ".clickhouse-dev.com"))

unfoldable pub is_http : PortSet → Bool
is_http ports_http = true
is_http ports_native = false

unfoldable pub plain_port : PortSet → ℕ
unfolding is_http
plain_port ports = if is_http ports then http_port else native_port

unfoldable pub secure_port : PortSet → ℕ
unfolding is_http
secure_port ports = if is_http ports then http_tls_port else native_tls_port

-- The `switch` on the TLS mode; a port of 0 is not set.
unfoldable pub resolve : TlsMode → ℕ → Bytes → PortSet → ℕ × Bool
unfolding plain_port secure_port ch_is_cloud_host is_http
resolve on port host ports = (if not (port == 0) then port else secure_port ports, true)
resolve off port host ports = (if not (port == 0) then port else plain_port ports, false)
resolve auto port host ports =
    let used =
      if port == 0
      then (if ch_is_cloud_host (some host) then secure_port ports else plain_port ports)
      else port in
    (used, (used == secure_port ports) || (is_http ports && (used == https_port)))

unfoldable pub ch_resolve_endpoint : {E : Type 0} → Details E → PortSet → ℕ × Bool
unfolding resolve
ch_resolve_endpoint details ports = resolve details.tls details.port details.host ports

-- What the TLS mode says of a host whose port is not set.
unfoldable pub wants_tls : TlsMode → Bytes → Bool
unfolding ch_is_cloud_host
wants_tls on host = true
wants_tls off host = false
wants_tls auto host = ch_is_cloud_host (some host)

resolve_unset :
    (m : TlsMode) (host : Bytes) (ports : PortSet)
    → resolve m 0 host ports
      ≡ (if wants_tls m host then secure_port ports else plain_port ports, wants_tls m host)
unfolding resolve wants_tls
resolve_unset on host ports = refl
resolve_unset off host ports = refl
resolve_unset auto host ports_http = elim (Bool-cases (ch_is_cloud_host (some host))) [
  | inl y ↦ rw y (unfold secure_port plain_port is_http in refl)
  | inr n ↦ rw n (unfold secure_port plain_port is_http in refl)
]
resolve_unset auto host ports_native = elim (Bool-cases (ch_is_cloud_host (some host))) [
  | inl y ↦ rw y (unfold secure_port plain_port is_http in refl)
  | inr n ↦ rw n (unfold secure_port plain_port is_http in refl)
]

resolve_set :
    (m : TlsMode) (p : ℕ) (host : Bytes) (ports : PortSet)
    → (p == 0) ≡ false
    → (resolve m p host ports).0 ≡ p
unfolding resolve
resolve_set on p host ports h = rw h
resolve_set off p host ports h = rw h
resolve_set auto p host ports h = rw h

-- A connection whose port is not set uses the port of its protocol for TLS exactly if it uses TLS:
-- if the mode is on, or if it is auto and the host is one of ClickHouse Cloud.
pub ch_resolve_endpoint-default :
    {E : Type 0} (d : Details E) (ports : PortSet)
    → d.port ≡ 0
    → ch_resolve_endpoint d ports ≡ (
      if wants_tls d.tls d.host then secure_port ports else plain_port ports,
      wants_tls d.tls d.host,
    )
unfolding ch_resolve_endpoint
ch_resolve_endpoint-default d ports h = rw h (resolve_unset d.tls d.host ports)

-- A port that is set is used.
pub ch_resolve_endpoint-set :
    {E : Type 0} (d : Details E) (ports : PortSet)
    → d.port ≢ 0
    → (ch_resolve_endpoint d ports).0 ≡ d.port
unfolding ch_resolve_endpoint
ch_resolve_endpoint-set d ports h = resolve_set d.tls d.port d.host ports (ground arith)

take-drop : (n : ℕ) (s : Bytes) → s ≡ take n s ++ drop n s
take-drop zero s = refl
take-drop (suc n) [] = refl
take-drop (suc n) (c ∷ s) = ap (λ t. c ∷ t) (take-drop n s)

drop-append : (t u : Bytes) → drop (length t) (t ++ u) ≡ u
drop-append [] u = refl
drop-append (c ∷ t) u = drop-append t u

ends_with_split : (s suffix : Bytes) → ends_with s suffix ≡ true → (t : Bytes) × (s ≡ t ++ suffix)
unfolding ends_with
ends_with_split s suffix h =
    let n = length s - length suffix in
    let (fits, same) = and_true (leb (length suffix) (length s)) (str_eq (drop n s) suffix) h in
    (take n s, take-drop n s ∙ ap (λ u. take n s ++ u) ((str_eq_iff (drop n s) suffix).0 same))

ends_with_append : (t s suffix : Bytes) → s ≡ t ++ suffix → ends_with s suffix ≡ true
unfolding ends_with
ends_with_append t s suffix e =
    let lens : length (t ++ suffix) ≡ length t + length suffix = length-append t suffix in
    let gap : length (t ++ suffix) - length suffix ≡ length t = omega arith in
    let fits : leb (length suffix) (length (t ++ suffix)) ≡ true = ground arith in
    rw (e, fits, gap, drop-append t suffix) ((str_eq_iff suffix suffix).1 refl)

-- The host names of ClickHouse Cloud are those that end in one of three domains.
pub ends_with_iff :
    (s suffix : Bytes) → (ends_with s suffix ≡ true) ↔ ((t : Bytes) × (s ≡ t ++ suffix))
unfolding ends_with
ends_with_iff s suffix = (ends_with_split s suffix, λ p. ends_with_append p.0 s suffix p.1)
