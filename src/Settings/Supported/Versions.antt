-- ===== src/Settings/Supported/Versions.antt =====
-- The versions of the table of src/settings.c: which of its settings a server knows.
use pg_clickhouse.Prelude.{
  Bytes, Bool, true, ◌≡◌, refl, List, [], ◌∷◌, str_eq, str_eq-false, ◌&&◌, not, and_true, not-true,
  All, ◌⊎◌, ◌<◌, ◌≤◌, ◌≢◌,
}
use pg_clickhouse.ServerVersion.{ServerVersion}
use pg_clickhouse.Settings.Supported.Table.{KnownSetting, known_settings}

-- A version is at least the one that added a setting: a later major version, or the same major
-- version and no earlier minor one.
abbrev pub AtLeast : ServerVersion → KnownSetting → Type 0
AtLeast v e = (e.min_major < v.major) ⊎ ((e.min_major ≡ v.major) × (e.min_minor ≤ v.minor))

-- A name is known to a server if its version is not known, or is at least the one that the table has
-- for that name, wherever in the table it stands.
abbrev pub IsKnownTo : ServerVersion → Bytes → List KnownSetting → Type 0
IsKnownTo v k table = (v.major ≡ 0) ⊎ All (λ e. e.name ≡ k → AtLeast v e) table

abbrev pub Apart : List KnownSetting → Type 0
Apart [] = Unit
Apart (e ∷ es) = All (λ f. f.name ≢ e.name) es × Apart es

none_named : Bytes → List KnownSetting → Bool
none_named k [] = true
none_named k (e ∷ es) = not (str_eq e.name k) && none_named k es

all_apart : List KnownSetting → Bool
unfolding none_named
all_apart [] = true
all_apart (e ∷ es) = none_named e.name es && all_apart es

none_named-All :
    (k : Bytes) (es : List KnownSetting) → none_named k es ≡ true → All (λ e. e.name ≢ k) es
unfolding none_named
none_named-All k [] h = tt
none_named-All k (e ∷ es) h =
    let (this, others) = and_true (not (str_eq e.name k)) (none_named k es) h in
    (str_eq-false e.name k (not-true _ this), none_named-All k es others)

all_apart-Apart : (es : List KnownSetting) → all_apart es ≡ true → Apart es
unfolding all_apart
all_apart-Apart [] h = tt
all_apart-Apart (e ∷ es) h =
    let (this, others) = and_true (none_named e.name es) (all_apart es) h in
    (none_named-All e.name es this, all_apart-Apart es others)

-- The table has one entry for a name.
pub known_settings-Apart : Apart known_settings
known_settings-Apart =
    all_apart-Apart known_settings (unfold all_apart none_named known_settings str_eq in refl)

pub unnamed :
    (P : KnownSetting → Type 0) (k : Bytes) (es : List KnownSetting)
    → All (λ e. e.name ≢ k) es
    → All (λ e. e.name ≡ k → P e) es
unnamed P k [] h = tt
unnamed P k (e ∷ es) (h, hs) = ((λ same. absurd (h same)), unnamed P k es hs)
