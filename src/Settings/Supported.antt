-- ===== src/Settings/Supported.antt =====
-- `drop_unsupported` of src/settings.c: settings that the server's version does not know are not
-- sent.
mod Table
unfoldable pub use Table.*
pub mod Versions
pub mod Names
use pg_clickhouse.Settings.Supported.Versions.{
  AtLeast, IsKnownTo, Apart, known_settings-Apart, unnamed,
}
use pg_clickhouse.Prelude.{
  ℕ, Bytes, Bool, true, false, ◌≡◌, refl, ap, ◌∙◌, sym, List, [], ◌∷◌, ◌++◌, append-nil,
  append_assoc, Option, none, some, codes, arith, str_eq, str_eq_iff, str_eq-false, ◌==◌, ◌||◌,
  ◌&&◌, not, and_true, not-true, All, ◌↔◌, ◌⊎◌, ◌<◌, ◌≤◌, ◌≢◌, if◌then◌else◌, inl, inr, Bool-cases,
}
use mathlib.Core.Bool.{false≢true}
use pg_clickhouse.Nodes.{DefElem}
use pg_clickhouse.ServerVersion.{ServerVersion, unknown, version_ge}
use pg_clickhouse.Settings.Lookup.{value_of, Fresh, Distinct}

-- The version as far as the loop has asked for it: `have_version` and `version`.
pub record Asked : Type 0 where
  pub have_version : Bool
  pub version : ServerVersion

abbrev pub not_asked : Asked
not_asked = record { have_version = false; version = unknown }

-- What a connection's `server_version` method answers; `none` if the driver has no such method.
unfoldable pub answer : Option ServerVersion → ServerVersion
answer none = unknown
answer (some v) = v

-- `if (!have_version)`: the method is called for the first known setting only.
unfoldable pub ask : Option ServerVersion → Asked → Asked
unfolding answer
ask method a = if a.have_version then a else record { have_version = true; version = answer method }

pub record Dropped : Type 0 where
  pub kept : List DefElem
  pub warnings : List (Bytes × KnownSetting)
  pub asked : Asked

-- The test under which a listed setting is kept.
unfoldable pub supported : ServerVersion → KnownSetting → Bool
supported v k = v.major == 0 || version_ge v k.min_major k.min_minor

-- The rest of a round, by what the table says.
unfoldable pub keep_or_warn :
    Option ServerVersion → Dropped → DefElem → Option KnownSetting → Dropped
unfolding ask supported
keep_or_warn method s d none = record s { kept = s.kept ++ d ∷ [] }
keep_or_warn method s d (some k) =
    let a = ask method s.asked in
    if supported a.version k
    then record { kept = s.kept ++ d ∷ []; warnings = s.warnings; asked = a }
    else record { kept = s.kept; warnings = s.warnings ++ (d.defname, k) ∷ []; asked = a }

-- One round of the loop.
unfoldable pub drop_one : Option ServerVersion → Dropped → DefElem → Dropped
unfolding keep_or_warn
drop_one method s d = keep_or_warn method s d (find_known d.defname known_settings)

unfoldable pub drop_loop : Option ServerVersion → Dropped → List DefElem → Dropped
unfolding drop_one
drop_loop method s [] = s
drop_loop method s (d ∷ settings) = drop_loop method (drop_one method s d) settings

unfoldable pub drop_unsupported : Option ServerVersion → List DefElem → Dropped
unfolding drop_loop
drop_unsupported method settings =
    drop_loop method (record { kept = []; warnings = []; asked = not_asked }) settings

-- A setting may be sent if it is not listed, if the version is not known, or if the version is at
-- least the one that added it.
unfoldable pub allowed : ServerVersion → Option KnownSetting → Bool
unfolding supported
allowed v none = true
allowed v (some k) = supported v k

unfoldable pub sendable : Option ServerVersion → Bytes → Bool
unfolding answer allowed
sendable method k = allowed (answer method) (find_known k known_settings)

unfoldable pub sent : Option ServerVersion → List DefElem → List DefElem
sent method [] = []
sent method (d ∷ ds) = (if sendable method d.defname then d ∷ [] else []) ++ sent method ds

-- The settings that are not sent, with what the table says of them.
unfoldable pub warned : Option KnownSetting → DefElem → List (Bytes × KnownSetting)
warned none d = []
warned (some k) d = (d.defname, k) ∷ []

unfoldable pub withheld : Option ServerVersion → List DefElem → List (Bytes × KnownSetting)
unfolding warned
withheld method [] = []
withheld method (d ∷ ds) =
    (if sendable method d.defname then [] else warned (find_known d.defname known_settings) d)
    ++ withheld method ds

is_known : Option KnownSetting → Bool
is_known none = false
is_known (some k) = true

unfoldable pub any_known : List DefElem → Bool
unfolding is_known
any_known [] = false
any_known (d ∷ ds) = is_known (find_known d.defname known_settings) || any_known ds

-- The version that the loop has is the one that the method answers.
record IsHonest (method : Option ServerVersion) (a : Asked) : Type 0 where
  honest : a.have_version ≡ true → a.version ≡ answer method

module _ (method : Option ServerVersion) where
  ask_lem :
      (a : Asked)
      → IsHonest method a
      → ((ask method a).version ≡ answer method) × ((ask method a).have_version ≡ true)
  unfolding ask
  ask_lem a h = ground (arith, h.honest)

  record Round (s t : Dropped) (keep : List DefElem) (drop : List (Bytes × KnownSetting))
      (asks : Bool) : Type 0 where
    kept_lem : t.kept ≡ s.kept ++ keep
    warnings_lem : t.warnings ≡ s.warnings ++ drop
    asked_lem : t.asked.have_version ≡ (s.asked.have_version || asks)
    honest_lem : IsHonest method t.asked

  keep_or_warn_lem :
      (s : Dropped) (d : DefElem) (o : Option KnownSetting)
      → IsHonest method s.asked
      → Round s
          (keep_or_warn method s d o)
          (if allowed (answer method) o then d ∷ [] else [])
          (if allowed (answer method) o then [] else warned o d)
          (is_known o)
  unfolding keep_or_warn allowed warned is_known
  keep_or_warn_lem s d none h = record {
    kept_lem = refl;
    warnings_lem = sym (append-nil s.warnings);
    asked_lem = ground arith;
    honest_lem = h;
  }
  keep_or_warn_lem s d (some k) h =
      let (asked_version, asked_true) = ask_lem s.asked h in
      let fine : IsHonest method (ask method s.asked) = record { honest = λ _. asked_version } in
      let known_now : (ask method s.asked).have_version ≡ (s.asked.have_version || true) =
        ground (arith, asked_true) in
      by_test (supported (answer method) k) (ap (λ v. supported v k) asked_version) fine known_now
    where
      by_test :
          (b : Bool)
          → supported (ask method s.asked).version k ≡ b
          → IsHonest method (ask method s.asked)
          → (ask method s.asked).have_version ≡ (s.asked.have_version || true)
          → Round s
              (keep_or_warn method s d (some k))
              (if b then d ∷ [] else [])
              (if b then [] else (d.defname, k) ∷ [])
              true
      by_test true e fine known_now = rw e (record {
        kept_lem = refl;
        warnings_lem = sym (append-nil s.warnings);
        asked_lem = known_now;
        honest_lem = fine;
      })
      by_test false e fine known_now = rw e (record {
        kept_lem = sym (append-nil s.kept);
        warnings_lem = refl;
        asked_lem = known_now;
        honest_lem = fine;
      })

  drop_loop_lem :
      (s : Dropped) (ds : List DefElem)
      → IsHonest method s.asked
      → Round s (drop_loop method s ds) (sent method ds) (withheld method ds) (any_known ds)
  unfolding drop_loop sent withheld any_known sendable
  drop_loop_lem s [] h = record {
    kept_lem = sym (append-nil s.kept);
    warnings_lem = sym (append-nil s.warnings);
    asked_lem = ground arith;
    honest_lem = h;
  }
  drop_loop_lem s (d ∷ ds) h =
      let one = keep_or_warn_lem s d (find_known d.defname known_settings) h in
      let more = drop_loop_lem (drop_one method s d) ds one.honest_lem in
      record {
        kept_lem =
            more.kept_lem ∙ ap (λ x. x ++ sent method ds) one.kept_lem ∙ append_assoc s.kept _ _;
        warnings_lem =
            more.warnings_lem
            ∙ ap (λ x. x ++ withheld method ds) one.warnings_lem
            ∙ append_assoc s.warnings _ _;
        asked_lem = ground (arith, more.asked_lem, one.asked_lem);
        honest_lem = more.honest_lem;
      }

supported_iff :
    (v : ServerVersion) (e : KnownSetting) → (supported v e ≡ true) ↔ ((v.major ≡ 0) ⊎ AtLeast v e)
unfolding supported version_ge
supported_iff v e = ground arith

allowed_iff :
    (v : ServerVersion) (k : Bytes) (es : List KnownSetting)
    → Apart es
    → (allowed v (find_known k es) ≡ true) ↔ IsKnownTo v k es
unfolding allowed find_known
allowed_iff v k [] apart = ((λ h. inr tt), λ h. refl)
allowed_iff v k (e ∷ es) (others, apart) = elim (Bool-cases (str_eq e.name k)) [
  | inl y ↦
      let same : e.name ≡ k = (str_eq_iff e.name k).0 y in
      let (there, back) = supported_iff v e in
      rw y (
        (λ h. elim (there h) [
          | inl unknown_version ↦ inl unknown_version
          | inr late ↦ inr ((λ _. late), unnamed (AtLeast v) k es (rw same at others))
        ]),
        λ h. back (elim h [
          | inl unknown_version ↦ inl unknown_version
          | inr (first, rest) ↦ inr (first same)
        ]),
      )
  | inr n ↦
      let (there, back) = allowed_iff v k es apart in
      rw n (
        (λ h. elim (there h) [
          | inl unknown_version ↦ inl unknown_version
          | inr rest ↦ inr ((λ same. absurd (str_eq-false e.name k n same)), rest)
        ]),
        λ h.
            back
              (elim h [ inl unknown_version ↦ inl unknown_version | inr (first, rest) ↦ inr rest ]),
      )
]

-- The settings that are sent are those that the server's version knows, in their order; for each of
-- the others there is a warning; and the driver is asked for its version exactly if the list names
-- a setting of the table. A version knows a name if it is not known itself, which a major version of
-- 0 says, or if it is at least the version that the table has for the name.
pub drop_unsupported_lem :
    (method : Option ServerVersion) (ds : List DefElem)
    → ((drop_unsupported method ds).kept ≡ sent method ds)
      × ((drop_unsupported method ds).warnings ≡ withheld method ds)
      × ((drop_unsupported method ds).asked.have_version ≡ any_known ds)
      × ((k : Bytes) → (sendable method k ≡ true) ↔ IsKnownTo (answer method) k known_settings)
unfolding drop_unsupported
drop_unsupported_lem method ds =
    let r =
      drop_loop_lem method (record { kept = []; warnings = []; asked = not_asked }) ds
        (record { honest = λ e. absurd (false≢true e) }) in
    (
      r.kept_lem,
      r.warnings_lem,
      r.asked_lem,
      λ k. unfold sendable in allowed_iff (answer method) k known_settings known_settings-Apart,
    )
