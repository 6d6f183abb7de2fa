-- ===== src/Config/Set/Resolved.antt =====
-- What a file that Parse of config/config.go returns leaves open: nothing.
use swarmcli_cd.Base.{
  ℕ, ◌≡◌, ◌≢◌, ◌⊎◌, refl, ap, inl, inr, subst, Bool, true, false, not, ◌&&◌, Option, none, some,
  List, [], ◌∷◌, map, arith, Str, All, ok, Option-cases, if◌then◌else◌,
}
use swarmcli_cd.Application.{
  Spec, ChartSource, DriftDetection, drift_unknown, drift_manifest, drift_live, drift_other,
}
use swarmcli_cd.Config.Check.{is_name}
use swarmcli_cd.Config.Check.Accepted.{Accepted}
use swarmcli_cd.Config.Set.{
  File, default_drift, or_name, default_release, default_app, apply_defaults, validate, Yaml,
  Decoded, document, end_of_input, failed, declares_none, is_none_written, finish, parse,
}
use swarmcli_cd.Config.Set.Obeyed.{validate_iff}

-- A chart source names the release to install.
abbrev pub NamesRelease : Spec → Type 0
NamesRelease app = (c : ChartSource) → app.source.chart ≡ some c → c.release ≢ []

default_drift_again :
    (self : Bool) (d : DriftDetection)
    → default_drift self (default_drift self d) ≡ default_drift self d
default_drift_again true drift_unknown = refl
default_drift_again false drift_unknown = refl
default_drift_again self drift_manifest = refl
default_drift_again self drift_live = refl
default_drift_again self (drift_other s) = refl

or_name_again : (n r : Str) → or_name n (or_name n r) ≡ or_name n r
or_name_again [] [] = refl
or_name_again (c ∷ cs) [] = refl
or_name_again n (c ∷ cs) = refl

default_release_again :
    (n : Str) (chart : Option ChartSource)
    → default_release n (default_release n chart) ≡ default_release n chart
default_release_again n none = refl
default_release_again n (some c) =
    ap (λ r. some (record c { release = r })) (or_name_again n c.release)

default_app_again : (app : Spec) → default_app (default_app app) ≡ default_app app
unfolding default_app
default_app_again app = rw (
  default_drift_again app.self app.drift_detection,
  default_release_again app.name app.source.chart,
)

map_again : (apps : List Spec) → map default_app (map default_app apps) ≡ map default_app apps
map_again [] = refl
map_again (a ∷ rest) = rw (default_app_again a, map_again rest)

-- To fill the defaults in a second time changes nothing.
apply_defaults_again : (f : File) → apply_defaults (apply_defaults f) ≡ apply_defaults f
unfolding apply_defaults
apply_defaults_again f = elim (Option-cases f.applications) [
  | inl e ↦ rw (e)
  | inr (apps, e) ↦ rw (e, map_again apps)
]

or_name-given : (n r : Str) → is_name n ≡ true → or_name n r ≢ []
or_name-given [] r h = ground arith
or_name-given (c ∷ cs) [] h = ground arith
or_name-given n (c ∷ cs) h = ground arith

default_app-NamesRelease : (app : Spec) → is_name app.name ≡ true → NamesRelease (default_app app)
unfolding default_app
default_app-NamesRelease app h c e = elim (Option-cases app.source.chart) [
  | inl k ↦ ground arith
  | inr (c0, k) ↦ ground (arith, or_name-given app.name c0.release h)
]

default_app-name : (app : Spec) → (default_app app).name ≡ app.name
unfolding default_app
default_app-name app = refl

default_app-AllNamesRelease :
    (apps : List Spec)
    → All Accepted (map default_app apps)
    → All NamesRelease (map default_app apps)
default_app-AllNamesRelease [] h = tt
default_app-AllNamesRelease (a ∷ rest) h = (
  default_app-NamesRelease a (subst (λ n. is_name n ≡ true) (default_app-name a) h.0.0),
  default_app-AllNamesRelease rest h.1,
)

abbrev nothing : File
nothing = record { api_version = []; applications = none }

Decoded-cases :
    {E A : Type 0} (d : Decoded E A)
    → ((a : A) × (d ≡ document a)) ⊎ ((d ≡ end_of_input) ⊎ ((e : E) × (d ≡ failed e)))
Decoded-cases (document a) = inl (a, refl)
Decoded-cases end_of_input = inr (inl refl)
Decoded-cases (failed e) = inr (inr (e, refl))

module _ (yaml : Yaml) (lower : ℕ → ℕ) where
  -- The file obeys the rules of the set, every chart source of it names a release, the defaults
  -- have nothing to add to it, and if it lists none, then so does its text.
  abbrev pub IsResolved : List ℕ → File → Type 0
  IsResolved bytes f =
      (validate lower f ≡ none)
      × (apply_defaults f ≡ f)
      × ((apps : List Spec) × (f.applications ≡ some apps) × All NamesRelease apps)
      × (f.applications ≡ some [] → declares_none yaml bytes ≡ true)

  validate-Accepted :
      (f : File)
      → validate lower f ≡ none
      → (apps : List Spec) → f.applications ≡ some apps
      → All Accepted apps
  validate-Accepted f h apps e =
      let (xs, k, m, _, _, _) = ((validate_iff lower f).0 h).1 in ground arith

  absurd : {A : Type 0} (xs : List Spec) → none ≡ some xs → A
  absurd xs e = ground arith

  defaults-IsResolved :
      (bytes : List ℕ) (f : File)
      → validate lower (apply_defaults f) ≡ none
      → (f.applications ≡ some [] → declares_none yaml bytes ≡ true)
      → IsResolved bytes (apply_defaults f)
  unfolding apply_defaults
  defaults-IsResolved bytes f h k = elim (Option-cases f.applications) [
    | inl g ↦
        let (xs, k1, _, _, _, _) = ((validate_iff lower (apply_defaults f)).0 h).1 in
        absurd xs (ground arith)
    | inr ([], g) ↦ (h, apply_defaults_again f, ([], ground arith, tt), λ _. k g)
    | inr (a ∷ rest, g) ↦ (
      h,
      apply_defaults_again f,
      (
        map default_app (a ∷ rest),
        ground arith,
        default_app-AllNamesRelease (a ∷ rest)
            (validate-Accepted (apply_defaults f) h (map default_app (a ∷ rest)) (ground arith)),
      ),
      ground arith,
    )
  ]

  finish-IsResolved :
      (bytes : List ℕ) (f0 f : File) → finish yaml lower bytes f0 ≡ ok f → IsResolved bytes f
  unfolding finish
  finish-IsResolved bytes f0 f h =
      let f1 =
        if is_none_written yaml f0.applications && not (declares_none yaml bytes)
        then record f0 { applications = none }
        else f0 in
      elim (Option-cases (validate lower (apply_defaults f1))) [
        | inr (e, k) ↦ ground arith
        | inl k ↦
            let same : apply_defaults f1 ≡ f = ground arith in
            subst (λ g. IsResolved bytes g) same (defaults-IsResolved bytes f1 k (ground arith))
      ]

  -- A file that parses obeys the rules of the set, every chart source of it names its release, the
  -- defaults have nothing to add to it, and it lists no application only if its text is one document
  -- whose list has no entry.
  pub parse-IsResolved :
      (bytes : List ℕ) (f : File) → parse yaml lower bytes ≡ ok f → IsResolved bytes f
  unfolding parse
  parse-IsResolved bytes f h = elim (Decoded-cases (yaml.decode_file bytes)) [
    | inl (f0, e) ↦ finish-IsResolved bytes f0 f (ground arith)
    | inr (inl e) ↦ finish-IsResolved bytes nothing f (ground arith)
    | inr (inr (x, e)) ↦ ground arith
  ]
