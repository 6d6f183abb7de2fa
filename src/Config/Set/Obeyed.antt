-- ===== src/Config/Set/Obeyed.antt =====
-- What the rules of config/config.go on a whole set accept.
use swarmcli_cd.Base.{
  ℕ, ◌≤◌, ◌≡◌, ◌↔◌, ◌⊎◌, inl, inr, true, none, some, List, [], ◌∷◌, arith, Str, str, seq_iff,
  elem_iff, length, All, In, Distinct, Option-cases, if◌then◌else◌,
}
use swarmcli_cd.Application.{Spec}
use swarmcli_cd.Owner.{to_lower}
use swarmcli_cd.Config.Check.Accepted.{Accepted, validate_application_iff}
use swarmcli_cd.Config.Set.{File, Claim, claim_of, claim_release, validate_apps, validate}

abbrev pub names : List Spec → List Str
names [] = []
names (a ∷ more) = a.name ∷ names more

-- The applications that declare to be the controller's own.
abbrev pub selves : List Spec → List Str
selves [] = []
selves (a ∷ more) = let rest = selves more in if a.self then a.name ∷ rest else rest

abbrev keys : List (Str × Claim) → List Str
keys [] = []
keys ((k, c) ∷ cs) = k ∷ keys cs

-- no item is among those seen before it
abbrev Apart : List Str → List Str → Type 0
Apart seen [] = Unit
Apart seen (x ∷ xs) = (¬ (In x seen)) × Apart (x ∷ seen) xs

Apart-iff : (seen xs : List Str) → Apart seen xs ↔ (All (λ x. ¬ (In x seen)) xs × Distinct xs)
Apart-iff seen [] = ground arith
Apart-iff seen (x ∷ xs) = ground (arith, Apart-iff (x ∷ seen) xs, All_apart xs)
  where
    All_apart :
        (ys : List Str)
        → All (λ y. ¬ (In y (x ∷ seen))) ys ↔ ((¬ (In x ys)) × All (λ y. ¬ (In y seen)) ys)
    All_apart [] = ground arith
    All_apart (y ∷ ys) = ground (arith, All_apart ys)

Apart-nil_iff : (xs : List Str) → Apart [] xs ↔ Distinct xs
Apart-nil_iff xs = ground (arith, Apart-iff [] xs, none_seen xs)
  where
    none_seen : (ys : List Str) → All (λ y. ¬ (In y [])) ys
    none_seen [] = tt
    none_seen (y ∷ ys) = ((λ i. i), none_seen ys)

claim_of_iff :
    (key : Str) (cs : List (Str × Claim)) → (claim_of key cs ≡ none) ↔ (¬ (In key (keys cs)))
unfolding claim_of
claim_of_iff key [] = ground arith
claim_of_iff key ((k, c) ∷ cs) = ground (arith, seq_iff key k, claim_of_iff key cs)

-- `selfApp` is empty or no application after it declares to be the controller's own, and so on
abbrev Alone : Str → List Spec → Type 0
Alone self_app [] = Unit
Alone self_app (a ∷ more) =
    (a.self ≡ true → self_app ≡ []) × Alone (if a.self then a.name else self_app) more

Alone-iff :
    (self_app : Str) (apps : List Spec)
    → All Accepted apps
    → Alone self_app apps ↔ (((self_app ≡ []) × (length (selves apps) ≤ 1)) ⊎ (selves apps ≡ []))
Alone-iff self_app [] h = ground arith
Alone-iff self_app (a ∷ more) h =
    let next = if a.self then a.name else self_app in
    ground (arith, h.0.0, Alone-iff a.name more h.1, Alone-iff self_app more h.1)

module _ (lower : ℕ → ℕ) where
  -- The releases that the set declares from here, in lower case.
  abbrev pub release_keys : List Spec → List Str
  release_keys [] = []
  release_keys (a ∷ more) = elim a.source.chart [
    | none ↦ release_keys more
    | some c ↦ to_lower lower c.release ∷ release_keys more
  ]

  validate_apps_iff :
      (seen : List Str) (claimed : List (Str × Claim)) (self_app : Str) (apps : List Spec)
      → (validate_apps lower seen claimed self_app apps ≡ none) ↔ (
          All Accepted apps
          × Apart seen (names apps)
          × Apart (keys claimed) (release_keys apps)
          × Alone self_app apps)
  unfolding validate_apps claim_release
  validate_apps_iff seen claimed self_app [] = ground arith
  validate_apps_iff seen claimed self_app (app ∷ rest) = elim (Option-cases app.source.chart) [
    | inl e ↦
        let next = if app.self then app.name else self_app in
        ground (
          arith,
          validate_application_iff app,
          elem_iff app.name seen,
          validate_apps_iff (app.name ∷ seen) claimed next rest,
        )
    | inr (c, e) ↦
        let next = if app.self then app.name else self_app in
        let key = to_lower lower c.release in
        let mine : Claim = record { app = app.name; release = c.release } in
        ground (
          arith,
          validate_application_iff app,
          elem_iff app.name seen,
          claim_of_iff key claimed,
          validate_apps_iff (app.name ∷ seen) ((key, mine) ∷ claimed) next rest,
        )
  ]

  -- A file is accepted exactly if it is of version v1, declares a list of applications, each of
  -- which is accepted on its own, no two of one name, no two whose releases differ at most in case,
  -- and at most one that declares to be the controller's own.
  pub validate_iff :
      (f : File)
      → (validate lower f ≡ none) ↔ (
          ((f.api_version ≡ []) ⊎ (f.api_version ≡ str "v1"))
          × ((apps : List Spec) × (f.applications ≡ some apps)
              × All Accepted apps
              × Distinct (names apps)
              × Distinct (release_keys apps)
              × (length (selves apps) ≤ 1)))
  unfolding validate
  validate_iff f = elim (Option-cases f.applications) [
    | inl e ↦ ground (arith, seq_iff f.api_version (str "v1"))
    | inr (apps, e) ↦ ground (
      arith,
      seq_iff f.api_version (str "v1"),
      validate_apps_iff [] [] [] apps,
      Apart-nil_iff (names apps),
      Apart-nil_iff (release_keys apps),
      Alone-iff [] apps,
    )
  ]
