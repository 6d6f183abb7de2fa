-- ===== src/Config/Set.antt =====
-- config/config.go: the defaults of an applications file, the rules on the set as a whole, and
-- Parse, which puts them behind the decoder.
pub mod Obeyed
pub mod Resolved
use swarmcli_cd.Base.{
  ℕ, Bool, true, false, not, ◌&&◌, Option, none, some, List, [], ◌∷◌, map, Str, str, seq, elem,
  is_empty, Outcome, ok, err, if◌then◌else◌, ◌==◌,
}
use swarmcli_cd.Application.{
  ChartSource, Source, Spec, DriftDetection, drift_unknown, drift_manifest, drift_live,
}
use swarmcli_cd.Owner.{to_lower}
use swarmcli_cd.Config.Check.{AppError, validate_application}

-- `File`; its path only prefixes the messages. `none` is the nil slice.
pub record File : Type 0 where
  pub api_version : Str
  pub applications : Option (List Spec)

pub record Claim : Type 0 where
  pub app : Str
  pub release : Str

pub data FileError : Type 0 where
  unsupported_api : Str → FileError
  none_declared : FileError
  bad_application : AppError → FileError
  duplicate_name : Str → FileError
  two_selves : Str → Str → FileError
  same_release differ_in_case : Claim → Claim → FileError

-- `applyDefaults`, on one application.
abbrev pub default_drift : Bool → DriftDetection → DriftDetection
default_drift self drift_unknown = if self then drift_live else drift_manifest
default_drift self d = d

abbrev pub or_name : Str → Str → Str
or_name name [] = name
or_name name (c ∷ cs) = c ∷ cs

abbrev pub default_release : Str → Option ChartSource → Option ChartSource
default_release name none = none
default_release name (some c) = some (record c { release = or_name name c.release })

unfoldable pub default_app : Spec → Spec
default_app app = record app {
  drift_detection = default_drift app.self app.drift_detection;
  source = record app.source { chart = default_release app.name app.source.chart };
}

abbrev pub on_some {ℓ} : {A : Type ℓ} → (A → A) → Option A → Option A
on_some f none = none
on_some f (some a) = some (f a)

unfoldable pub apply_defaults : File → File
apply_defaults f = record f { applications = on_some (map default_app) f.applications }

-- `claimed[key]`
unfoldable pub claim_of : Str → List (Str × Claim) → Option Claim
claim_of key [] = none
claim_of key ((k, c) ∷ cs) = let rest = claim_of key cs in if seq key k then some c else rest

module _ (lower : ℕ → ℕ) where
  -- What an application adds to the claimed releases, or the claim that it runs into.
  unfoldable pub claim_release : List (Str × Claim) → Spec → Outcome FileError (List (Str × Claim))
  claim_release claimed app = elim app.source.chart [
    | none ↦ ok claimed
    | some c ↦
        let mine : Claim = record { app = app.name; release = c.release } in
        let key = to_lower lower c.release in
        elim (claim_of key claimed) [
          | none ↦ ok ((key, mine) ∷ claimed)
          | some other ↦
              if not (seq other.release c.release)
              then err (differ_in_case other mine)
              else err (same_release other mine)
        ]
  ]

  -- The loop of `validate`, with its variables `seen`, `claimed` and `selfApp`.
  unfoldable pub validate_apps : List Str → List (Str × Claim) → Str → List Spec → Option FileError
  validate_apps seen claimed self_app [] = none
  validate_apps seen claimed self_app (app ∷ rest) = elim (validate_application app) [
    | some e ↦ some (bad_application e)
    | none ↦
        if elem app.name seen
        then some (duplicate_name app.name)
        else if app.self && not (is_empty self_app)
        then some (two_selves self_app app.name)
        else elim (claim_release claimed app) [
          | err e ↦ some e
          | ok claimed1 ↦
              validate_apps (app.name ∷ seen) claimed1 (if app.self then app.name else self_app)
                rest
        ]
  ]

  unfoldable pub validate : File → Option FileError
  validate f =
      if not (is_empty f.api_version) && not (seq f.api_version (str "v1"))
      then some (unsupported_api f.api_version)
      else elim f.applications [
        | none ↦ some none_declared
        | some apps ↦ validate_apps [] [] [] apps
      ]

-- What `yaml.v3`'s decoder answers: a document, `io.EOF`, or an error.
pub data Decoded (E A : Type 0) : Type 0 where
  document : A → Decoded E A
  end_of_input : Decoded E A
  failed : E → Decoded E A

-- The decoder, which is a library of its own, on a file's bytes: into a `File` with its unknown keys
-- refused, into the number of entries of the node `applications`, and on what follows a document.
pub record Yaml : Type 1 where
  pub Error : Type 0
  pub decode_file : List ℕ → Decoded Error File
  pub decode_entries : List ℕ → Decoded Error ℕ
  pub decode_next : List ℕ → Decoded Error Unit

module _ (yaml : Yaml) where
  pub data ParseError : Type 0 where
    undecodable : yaml.Error → ParseError
    invalid : FileError → ParseError

  abbrev pub is_end : {A : Type 0} → Decoded yaml.Error A → Bool
  is_end end_of_input = true
  is_end _ = false

  unfoldable pub declares_none : List ℕ → Bool
  declares_none bytes = elim (yaml.decode_entries bytes) [
    | document n ↦ if n == 0 then is_end (yaml.decode_next bytes) else false
    | _ ↦ false
  ]

  abbrev pub is_none_written : Option (List Spec) → Bool
  is_none_written (some []) = true
  is_none_written _ = false

  -- `Parse`, past the decoder.
  unfoldable pub finish : (ℕ → ℕ) → List ℕ → File → Outcome ParseError File
  finish lower bytes f0 =
      let f1 =
        if is_none_written f0.applications && not (declares_none bytes)
        then record f0 { applications = none }
        else f0 in
      let f = apply_defaults f1 in
      elim (validate lower f) [ some e ↦ err (invalid e) | none ↦ ok f ]

  unfoldable pub parse : (ℕ → ℕ) → List ℕ → Outcome ParseError File
  parse lower bytes = elim (yaml.decode_file bytes) [
    | failed e ↦ err (undecodable e)
    | end_of_input ↦ finish lower bytes (record { api_version = []; applications = none })
    | document f ↦ finish lower bytes f
  ]
