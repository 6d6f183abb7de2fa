-- ===== src/Backend/Collision.antt =====
-- backend/backend.go, rejectRecordedCollision: a release whose name shares records or scope with that
-- of a release recorded on the swarm.
pub mod Listed
pub mod Apart
use swarmcli_cd.Base.{
  ℕ, Bool, true, false, not, ◌&&◌, ◌||◌, Option, none, some, List, [], ◌∷◌, ◌++◌, map, Str, str,
  seq, has_prefix, is_empty, compare_str, ◌==◌, if◌then◌else◌, Outcome, ok, err,
}
use swarmcli_cd.Owner.{releases_collide, underscore}
use swarmcli_cd.Backend.{Named, Backend, label_at, release_record_prefix}
use swarmcli_cd.Backend.Records.{Platform, lower_case, is_release_record}

abbrev pub dot : Str
dot = str "."

-- `release[:i]` for each `i` at which the name has an underscore, in order.
unfoldable pub heads : Str → List Str
heads [] = []
heads (c ∷ cs) =
    let rest = map (λ h. c ∷ h) (heads cs) in if c == underscore then [] ∷ rest else rest

abbrev pub records_of : Str → Str
records_of release = release_record_prefix ++ (release ++ dot)

-- The filter: the name of a config has one of these prefixes.
abbrev pub record_prefixes : Str → List Str
record_prefixes release =
    records_of release
    ∷ ((release_record_prefix ++ (release ++ (underscore ∷ []))) ∷ map records_of (heads release))

pub data CollisionError : Type 0 where
  unlisted same_records extends_recorded : Str → CollisionError

-- `own, extends, shares`
pub record Scan : Type 0 where
  pub own : Bool
  pub extends : Str
  pub shares : Str

-- `if least == "" || other < least { least = other }`
abbrev pub least : Str → Str → Str
least so_far other = if is_empty so_far || not (compare_str so_far other) then other else so_far

module _ (pf : Platform) (b : Backend) (release : Str) where
  abbrev pub other_of : Named → Str
  other_of c = label_at pf.label_release c.labels

  -- One names the other followed by an underscore, as written.
  abbrev shares_case : Str → Bool
  shares_case other =
      has_prefix other (release ++ (underscore ∷ []))
      || has_prefix release (other ++ (underscore ∷ []))

  unfoldable pub scan_step : Scan → Named → Outcome CollisionError Scan
  scan_step st c =
      if not (is_release_record pf c.labels)
      then ok st
      else if seq (other_of c) release
      then ok (record st { own = true })
      else if seq (lower_case pf (other_of c)) (lower_case pf release)
      then err (same_records (other_of c))
      else if releases_collide pf.lower (other_of c) release
      then ok (record st {
        extends = least st.extends (other_of c);
        shares = if shares_case (other_of c) then least st.shares (other_of c) else st.shares;
      })
      else ok st

  unfoldable pub scan : Scan → List Named → Outcome CollisionError Scan
  scan st [] = ok st
  scan st (c ∷ cs) = elim (scan_step st c) [ ok st' ↦ scan st' cs | err e ↦ err e ]

  abbrev pub start : Scan
  start = record { own = false; extends = []; shares = [] }

  -- What the loop found: the release that a warning names, and the refusal.
  unfoldable pub collision_verdict :
      Outcome CollisionError Scan → Option Str × Option CollisionError
  collision_verdict (err e) = (none, some e)
  collision_verdict (ok st) = (
    if not (is_empty st.shares) && st.own then some st.shares else none,
    if not (is_empty st.extends) && not st.own && not b.self_release
        then some (extends_recorded st.extends)
        else none,
  )

  -- `config_list` is the daemon's answer to a filter by name prefixes.
  unfoldable pub reject_recorded_collision :
      (List Str → Outcome Str (List Named)) → Option Str × Option CollisionError
  reject_recorded_collision config_list = elim (config_list (record_prefixes release)) [
    | err e ↦ (none, some (unlisted e))
    | ok list ↦ collision_verdict (scan start list)
  ]
