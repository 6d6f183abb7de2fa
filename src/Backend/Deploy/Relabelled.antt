-- ===== src/Backend/Deploy/Relabelled.antt =====
-- The labels that a created resource and an updated one get: backend/resource.go, stampCreated and
-- keepCreated.
use swarmcli_cd.Base.{
  ◌≡◌, ◌≢◌, ◌⊎◌, inl, inr, refl, Bool-cases, Option, none, some, [], ◌∷◌, arith, Str, seq, seq_iff,
  Option-cases,
}
use swarmcli_cd.Backend.{Labels, find_label}
use swarmcli_cd.Backend.Deploy.{set_label, keep_created, stamp_created, created_label}

find_label-set_label : (key v : Str) (l : Labels) → find_label key (set_label key v l) ≡ some v
unfolding find_label set_label
find_label-set_label key v [] = ground (arith, seq_iff key key)
find_label-set_label key v (kv ∷ rest) =
    ground (arith, find_label-set_label key v rest, seq_iff key key, seq_iff kv.0 key)

find_other-set_label :
    (key other v : Str) (l : Labels)
    → other ≢ key
    → find_label other (set_label key v l) ≡ find_label other l
unfolding find_label set_label
find_other-set_label key other v [] h = ground (arith, seq_iff key other)
find_other-set_label key other v (kv ∷ rest) h = ground (
  arith,
  find_other-set_label key other v rest,
  seq_iff kv.0 key,
  seq_iff key other,
  seq_iff kv.0 other,
)

-- Every label but the mark of creation is the declared one.
abbrev pub AsDeclared : Labels → Labels → Type 0
AsDeclared declared labels =
    (key : Str) → (key ≡ created_label) ⊎ (find_label key labels ≡ find_label key declared)

abbrev or_else : Option Str → Option Str → Option Str
or_else none fallback = fallback
or_else (some v) fallback = some v

-- Created at this time.
abbrev pub Stamped : Str → Labels → Labels → Type 0
Stamped now declared labels =
    (find_label created_label labels ≡ some now) × AsDeclared declared labels

-- Updated over what was held: its mark stays.
abbrev pub Relabelled : Labels → Labels → Labels → Type 0
Relabelled declared held labels =
    (find_label created_label labels
      ≡ or_else (find_label created_label held) (find_label created_label declared))
    × AsDeclared declared labels

set_label-AsDeclared :
    (v : Str) (declared : Labels) → AsDeclared declared (set_label created_label v declared)
set_label-AsDeclared v declared key = elim (Bool-cases (seq key created_label)) [
  | inl e ↦ inl ((seq_iff key created_label).0 e)
  | inr e ↦ inr (
      find_other-set_label created_label key v declared
        (λ q. ground (arith, seq_iff key created_label)))
]

pub stamp_created-Stamped :
    (now : Str) (declared : Labels) → Stamped now declared (stamp_created now declared)
unfolding stamp_created
stamp_created-Stamped now declared =
    (find_label-set_label created_label now declared, set_label-AsDeclared now declared)

pub keep_created-Relabelled :
    (declared held : Labels) → Relabelled declared held (keep_created declared held)
unfolding keep_created
keep_created-Relabelled declared held = elim (Option-cases (find_label created_label held)) [
  | inl e ↦ rw (e, keep_created) (refl, λ key. inr refl)
  | inr (v, e) ↦
      rw (e, keep_created)
        (find_label-set_label created_label v declared, set_label-AsDeclared v declared)
]
