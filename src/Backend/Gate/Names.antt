-- ===== src/Backend/Gate/Names.antt =====
-- Which names and labels are reserved, and which are a stack's own, after backend/backend.go.
use swarmcli_cd.Base.{
  ◌≡◌, ◌≢◌, ◌↔◌, ◌⊎◌, true, Option, none, some, [], ◌∷◌, ◌++◌, arith, Str, seq_iff, has_prefix_iff,
  starts_iff,
}
use swarmcli_cd.Owner.{underscore}
use swarmcli_cd.Backend.{
  Labels, Named, label_at, scoped_under, in_controllers_stack, release_record_prefix,
  reserved_label,
}
use swarmcli_cd.Backend.Records.{Platform, lower_case, named_like_a_record}
use swarmcli_cd.Backend.Gate.{Kind, is_ours, reject_reserved_external}

-- The name belongs to what a stack of this name scopes.
abbrev pub Scoped : Str → Str → Type 0
Scoped ns name = (ns ≢ []) × ((r : Str) × (name ≡ ns ++ (underscore ∷ r)))

abbrev pub InStack : Str → Str → Type 0
InStack ns name = (ns ≢ []) × ((name ≡ ns) ⊎ Scoped ns name)

pub scoped_under_iff : (ns name : Str) → (scoped_under ns name ≡ true) ↔ Scoped ns name
unfolding scoped_under
scoped_under_iff ns name = ground (arith, has_prefix_iff name ns underscore)

pub in_controllers_stack_iff :
    (ns name : Str) → (in_controllers_stack ns name ≡ true) ↔ InStack ns name
unfolding in_controllers_stack
in_controllers_stack_iff ns name = ground (arith, seq_iff name ns, scoped_under_iff ns name)

module _ (pf : Platform) where
  abbrev pub RecordLike : Str → Type 0
  RecordLike name = (r : Str) × (lower_case pf name ≡ release_record_prefix ++ r)

  pub named_like_iff : (name : Str) → (named_like_a_record pf name ≡ true) ↔ RecordLike name
  unfolding named_like_a_record
  named_like_iff name = starts_iff (lower_case pf name) release_record_prefix

  -- What no stack may declare, its own or external: a label of the engine's or this controller's, and
  -- a name among those of the release records.
  abbrev pub Unreserved : Named → Type 0
  Unreserved spec = (reserved_label spec.labels ≡ none) × (¬ (RecordLike spec.name))

  -- Nothing holds the name, or what does carries exactly this label.
  abbrev pub Ours : Str → Option Labels → Type 0
  Ours ns none = Unit
  Ours ns (some held) = label_at pf.label_namespace held ≡ ns

  pub is_ours_iff : (ns : Str) (held : Option Labels) → (is_ours pf ns held ≡ true) ↔ Ours ns held
  is_ours_iff ns none = ground arith
  is_ours_iff ns (some held) = seq_iff (label_at pf.label_namespace held) ns

  pub reject_reserved_external_iff :
      (k : Kind) (ext : Named) → (reject_reserved_external pf k ext ≡ none) ↔ Unreserved ext
  unfolding reject_reserved_external
  reject_reserved_external_iff k ext = ground (arith, named_like_iff ext.name)
