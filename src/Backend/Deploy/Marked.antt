-- ===== src/Backend/Deploy/Marked.antt =====
-- The mark of what this controller created, on what DeployStack of backend/backend.go writes.
use swarmcli_cd.Base.{
  ◌≡◌, ◌⊎◌, ◌≤◌, All, ok, inl, inr, false, none, some, List, [], ◌∷◌, map, arith, Str, seq_iff, In,
  of_All, Option-cases, has_prefix, cut_prefix,
}
use swarmcli_cd.Application.{Allow}
use swarmcli_cd.Prune.Rule.{sort_names}
use swarmcli_cd.Prune.Claims.{In-sort_names}
use swarmcli_cd.Backend.{
  Labels, Named, Stack, Backend, find_label, reserved_label, first_reserved, reserved_label_prefix,
}
use swarmcli_cd.Backend.Records.{Platform}
use swarmcli_cd.Backend.Gate.{Daemon, reject_forbidden_resources}
use swarmcli_cd.Backend.Gate.Permitted.{reject_forbidden_resources_iff}
use swarmcli_cd.Backend.Gate.Declared.{DeclaredSecret, DeclaredConfig}
use swarmcli_cd.Backend.Deploy.{created_label}
use swarmcli_cd.Backend.Self.{Images}
use swarmcli_cd.Backend.Deploy.{
  Event, network_create, secret_create, secret_update, config_create, config_update, service_create,
  service_update, hold_self, out_of_band, Trace, Answers,
}
use swarmcli_cd.Backend.Deploy.Guarded.{Reads, manifest_guards, deploy_stack}
use swarmcli_cd.Backend.Deploy.Ordered.{rank}
use swarmcli_cd.Backend.Deploy.Relabelled.{AsDeclared, Stamped, Relabelled}
use swarmcli_cd.Backend.Deploy.Orderly.{Lawful, deploy_stack-Orderly}

abbrev keys : Labels → List Str
keys = map (λ kv. kv.0)

key_of_find_label : (key v : Str) (l : Labels) → find_label key l ≡ some v → In key (keys l)
unfolding find_label
key_of_find_label key v [] h = cc
key_of_find_label key v (kv ∷ rest) h =
    ground (arith, key_of_find_label key v rest, seq_iff kv.0 key)

first_reserved-none :
    (k : Str) (ks : List Str)
    → first_reserved ks ≡ none
    → In k ks
    → has_prefix k reserved_label_prefix ≡ false
first_reserved-none k [] h m = absurd m
first_reserved-none k (x ∷ ks) h (inl e) = ground arith
first_reserved-none k (x ∷ ks) h (inr m) = ground (arith, first_reserved-none k ks)

-- Labels that the guard lets through hold no mark.
unmarked : (l : Labels) → reserved_label l ≡ none → find_label created_label l ≡ none
unfolding reserved_label cut_prefix
unmarked l h = elim (Option-cases (find_label created_label l)) [
  | inl e ↦ e
  | inr (v, e) ↦
      let marked =
        first_reserved-none created_label (sort_names (keys l)) h
          ((In-sort_names created_label (keys l)).1 (key_of_find_label created_label v l e)) in
      cc marked
]

-- A secret or a config that a stack declares.
abbrev pub DeclaredBy : Stack → Named → Type 0
DeclaredBy stack spec = In spec stack.secrets ⊎ In spec stack.configs

declared-unmarked :
    (pf : Platform) (b : Backend) (d : Daemon) (stack : Stack) (spec : Named)
    → reject_forbidden_resources pf b d stack ≡ none
    → DeclaredBy stack spec
    → find_label created_label spec.labels ≡ none
declared-unmarked pf b d stack spec h (inl m) =
    let (mine, e, held) = (reject_forbidden_resources_iff pf b d stack).0 h in
    let own = of_All (DeclaredSecret pf b d mine stack.namespace) spec stack.secrets held.3 m in
    unmarked spec.labels own.0.0
declared-unmarked pf b d stack spec h (inr m) =
    let (mine, e, held) = (reject_forbidden_resources_iff pf b d stack).0 h in
    let own = of_All (DeclaredConfig pf b d mine stack.namespace) spec stack.configs held.4 m in
    unmarked spec.labels own.0.0

guarded-accepted :
    (pf : Platform) (im : Images) (b : Backend) (r : Reads) (w : Answers) (release resolve : Str)
    (stack : Stack)
    → manifest_guards pf im b r w release resolve stack ≡ none
    → reject_forbidden_resources pf b r.daemon stack ≡ none
unfolding manifest_guards
guarded-accepted pf im b r w release resolve stack h =
    elim (Option-cases (reject_forbidden_resources pf b r.daemon stack)) [
      | inl e ↦ e
      | inr (x, e) ↦ ground arith
    ]

module _ (w : Answers) (stack : Stack) where
  -- Written anew for a declared resource: with its content, and marked with the time.
  abbrev Created : List Named → Named → Type 0
  Created declared s =
      (spec : Named) × In spec declared
      × (s.name ≡ spec.name)
      × (s.content ≡ spec.content)
      × ((tr : Trace) × Stamped (w.time tr) spec.labels s.labels)

  -- The mark is as it was found, there or not, and every other label is the declared one.
  abbrev Updated : Labels → Named → Named → Type 0
  Updated held spec s =
      (s.name ≡ spec.name)
      × (find_label created_label s.labels ≡ find_label created_label held)
      × AsDeclared spec.labels s.labels

  abbrev pub Marks : Event → Type 0
  Marks (secret_create s) = Created stack.secrets s
  Marks (config_create s) = Created stack.configs s
  Marks (secret_update s) =
      (spec : Named) × In spec stack.secrets
      × ((tr : Trace) × (held : Labels) × (w.secret tr spec.name ≡ ok (some held))
          × Updated held spec s)
  Marks (config_update s) =
      (spec : Named) × In spec stack.configs
      × ((tr : Trace) × (cur : Named) × (w.config tr spec.name ≡ ok (some cur))
          × Updated cur.labels spec s)
  Marks (network_create nw) = Unit
  Marks (service_create n q) = Unit
  Marks (service_update n u) = Unit
  Marks (hold_self n) = Unit
  Marks (out_of_band n) = Unit

  Relabelled-Updated :
      (held : Labels) (spec s : Named)
      → find_label created_label spec.labels ≡ none
      → s.name ≡ spec.name
      → Relabelled spec.labels held s.labels
      → Updated held spec s
  Relabelled-Updated held spec s u q (c, d) = elim (Option-cases (find_label created_label held)) [
    | inl e ↦ (q, ground arith, d)
    | inr (v, e) ↦ (q, ground arith, d)
  ]

  Lawful-Marks :
      (pf : Platform) (im : Images) (b : Backend)
      → ((spec : Named) → DeclaredBy stack spec → find_label created_label spec.labels ≡ none)
      → (e : Event) → Lawful pf im b w stack e
      → Marks e
  Lawful-Marks pf im b u (secret_create s) l = l
  Lawful-Marks pf im b u (config_create s) l = l
  Lawful-Marks pf im b u (secret_update s) (spec, m, q, (tr, held, e, a, k)) =
      (spec, m, (tr, held, e, Relabelled-Updated held spec s (u spec (inl m)) q k))
  Lawful-Marks pf im b u (config_update s) (spec, m, q, (tr, cur, e, c, a, k)) =
      (spec, m, (tr, cur, e, Relabelled-Updated cur.labels spec s (u spec (inr m)) q k))
  Lawful-Marks pf im b u (network_create nw) l = tt
  Lawful-Marks pf im b u (service_create n q) l = tt
  Lawful-Marks pf im b u (service_update n q) l = tt
  Lawful-Marks pf im b u (hold_self n) l = tt
  Lawful-Marks pf im b u (out_of_band n) l = tt

  All-Marks :
      (L : Event → Type 0)
      → ((e : Event) → L e → Marks e)
      → (tr : Trace) → All (λ e. (rank e ≤ 3) × L e) tr
      → All Marks tr
  All-Marks L f [] h = tt
  All-Marks L f (e ∷ tr) h = (f e h.0.1, All-Marks L f tr h.1)

-- Whatever answers its calls, a deploy writes nothing, or of the stack that the manifest holds: each
-- secret and config that it creates is a declared one with its content, marked with the time; each
-- that it updates keeps the mark of creation exactly as it was found, there or not; and every other
-- label of what it creates or updates is the declared one.
pub deploy_stack-Marks :
    (pf : Platform) (im : Images) (b : Backend) (r : Reads) (w : Answers) (release resolve : Str)
    → ((deploy_stack pf im b r w release resolve []).1 ≡ [])
      ⊎ ((allow : Allow) × (stack : Stack) × (r.convert_unresolved allow ≡ ok stack)
          × All (Marks w stack) (deploy_stack pf im b r w release resolve []).1)
deploy_stack-Marks pf im b r w release resolve =
    elim (deploy_stack-Orderly pf im b r w release resolve) [
      | inl e ↦ inl e
      | inr (allow, stack, g, (o, h)) ↦ inr (
        allow,
        stack,
        g.2,
        All-Marks w stack (Lawful pf im b w stack)
            (Lawful-Marks w stack pf im b λ spec.
              declared-unmarked pf b r.daemon stack spec
                (guarded-accepted pf im b r w release resolve stack g.3))
            (deploy_stack pf im b r w release resolve []).1 h,
      )
    ]
