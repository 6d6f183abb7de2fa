-- ===== src/Tests/Dooms.antt =====
-- Concrete runs of the sweep over one release: reconcile/reconcile.go.
use swarmcli_cd.Base.{
  ℕ, zero, suc, ◌≤◌, inl, inr, refl, sym, ap, subst, Bool, cut_prefix, has_rune, ◌≡◌, ◌↔◌, ◌⊎◌,
  true, false, Option, none, some, List, [], ◌∷◌, Str, str, In, All, Outcome, ok, if◌then◌else◌,
  seq, elem,
}
use swarmcli_cd.Owner.{app_from_owner_id}
use swarmcli_cd.Prune.Rule.{OwnerRef, undeclared, claim, sort_names, owner}
use swarmcli_cd.Backend.{Stack}
use swarmcli_cd.Reconcile.Doomed.{
  ResourceNames, Revision, claimed, claim_all, claim_names, sort_resources, newest_first,
  declared_names, is_no_names,
}
use swarmcli_cd.Reconcile.Doomed.Claimed.{secret, of_kind, Proved, claimed_exact}
use swarmcli_cd.Reconcile.Doomed.Departed.{
  ReleaseView, DepartedResource, DoomedSet, departed, departed_release, departed_loop, candidates,
  doomed_set, add_doomed, add_all_doomed, count_of, prune_key, id_of, running_of, in_use, unused,
  mounted_volumes,
}
use swarmcli_cd.Reconcile.Doomed.Spared.{Spares, departed-Spares}
use swarmcli_cd.Reconcile.Pruned.{
  Member, Removals, prune_resources, prune_resource_sets, remove_resources, bump, drop_count,
  set_of, declared_elsewhere,
}
use swarmcli_cd.Reconcile.Pruned.Allowed.{May, pass_removals, pass_removals-May}
use swarmcli_cd.Reconcile.Pruned.Tried.{
  Alone, AllAlone, Round, swept, after, AllHeld, TriedIn, tried_at_most_three,
}
use swarmcli_cd.Reconcile.Doomed.Remembered.{Holds}
use swarmcli_cd.Tests.Gates.{web_stack}

abbrev read_owner : Str → Option OwnerRef
read_owner s = some (record { kind = str "release"; name = str "web"; id = s })

abbrev first_revision : Revision
first_revision = record {
  release = record { name = str "web"; owner = str "cd/default/shop" };
  manifest = [];
}

abbrev stored : Revision → Outcome Str Stack
stored rev = ok web_stack

abbrev kept : List Revision
kept = first_revision ∷ []

abbrev running_names : ResourceNames
running_names = record {
  services = [];
  networks = [];
  configs = [];
  secrets = str "web_pw" ∷ (str "web_other" ∷ []);
}

claimed_exact_example :
    In (str "web_pw") (
      of_kind secret (
        claimed read_owner
          (str "release")
          (str "default")
          (str "shop")
          stored
          (ok kept)
          running_names))
    ↔ (In (str "web_pw") (of_kind secret running_names)
        × Proved read_owner
            (str "release")
            (str "default")
            (str "shop")
            stored
            secret
            (str "web_pw")
            kept)
claimed_exact_example =
    claimed_exact read_owner (str "release") (str "default") (str "shop") stored secret
      (str "web_pw") kept running_names

-- The release declares nothing any more, and its secret is still there.
abbrev leftover : ReleaseView
leftover = record {
  declared = none;
  live = [];
  networks = [];
  configs = [];
  secrets = (str "web_pw", str "i1") ∷ [];
  failed = false;
  resources_failed = false;
}

abbrev views : Str → Option ReleaseView
views release = if seq release (str "web") then some leftover else none

departed-Spares_example :
    Spares read_owner
      (str "release")
      (str "default")
      (str "shop")
      stored
      (λ r. ok kept)
      []
      views
      (departed read_owner
        (str "release")
        (str "default")
        (str "shop")
        stored
        (λ r. ok kept)
        []
        views
        (str "web" ∷ [])).0
departed-Spares_example =
    departed-Spares read_owner (str "release") (str "default") (str "shop") stored (λ r. ok kept) []
      views (str "web" ∷ [])

abbrev old_secret : DepartedResource
old_secret = record { kind = secret; name = str "web_pw"; id = str "i1" }

abbrev doomed_web : List (Str × DoomedSet)
doomed_web = (str "web", record { services = []; resources = old_secret ∷ []; retained = [] }) ∷ []

abbrev others : List Member
others = record { name = str "blog"; chart_release = some (str "press"); reported = [] } ∷ []

pass_removals-May_example :
    All
      (May (str "shop") others doomed_web)
      (pass_removals (str "shop") others doomed_web (λ tr. false) true true [])
    × ((true ≡ true)
        ⊎ (pass_removals (str "shop") others doomed_web (λ tr. false) true true [] ≡ []))
pass_removals-May_example =
    pass_removals-May (str "shop") others doomed_web (λ tr. false) true true []

abbrev refused : Removals → Bool
refused tr = true

abbrev Sets : Type 0
Sets = List (Str × DoomedSet)

-- What `AllHeld` asks of the sets of one pass.
abbrev HeldBy : Sets → Type 0
HeldBy sets =
    ((set : DoomedSet) × In (str "web", set) sets × Holds set old_secret)
    × AllAlone (str "web") old_secret refused (λ tr. refl) sets

tried-HeldBy : HeldBy doomed_web
tried-HeldBy = (
  (record { services = []; resources = old_secret ∷ []; retained = [] }, inl refl, inl (inl refl)),
  λ r set y i j. elim i [
    | inl q ↦
        only r y (ap (λ (p : Str × DoomedSet). p.0) q)
          (subst (λ (p : Str × DoomedSet). In y p.1.resources) q j)
    | inr b ↦ absurd b
  ],
)
  where
    only :
        (r : Str) (y : DepartedResource)
        → r ≡ str "web"
        → In y (old_secret ∷ [])
        → Alone (str "web") old_secret refused (λ tr. refl) r y
    only r y e (inl q) = rw (e, q) ((λ k. (refl, refl)), λ k. refl)
    only r y e (inr b) = absurd b

abbrev reported_web : Sets
reported_web =
    (str "web", record { services = []; resources = []; retained = old_secret ∷ [] }) ∷ []

reported-HeldBy : HeldBy reported_web
reported-HeldBy = (
  (record { services = []; resources = []; retained = old_secret ∷ [] }, inl refl, inr (inl refl)),
  λ r set y i j. elim i [
    | inl q ↦ absurd (subst (λ (p : Str × DoomedSet). In y p.1.resources) q j)
    | inr b ↦ absurd b
  ],
)

abbrev one_pass :
    Round
      (str "web")
      old_secret
      refused
      (λ tr. refl)
      read_owner
      (str "release")
      (str "default")
      (str "shop")
      stored
one_pass = record {
  policy = true;
  can_remove = true;
  members = others;
  releases = str "web" ∷ [];
  views = views;
  history = λ r. ok kept;
}

abbrev passes :
    ℕ
    → List (
        Round
          (str "web")
          old_secret
          refused
          (λ tr. refl)
          read_owner
          (str "release")
          (str "default")
          (str "shop")
          stored)
passes zero = []
passes (suc n) = one_pass ∷ passes n

abbrev found : ℕ → Sets
found n =
    (swept (str "web") old_secret refused (λ tr. refl) read_owner (str "release") (str "default")
      (str "shop") stored
      (after (str "web") old_secret refused (λ tr. refl) read_owner (str "release") (str "default")
        (str "shop") stored (passes n))
      one_pass).0

found_three :
    (found 0 ≡ doomed_web)
    × (found 1 ≡ doomed_web)
    × (found 2 ≡ doomed_web)
    × (found 3 ≡ reported_web)
unfolding after departed departed_release departed_loop claimed claim_all claim_names sort_resources
    newest_first declared_names is_no_names candidates doomed_set add_doomed add_all_doomed count_of
    prune_key id_of running_of in_use unused mounted_volumes undeclared claim sort_names owner
    prune_resources prune_resource_sets remove_resources bump drop_count set_of declared_elsewhere
    seq elem app_from_owner_id cut_prefix has_rune
found_three = (refl, refl, refl, refl)

four_held :
    AllHeld
      (str "web")
      old_secret
      refused
      (λ tr. refl)
      read_owner
      (str "release")
      (str "default")
      (str "shop")
      stored
      (passes 4)
four_held =
    let (a, b, c, d) = found_three in
    let h0 = subst HeldBy (sym a) tried-HeldBy in
    let h1 = subst HeldBy (sym b) tried-HeldBy in
    let h2 = subst HeldBy (sym c) tried-HeldBy in
    let h3 = subst HeldBy (sym d) reported-HeldBy in
    (h3.0, h3.1, (h2.0, h2.1, (h1.0, h1.1, (h0.0, h0.1, tt))))

four_tried :
    TriedIn
      (str "web")
      old_secret
      refused
      (λ tr. refl)
      read_owner
      (str "release")
      (str "default")
      (str "shop")
      stored
      (passes 4)
      3
unfolding after departed departed_release departed_loop claimed claim_all claim_names sort_resources
    newest_first declared_names is_no_names candidates doomed_set add_doomed add_all_doomed count_of
    prune_key id_of running_of in_use unused mounted_volumes undeclared claim sort_names owner
    prune_resources prune_resource_sets remove_resources bump drop_count set_of declared_elsewhere
    seq elem app_from_owner_id cut_prefix has_rune
four_tried = inr (
  (λ i. i),
  inl (inl refl, (2, refl, inl (inl refl, (1, refl, inl (inl refl, (0, refl, refl)))))),
)

tried_at_most_three_example : 3 ≤ 3
tried_at_most_three_example =
    tried_at_most_three (str "web") old_secret refused (λ tr. refl) read_owner (str "release")
      (str "default") (str "shop") stored (passes 4) 3 four_held four_tried
