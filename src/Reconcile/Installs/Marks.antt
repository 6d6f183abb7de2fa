-- ===== src/Reconcile/Installs/Marks.antt =====
-- What the marks of claimInstalls, in reconcile/reconcile.go, keep apart.
use swarmcli_cd.Base.{
  ℕ, ◌≡◌, ◌≢◌, ◌↔◌, ◌⊎◌, ap, true, ==_iff, inl, inr, refl, sym, subst, Bool, false, List, [], ◌∷◌,
  ◌++◌, arith, Str, keep, In, In-append, ok, Outcome-cases, Bool-cases, ◌==◌,
}
use swarmcli_cd.Owner.{releases_collide}
use swarmcli_cd.Reconcile.Installs.{
  Action, install, upgrade, unchanged, ReleasePlan, Installing, all_marks, clear_marks, is_install,
  collect_installs, claim_installs,
}

List-cases : {A : Type 0} (xs : List A) → (xs ≡ []) ⊎ ((y : A) × (ys : List A) × (xs ≡ y ∷ ys))
List-cases [] = inl refl
List-cases (y ∷ ys) = inr (y, ys, refl)

absurd : {A : Type 0} → ⊥ → A
absurd b = elim b [ ]

-- The plan installs a release of this name.
abbrev pub Installs : List ReleasePlan → Str → Type 0
Installs plan n = (r : ReleasePlan) × In r plan × (r.action ≡ install) × (n ≡ r.name)

-- The name is marked as one that the entry installs.
abbrev pub Marked : ℕ → Str → Installing → Type 0
Marked k n marks = (names : List Str) × In (k, names) marks × In n names

Installs-cons :
    (r : ReleasePlan) (rs : List ReleasePlan) (n : Str)
    → Installs (r ∷ rs) n ↔ (((r.action ≡ install) × (n ≡ r.name)) ⊎ Installs rs n)
Installs-cons r rs n = (there, back)
  where
    there : Installs (r ∷ rs) n → ((r.action ≡ install) × (n ≡ r.name)) ⊎ Installs rs n
    there (x, inl e, i, q) = inl (subst (λ y. (y.action ≡ install) × (n ≡ y.name)) e (i, q))
    there (x, inr m, i, q) = inr (x, m, i, q)

    back : ((r.action ≡ install) × (n ≡ r.name)) ⊎ Installs rs n → Installs (r ∷ rs) n
    back (inl (i, q)) = (r, inl refl, i, q)
    back (inr (x, m, i, q)) = (x, inr m, i, q)

Marked-cons :
    (e k : ℕ) (n : Str) (names : List Str) (rest : Installing)
    → Marked k n ((e, names) ∷ rest) ↔ (((k ≡ e) × In n names) ⊎ Marked k n rest)
Marked-cons e k n names rest = (there, back)
  where
    there : Marked k n ((e, names) ∷ rest) → ((k ≡ e) × In n names) ⊎ Marked k n rest
    there (ns, inl q, i) = inl (ap (λ p. p.0) q, subst (λ p. In n p.1) q i)
    there (ns, inr m, i) = inr (ns, m, i)

    back : ((k ≡ e) × In n names) ⊎ Marked k n rest → Marked k n ((e, names) ∷ rest)
    back (inl (q, i)) = (names, inl (ap (λ j. (j, names)) q), i)
    back (inr (ns, m, i)) = (ns, inr m, i)

Marked-clear :
    (e k : ℕ) (n : Str) (marks : Installing)
    → Marked k n (clear_marks e marks) ↔ ((k ≢ e) × Marked k n marks)
unfolding clear_marks
Marked-clear e k n [] = ((λ (ns, b, i). absurd b), λ (d, (ns, b, i)). absurd b)
Marked-clear e k n ((j, ns) ∷ rest) = elim (Bool-cases (j == e)) [
  | inl d ↦ rw d (ground (arith, Marked-clear e k n rest, Marked-cons j k n ns rest, ==_iff j e))
  | inr d ↦ rw d (
      ground (
        arith,
        Marked-clear e k n rest,
        Marked-cons j k n ns rest,
        Marked-cons j k n ns (clear_marks e rest),
        ==_iff j e,
      ))
]

is_install_iff : (a : Action) → (is_install a ≡ true) ↔ (a ≡ install)
is_install_iff install = ground arith
is_install_iff upgrade = ground arith
is_install_iff unchanged = ground arith

module _ (lower : ℕ → ℕ) where
  -- No release that one entry installs collides with one that another entry installs.
  abbrev pub KeptApart : List Str → List Str → Type 0
  KeptApart xs ys = (x y : Str) → In x xs → In y ys → releases_collide lower x y ≡ false

  abbrev pub AllApart : Installing → Type 0
  AllApart [] = Unit
  AllApart ((e, names) ∷ rest) = KeptApart names (all_marks rest) × AllApart rest

  none_kept : (p : Str → Bool) (xs : List Str) → keep p xs ≡ [] → (x : Str) → In x xs → p x ≡ false
  none_kept p [] h x i = ground arith
  none_kept p (y ∷ ys) h x i = elim (Bool-cases (p y)) [
    | inl k ↦ ground arith
    | inr k ↦ elim i [
      | inl e ↦ subst (λ z. p z ≡ false) (sym e) k
      | inr j ↦ none_kept p ys (ground arith) x j
    ]
  ]

  all_marks-clear :
      (e : ℕ) (x : Str) (marks : Installing)
      → In x (all_marks (clear_marks e marks))
      → In x (all_marks marks)
  unfolding all_marks clear_marks
  all_marks-clear e x [] i = i
  all_marks-clear e x ((k, ns) ∷ rest) i = ground (
    arith,
    In-append x ns (all_marks rest),
    In-append x ns (all_marks (clear_marks e rest)),
    all_marks-clear e x rest,
  )

  clear_marks-AllApart :
      (e : ℕ) (marks : Installing) → AllApart marks → AllApart (clear_marks e marks)
  unfolding clear_marks
  clear_marks-AllApart e [] h = h
  clear_marks-AllApart e ((k, ns) ∷ rest) h = elim (Bool-cases (k == e)) [
    | inl d ↦ rw (d) (clear_marks-AllApart e rest h.1)
    | inr d ↦
        rw (d) (λ x y i j. h.0 x y i (all_marks-clear e y rest j), clear_marks-AllApart e rest h.1)
  ]

  collect_installs-KeptApart :
      (marks : Installing) (plan : List ReleasePlan) (mine out : List Str)
      → KeptApart mine (all_marks marks)
      → collect_installs lower marks plan mine ≡ ok out
      → KeptApart out (all_marks marks)
  unfolding collect_installs
  collect_installs-KeptApart marks [] mine out h k =
      let same : mine ≡ out = ground arith in subst (λ xs. KeptApart xs (all_marks marks)) same h
  collect_installs-KeptApart marks (r ∷ rs) mine out h k =
      let again = collect_installs-KeptApart marks rs in
      let p = releases_collide lower r.name in
      elim (Bool-cases (is_install r.action)) [
        | inr d ↦ again mine out h (ground arith)
        | inl d ↦ elim (List-cases (keep p (all_marks marks))) [
          | inr (x, xs, c) ↦ ground arith
          | inl c ↦
              again (mine ++ (r.name ∷ [])) out
                (λ x y i j. elim ((In-append x mine (r.name ∷ [])).0 i) [
                  | inl m ↦ h x y m j
                  | inr (inl e) ↦
                      subst (λ z. releases_collide lower z y ≡ false) (sym e)
                        (none_kept p (all_marks marks) c y j)
                  | inr (inr b) ↦ absurd b
                ])
                (ground arith)
        ]
      ]

  collect_installs-exact :
      (marks : Installing) (plan : List ReleasePlan) (mine out : List Str) (n : Str)
      → collect_installs lower marks plan mine ≡ ok out
      → In n out ↔ (In n mine ⊎ Installs plan n)
  unfolding collect_installs
  collect_installs-exact marks [] mine out n k =
      let same : mine ≡ out = ground arith in
      subst (λ xs. In n xs ↔ (In n mine ⊎ Installs [] n)) same
        ((λ i. inl i), λ h. elim h [ inl i ↦ i | inr (r, b, i, q) ↦ absurd b ])
  collect_installs-exact marks (r ∷ rs) mine out n k =
      let p = releases_collide lower r.name in
      elim (Bool-cases (is_install r.action)) [
        | inr d ↦
            other (collect_installs-exact marks rs mine out n (ground arith)) (Installs-cons r rs n)
              d
        | inl d ↦ elim (List-cases (keep p (all_marks marks))) [
          | inr (x, xs, c) ↦ ground arith
          | inl c ↦
              more (collect_installs-exact marks rs (mine ++ (r.name ∷ [])) out n (ground arith))
                (In-append n mine (r.name ∷ [])) (Installs-cons r rs n) d
        ]
      ]
    where
      other :
          {a b c e : Type 0}
          → a ↔ (b ⊎ c)
          → e ↔ (((r.action ≡ install) × (n ≡ r.name)) ⊎ c)
          → is_install r.action ≡ false
          → a ↔ (b ⊎ e)
      other h i d = ground (arith, is_install_iff r.action)

      more :
          {a b c e f : Type 0}
          → a ↔ (b ⊎ c)
          → b ↔ (f ⊎ ((n ≡ r.name) ⊎ ⊥))
          → e ↔ (((r.action ≡ install) × (n ≡ r.name)) ⊎ c)
          → is_install r.action ≡ true
          → a ↔ (f ⊎ e)
      more h g i d = ground (arith, is_install_iff r.action)

  Marked-after :
      (e k : ℕ) (n : Str) (plan : List ReleasePlan) (marks : Installing) (mine : List Str)
      → (In n mine ↔ Installs plan n)
      → Marked k n ((e, mine) ∷ clear_marks e marks)
        ↔ (((k ≡ e) × Installs plan n) ⊎ ((k ≢ e) × Marked k n marks))
  Marked-after e k n plan marks mine h =
      ground (arith, h, Marked-cons e k n mine (clear_marks e marks), Marked-clear e k n marks)

  -- A claim that is granted marks the entry with exactly the installs of its plan, in the place of
  -- what was marked of it before, and leaves the marks of every other entry as they are; and if the
  -- installs that were marked of different entries kept apart, then so do those marked after it.
  pub claim_installs-AllApart :
      (e : ℕ) (plan : List ReleasePlan) (marks out : Installing)
      → AllApart marks
      → claim_installs lower e plan marks ≡ ok out
      → AllApart out
        × ((k : ℕ) (n : Str)
            → Marked k n out ↔ (((k ≡ e) × Installs plan n) ⊎ ((k ≢ e) × Marked k n marks)))
  unfolding claim_installs
  claim_installs-AllApart e plan marks out h k =
      elim (Outcome-cases (collect_installs lower marks plan [])) [
        | inr (x, d) ↦ ground arith
        | inl (mine, d) ↦
            let same : (e, mine) ∷ clear_marks e marks ≡ out = ground arith in
            let apart = collect_installs-KeptApart marks plan [] mine (λ x y i j. ground arith) d in
            (
              subst AllApart same (
                λ x y i j. apart x y i (all_marks-clear e y marks j),
                clear_marks-AllApart e marks h,
              ),
              λ j n.
                  subst
                    (λ o.
                      Marked j n o ↔ (((j ≡ e) × Installs plan n) ⊎ ((j ≢ e) × Marked j n marks)))
                    same
                    (Marked-after e j n plan marks mine
                      (from_nothing (collect_installs-exact marks plan [] mine n d))),
            )
      ]
    where
      from_nothing : {a b : Type 0} → a ↔ (⊥ ⊎ b) → a ↔ b
      from_nothing i = ground arith
