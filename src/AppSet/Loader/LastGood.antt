-- ===== src/AppSet/Loader/LastGood.antt =====
-- What a load leaves in place: appset/appset.go, Load and readContained.
use swarmcli_cd.Base.{
  ℕ, zero, suc, ◌≡◌, ◌≤◌, ◌↔◌, inl, inr, refl, sym, ap, ◌∙◌, Bool, true, false, ◌&&◌, Option, some,
  List, [], ◌∷◌, Str, seq, seq_iff, length, Outcome, ok, err, Outcome-cases, Bool-cases, arith,
}
use swarmcli_cd.Config.Set.{File, Yaml, ParseError, parse}
use swarmcli_cd.AppSet.Loader.{
  max_app_set_size, take, too_large, Document, Files, Reader, read_contained, read, Loader,
  LoadError, unparsable, load_document, load,
}

ok-injective : {E A : Type 0} {a b : A} {o : Outcome E A} → o ≡ ok a → o ≡ ok b → a ≡ b
ok-injective h k = ground arith

err-injective : {E A : Type 0} {a b : E} {o : Outcome E A} → o ≡ err a → o ≡ err b → a ≡ b
err-injective h k = ground arith

absurd_outcome : {E A B : Type 0} {e : E} {a : A} → err e ≡ ok a → B
absurd_outcome h = ground arith

take-all : (n : ℕ) (xs : List ℕ) → length xs ≤ n → take n xs ≡ xs
unfolding take
take-all zero [] k = refl
take-all zero (x ∷ xs) k = ground arith
take-all (suc n) [] k = refl
take-all (suc n) (x ∷ xs) k = ap (λ ys. x ∷ ys) (take-all n xs (omega arith))

-- One item past a bound is enough to see that there are more.
length-take : (n : ℕ) (xs : List ℕ) → (length (take (suc n) xs) ≤ n) ↔ (length xs ≤ n)
unfolding take
length-take n [] = ground arith
length-take zero (x ∷ xs) = ground arith
length-take (suc n) (x ∷ xs) = ground (arith, length-take n xs)

-- The whole file is read if it can be and is not larger than the limit; one that is larger is
-- refused, never cut off.
pub read_contained_exact :
    (files : Files) (root path : Str) (contents : List ℕ)
    → files.file root path ≡ ok contents
    → (length contents ≤ max_app_set_size → read_contained files root path ≡ ok contents)
      × (¬ (length contents ≤ max_app_set_size) → read_contained files root path ≡ err too_large)
unfolding read_contained
read_contained_exact files root path contents h =
    let all = take-all (suc max_app_set_size) contents in
    let seen = length-take max_app_set_size contents in
    (
      λ k.
          let whole : take (suc max_app_set_size) contents ≡ contents = all (omega arith) in
          ground (arith, h, whole, seen),
      λ k. ground (arith, h, seen),
    )

module _ (yaml : Yaml) (lower : ℕ → ℕ) (sha256 : List ℕ → List ℕ) (files : Files) where
  -- What is current was parsed from a document of the digest that is kept.
  abbrev pub IsGood : Loader → Type 0
  IsGood l =
      l.loaded ≡ true
      → (bytes : List ℕ) × (f : File) × (l.digest ≡ sha256 bytes)
        × (parse yaml lower bytes ≡ ok f)
        × (l.current ≡ some f)

  -- What a load of a document that was read is to return and to leave.
  abbrev pub Loads :
      List ℕ
      → Loader
      → Outcome (LoadError yaml lower sha256 files) (Option File × Bool) × Loader
      → Type 0
  Loads bytes l r =
      IsGood r.1
      × ((f : File)
          → parse yaml lower bytes ≡ ok f
          → ((changed : Bool) × (r.0 ≡ ok (some f, changed))) × (r.1.current ≡ some f))
      × ((e : ParseError yaml)
          → parse yaml lower bytes ≡ err e
          → (r.0 ≡ err (unparsable e)) × (r.1 ≡ l))

  load_document-Loads :
      ((a b : List ℕ) → sha256 a ≡ sha256 b → a ≡ b)
      → (doc : Document) (now : ℕ) (l : Loader) → IsGood l
      → Loads doc.bytes l (load_document yaml lower sha256 files doc now l)
  unfolding load_document
  load_document-Loads collision doc now l good =
      elim (Bool-cases (l.loaded && seq (sha256 doc.bytes) l.digest)) [
        | inl same ↦
            let (bytes, f, d, p, c) = good (ground arith) in
            let equal : doc.bytes ≡ bytes =
              collision doc.bytes bytes (ground (arith, seq_iff (sha256 doc.bytes) l.digest)) in
            let parsed : parse yaml lower doc.bytes ≡ ok f = ap (parse yaml lower) equal ∙ p in
            let now_good : (g : File) → parse yaml lower doc.bytes ≡ ok g → l.current ≡ some g =
              λ g e. c ∙ ap some (ok-injective parsed e) in
            rw (same) (
              good,
              λ g e. ((false, ap (λ o. ok (o, false)) (now_good g e)), now_good g e),
              λ x e. ground arith,
            )
        | inr differs ↦ elim (Outcome-cases (parse yaml lower doc.bytes)) [
          | inl (f, e) ↦
              rw (differs, e)
                (
                  (λ _. (doc.bytes, f, refl, e, refl)),
                  (λ g k. (
                    (true, ap (λ h. ok (some h, true)) (ok-injective refl k)),
                    ap some (ok-injective refl k),
                  )),
                  λ x k. ground arith,
                )
          | inr (x, e) ↦
              rw (differs, e)
                (
                  good,
                  (λ g k. ground arith),
                  λ y k. (ap (λ z. err (unparsable z)) (err-injective refl k), refl),
                )
        ]
      ]

  -- Given that no two texts have the same digest and that what is current was parsed from a text of
  -- the digest that is kept, which a new loader has for want of anything current: a load keeps it so,
  -- a load that fails changes nothing, and one that succeeds returns what the document that was read
  -- parses to, which is current afterwards, whether or not the digest spared the parsing.
  pub load-IsGood :
      ((a b : List ℕ) → sha256 a ≡ sha256 b → a ≡ b)
      → (reader : Reader) (now : ℕ) (l : Loader) → IsGood l
      → let r = load yaml lower sha256 files reader now l in
        IsGood r.1
        × ((e : LoadError yaml lower sha256 files) → r.0 ≡ err e → r.1 ≡ l)
        × ((file : Option File) (changed : Bool)
            → r.0 ≡ ok (file, changed)
            → (doc : Document) × (f : File) × (read files reader ≡ ok doc)
              × (parse yaml lower doc.bytes ≡ ok f)
              × (file ≡ some f)
              × (r.1.current ≡ some f))
  unfolding load
  load-IsGood collision reader now l good = elim (Outcome-cases (read files reader)) [
    | inr (x, e) ↦ rw (load, e) (good, (λ y k. refl), λ file changed k. ground arith)
    | inl (doc, e) ↦
        let loads = load_document-Loads collision doc now l good in
        elim (Outcome-cases (parse yaml lower doc.bytes)) [
          | inr (x, p) ↦
              let (failed, same) = loads.2 x p in
              rw (load, e)
                (loads.0, (λ y k. same), λ file changed k. absurd_outcome (sym failed ∙ k))
          | inl (f, p) ↦
              let ((changed', returned), now_current) = loads.1 f p in
              rw (load, e)
                (
                  loads.0,
                  (λ y k. absurd_outcome (sym k ∙ returned)),
                  λ file changed k. (
                    doc,
                    f,
                    refl,
                    p,
                    ap (λ (v : Option File × Bool). v.0) (ok-injective k returned),
                    now_current,
                  ),
                )
        ]
  ]
