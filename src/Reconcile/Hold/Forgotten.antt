-- ===== src/Reconcile/Hold/Forgotten.antt =====
-- What the memory of an entry comes to: reconcile/reconcile.go.
use swarmcli_cd.Base.{
  ℕ, suc, ◌≡◌, ◌≢◌, ◌↔◌, refl, true, false, some, List, [], ◌∷◌, Str, seq_iff, arith,
}
use swarmcli_cd.Reconcile.Hold.{
  Happening, ended, found, replaced, note_failure, set_unstable, replace, remember,
  check_reproducible,
}

-- The last finding, unless the spec was replaced since.
abbrev pub standing : List Happening → Str × List Str
standing [] = ([], [])
standing (ended failed ∷ hs) = standing hs
standing (found revision releases ∷ hs) = (revision, releases)
standing (replaced ∷ hs) = ([], [])

-- The failures since the last success and since the spec was replaced.
abbrev pub streak : List Happening → ℕ
streak [] = 0
streak (ended true ∷ hs) = suc (streak hs)
streak (ended false ∷ hs) = 0
streak (found revision releases ∷ hs) = streak hs
streak (replaced ∷ hs) = 0

remember_lem :
    (hs : List Happening)
    → ((remember hs).unstable ≡ (standing hs).0)
      × ((remember hs).unstable_releases ≡ (standing hs).1)
      × ((remember hs).failures ≡ streak hs)
unfolding remember note_failure set_unstable replace
remember_lem [] = (refl, refl, refl)
remember_lem (ended true ∷ hs) = ground (arith, remember_lem hs)
remember_lem (ended false ∷ hs) = ground (arith, remember_lem hs)
remember_lem (found revision releases ∷ hs) = ground (arith, remember_lem hs)
remember_lem (replaced ∷ hs) = (refl, refl, refl)

-- Whatever happened before, an application is refused at a revision exactly if the last finding since
-- its spec was last replaced is about that revision, and the refusal names the releases found then;
-- and the count that the wait is computed from is that of the failures since the last success and the
-- last replacement.
pub remember_exact :
    (hs : List Happening) (revision : Str) (releases : List Str)
    → revision ≢ []
    → ((check_reproducible revision (remember hs) ≡ some releases)
        ↔ (standing hs ≡ (revision, releases)))
      × ((remember hs).failures ≡ streak hs)
unfolding check_reproducible
remember_exact hs revision releases n =
    ground (arith, remember_lem hs, seq_iff (remember hs).unstable revision)
