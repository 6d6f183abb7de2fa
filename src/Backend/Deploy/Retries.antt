-- ===== src/Backend/Deploy/Retries.antt =====
-- The loop of updateService, of backend/service.go: how often it writes, and what it notes.
use swarmcli_cd.Base.{ℕ, suc, ◌+◌, ◌≤◌, ◌≡◌, ◌≢◌, ◌⊎◌, none, some, [], ◌∷◌, Str}
use swarmcli_cd.Backend.{Backend}
use swarmcli_cd.Backend.Deploy.{service_update, out_of_band, Trace, changed_underneath, Result}

-- The updates that were sent, and the out-of-band changes that were noted.
abbrev pub updates : Trace → ℕ
updates [] = 0
updates (service_update n u ∷ tr) = suc (updates tr)
updates (_ ∷ tr) = updates tr

abbrev pub noted : Trace → ℕ
noted [] = 0
noted (out_of_band n ∷ tr) = suc (noted tr)
noted (_ ∷ tr) = noted tr

-- From one trace to a result, with so many rounds at most: every update but a last one was refused as
-- a conflict and noted, and the loop gives up only when every round was.
abbrev pub Counted : Str → ℕ → Trace → Result → Type 0
Counted name n tr r =
    (updates r.1 ≤ updates tr + n)
    × ((r.0 ≢ none) ⊎ (updates r.1 + noted tr ≡ suc (updates tr + noted r.1)))
    × ((r.0 ≢ some (changed_underneath name))
        ⊎ ((updates r.1 ≡ updates tr + n) × (noted r.1 ≡ noted tr + n)))
