-- ===== src/Server/Tasks/Rounds.antt =====
-- About a task whose readers find nothing, one after the other.
use oscam_vdr.Base.{ℕ, ◌≡◌, Option, none, some, List, [], ◌∷◌, Exists, All}
use oscam_vdr.Server.{Request}
use oscam_vdr.Server.Cache.{Cache}
use oscam_vdr.Server.Tasks.{Hub}
use oscam_vdr.Server.Tasks.Answers.{chk_dcw}
use oscam_vdr.Server.Tasks.Misses.{Misses}

-- The answers that come one after the other.
unfoldable pub answers_run : (ℕ → ℕ) → ℕ → ℕ → List Request → Hub → Option Hub
answers_run grp_of now k [] s = some s
answers_run grp_of now k (q ∷ qs) s = elim (chk_dcw grp_of now k q s) [
  | none ↦ none
  | some d ↦ answers_run grp_of now k qs d
]

-- Answers "not found" to the task at a place, each of some reader.
abbrev pub AllMiss : ℕ → Request → List Request → Type 0
AllMiss i t = All (λ q. (q.cpti ≡ i) × ((r : ℕ) × Misses r t q))

-- Every reader that the task waits for is the one of some answer.
abbrev pub Covers : List Request → List ℕ → Type 0
Covers qs = All (λ r. Exists (λ q. q.selected_reader ≡ some r) qs)
