-- ===== src/Locks/Progress.antt =====
-- About threads that wait for a lock: whether some thread can go on.
use oscam_vdr.Base.{ℕ, ◌≡◌, ◌≢◌, List, ◌∷◌, ◌++◌}
use oscam_vdr.Locks.{Lock, Point, advance}

-- Some thread counts in a sum that is not 0.
abbrev pub Some : (Point → Type 0) → List Point → Type 0
Some P ps = (xs : List Point) × (p : Point) × (ys : List Point) × (ps ≡ xs ++ (p ∷ ys)) × P p

-- The thread goes to another point, whatever the time.
abbrev pub Goes : Lock → Point → Type 0
Goes l p = (t : ℕ) → (advance t p l).0 ≢ p
