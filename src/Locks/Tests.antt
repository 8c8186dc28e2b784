-- ===== src/Locks/Tests.antt =====
-- Runs of one and of two threads.
use oscam_vdr.Base.{ℕ, refl, false, List, [], ◌∷◌}
use oscam_vdr.Locks.{Point, idle, System, Reach, start}

abbrev sys : ℕ → ℕ → List Point → System
sys r w ps = record {
  lock = record { read_lock = r; write_lock = w; lastlock = 0; timeout = 5 };
  threads = ps;
}

-- Two threads, of which the first waits to read while the second writes.
abbrev two_idle : Reach false (sys 0 0 (idle ∷ idle ∷ []))
two_idle = start 5 (idle ∷ idle ∷ []) (refl, (refl, tt))
