-- ===== src/Locks/Sums.antt =====
-- About the threads of a system: what they have counted into the lock.
use oscam_vdr.Base.{ℕ, ◌+◌, ◌≤◌, ◌≡◌, refl, List, [], ◌∷◌, ◌++◌, arith}
use oscam_vdr.Locks.{
  Point, Idle, idle, write_check, write_back, write_drain, writing, read_check, read_back, reading,
  try_read_check, try_read_back, try_write_test, try_write_inc, try_write_check, try_write_back,
}

-- Whether a thread has counted itself as a writer, or as a reader.
abbrev pub in_write : Point → ℕ
in_write write_check = 1
in_write write_back = 1
in_write write_drain = 1
in_write writing = 1
in_write try_write_check = 1
in_write try_write_back = 1
in_write _ = 0

abbrev pub in_read : Point → ℕ
in_read read_check = 1
in_read read_back = 1
in_read reading = 1
in_read try_read_check = 1
in_read try_read_back = 1
in_read _ = 0

-- Whether it has found itself the only writer, and whether it holds the lock to write or to read.
abbrev pub owns : Point → ℕ
owns write_drain = 1
owns writing = 1
owns _ = 0

abbrev pub is_writing : Point → ℕ
is_writing writing = 1
is_writing _ = 0

abbrev pub is_reading : Point → ℕ
is_reading reading = 1
is_reading _ = 0

-- Whether it is in `cs_try_writelock`, and whether it uses the lock at all.
abbrev pub trying : Point → ℕ
trying try_write_test = 1
trying try_write_inc = 1
trying try_write_check = 1
trying try_write_back = 1
trying _ = 0

abbrev pub busy : Point → ℕ
busy idle = 0
busy _ = 1

abbrev pub total : (Point → ℕ) → List Point → ℕ
total f [] = 0
total f (p ∷ ps) = f p + total f ps

pub total-middle :
    (f : Point → ℕ) (xs : List Point) (p : Point) (ys : List Point)
    → total f (xs ++ (p ∷ ys)) ≡ f p + total f (xs ++ ys)
total-middle f [] p ys = refl
total-middle f (x ∷ xs) p ys = omega (arith, total-middle f xs p ys)

pub total_mono :
    (f g : Point → ℕ) → ((p : Point) → f p ≤ g p) → (ps : List Point) → total f ps ≤ total g ps
total_mono f g h [] = omega arith
total_mono f g h (p ∷ ps) = omega (arith, h p, total_mono f g h ps)

-- An idle thread counts nothing.
pub total-Idle : (f : Point → ℕ) → f idle ≡ 0 → (ps : List Point) → Idle ps → total f ps ≡ 0
total-Idle f e [] i = refl
total-Idle f e (p ∷ ps) i = let h : f p ≡ 0 = rw i.0 e in omega (arith, h, total-Idle f e ps i.1)
