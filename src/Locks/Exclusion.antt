-- ===== src/Locks/Exclusion.antt =====
-- About the threads that hold a lock at the same time.
use oscam_vdr.Base.{ℕ, ◌+◌, ◌≤◌, ◌≡◌, ◌≢◌, refl, Bool, false, List, ◌∷◌, ◌++◌, arith}
use oscam_vdr.Locks.{
  Lock, Point, idle, write_test, write_inc, write_check, write_back, write_drain, writing,
  read_test, read_inc, read_check, read_back, reading, try_read_test, try_read_inc, try_read_check,
  try_read_back, try_write_test, try_write_inc, try_write_check, try_write_back, advance, expired,
  cs_writeunlock, cs_readunlock, System, Step, Reach, Call,
}
use oscam_vdr.Locks.Sums.{
  in_write, in_read, owns, is_writing, is_reading, trying, total, total-middle, total_mono,
  total-Idle,
}

-- A lock, one thread that uses it, and what the others have counted.
abbrev pub Shares : Bool → Lock → Point → (w r o hw hr y : ℕ) → Type 0
Shares b l p w r o hw hr y =
    (l.write_lock ≡ in_write p + w)
    × (l.read_lock ≡ in_read p + r)
    × (owns p + o ≤ 1)
    × (b ≡ false → is_writing p + hw ≢ 0 → is_reading p + hr ≡ 0)
    × (b ≡ false → trying p + y ≡ 0)

module _ (b : Bool) (w r o hw hr y : ℕ) (ow : o ≤ w) (wo : hw ≤ o) (rr : hr ≤ r) where
  advance-Shares :
      (t : ℕ) (p : Point) (l : Lock)
      → expired t l ≡ false
      → Shares b l p w r o hw hr y
      → Shares b (advance t p l).1 (advance t p l).0 w r o hw hr y
  unfolding advance cs_writeunlock cs_readunlock
  advance-Shares t idle l e s = s
  advance-Shares t write_test l e s = ground (arith, s.0, s.1, s.2, s.3, s.4)
  advance-Shares t write_inc l e s = ground (arith, s.0, s.1, s.2, s.3, s.4)
  advance-Shares t write_check l e s = ground (arith, s.0, s.1, s.2, s.3, s.4)
  advance-Shares t write_back l e s = ground (arith, s.0, s.1, s.2, s.3, s.4)
  advance-Shares t write_drain l e s = ground (arith, s.0, s.1, s.2, s.3, s.4)
  advance-Shares t writing l e s = ground (arith, s.0, s.1, s.2, s.3, s.4)
  advance-Shares t read_test l e s = ground (arith, s.0, s.1, s.2, s.3, s.4)
  advance-Shares t read_inc l e s = ground (arith, s.0, s.1, s.2, s.3, s.4)
  advance-Shares t read_check l e s = ground (arith, s.0, s.1, s.2, s.3, s.4)
  advance-Shares t read_back l e s = ground (arith, s.0, s.1, s.2, s.3, s.4)
  advance-Shares t reading l e s = ground (arith, s.0, s.1, s.2, s.3, s.4)
  advance-Shares t try_read_test l e s = ground (arith, s.0, s.1, s.2, s.3, s.4)
  advance-Shares t try_read_inc l e s = ground (arith, s.0, s.1, s.2, s.3, s.4)
  advance-Shares t try_read_check l e s = ground (arith, s.0, s.1, s.2, s.3, s.4)
  advance-Shares t try_read_back l e s = ground (arith, s.0, s.1, s.2, s.3, s.4)
  advance-Shares t try_write_test l e s = ground (arith, s.0, s.1, s.2, s.3, s.4)
  advance-Shares t try_write_inc l e s = ground (arith, s.0, s.1, s.2, s.3, s.4)
  advance-Shares t try_write_check l e s = ground (arith, s.0, s.1, s.2, s.3, s.4)
  advance-Shares t try_write_back l e s = ground (arith, s.0, s.1, s.2, s.3, s.4)

-- The counters are what the threads have counted, at most one thread owns the lock as a writer,
-- and without `cs_try_writelock` no thread reads while one writes.
abbrev pub Counted : Bool → Lock → Point → List Point → Type 0
Counted b l p ps =
    Shares b l p (total in_write ps) (total in_read ps) (total owns ps) (total is_writing ps)
      (total is_reading ps) (total trying ps)

abbrev pub Invariant : Bool → System → Type 0
Invariant b s = Counted b s.lock idle s.threads

module _ (b : Bool) (l : Lock) (xs : List Point) (p : Point) (ys : List Point) where
  focus : Counted b l idle (xs ++ (p ∷ ys)) → Counted b l p (xs ++ ys)
  focus s =
      let w = total-middle in_write xs p ys in
      let r = total-middle in_read xs p ys in
      let o = total-middle owns xs p ys in
      let hw = total-middle is_writing xs p ys in
      let hr = total-middle is_reading xs p ys in
      let y = total-middle trying xs p ys in
      (
        ground (arith, s.0),
        ground (arith, s.1),
        ground (arith, s.2),
        ground (arith, s.3),
        ground (arith, s.4),
      )

  unfocus : Counted b l p (xs ++ ys) → Counted b l idle (xs ++ (p ∷ ys))
  unfocus s =
      let w = total-middle in_write xs p ys in
      let r = total-middle in_read xs p ys in
      let o = total-middle owns xs p ys in
      let hw = total-middle is_writing xs p ys in
      let hr = total-middle is_reading xs p ys in
      let y = total-middle trying xs p ys in
      (
        ground (arith, s.0),
        ground (arith, s.1),
        ground (arith, s.2),
        ground (arith, s.3),
        ground (arith, s.4),
      )

owns-in_write : (p : Point) → owns p ≤ in_write p
owns-in_write idle = omega arith
owns-in_write write_drain = omega arith
owns-in_write writing = omega arith
owns-in_write p = omega arith

is_writing-owns : (p : Point) → is_writing p ≤ owns p
is_writing-owns writing = omega arith
is_writing-owns p = omega arith

is_reading-in_read : (p : Point) → is_reading p ≤ in_read p
is_reading-in_read reading = omega arith
is_reading-in_read p = omega arith

enter :
    (b : Bool) (l : Lock) (p : Point) (ps : List Point)
    → Call b p
    → Counted b l idle ps
    → Counted b l p ps
enter b l _ ps (Call.cs_writelock _) s = s
enter b l _ ps (Call.cs_readlock _) s = s
enter b l _ ps (Call.cs_try_readlock _) s = s
enter _ l _ ps Call.cs_try_writelock s = (s.0, s.1, s.2, s.3, λ h. absurd (ground (arith, h)))

Step-Invariant : (b : Bool) (s u : System) → Step b s u → Invariant b s → Invariant b u
Step-Invariant b _ _ (Step.call l xs p ys e) s =
    unfocus b l xs p ys (enter b l p (xs ++ ys) e (focus b l xs idle ys s))
Step-Invariant b _ _ (Step.run t l xs p ys e) s =
    unfocus b (advance t p l).1 xs (advance t p l).0 ys (
      advance-Shares b (total in_write (xs ++ ys)) (total in_read (xs ++ ys))
        (total owns (xs ++ ys)) (total is_writing (xs ++ ys)) (total is_reading (xs ++ ys))
        (total trying (xs ++ ys)) (total_mono owns in_write owns-in_write (xs ++ ys))
        (total_mono is_writing owns is_writing-owns (xs ++ ys))
        (total_mono is_reading in_read is_reading-in_read (xs ++ ys)) t p l e (focus b l xs p ys s))

pub Reach-Invariant : (b : Bool) (s : System) → Reach b s → Invariant b s
Reach-Invariant b _ (Reach.start timeout ps i) =
    let w = total-Idle in_write refl ps i in
    let r = total-Idle in_read refl ps i in
    let o = total-Idle owns refl ps i in
    let hr = total-Idle is_reading refl ps i in
    let y = total-Idle trying refl ps i in
    (omega arith, omega arith, omega arith, λ b' n. omega arith, λ b'. omega arith)
Reach-Invariant b u (Reach.next s _ r e) = Step-Invariant b s u e (Reach-Invariant b s r)

-- As long as no wait times out, at most one thread holds a lock to write. The read counter is never
-- below the number of threads that hold it to read, nor the write counter below that of those that
-- hold it to write.
pub Reach-alone :
    (b : Bool) (s : System)
    → Reach b s
    → (total is_writing s.threads ≤ 1)
      × (total is_reading s.threads ≤ s.lock.read_lock)
      × (total is_writing s.threads ≤ s.lock.write_lock)
Reach-alone b s r =
    let i = Reach-Invariant b s r in
    let a = total_mono is_writing owns is_writing-owns s.threads in
    let c = total_mono owns in_write owns-in_write s.threads in
    let d = total_mono is_reading in_read is_reading-in_read s.threads in
    (omega (arith, i.2), omega (arith, i.1), omega (arith, i.0))
