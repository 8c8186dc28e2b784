-- ===== src/Locks.antt =====
-- oscam-simples.c, the `CS_MUTEX_LOCK`: the counters of a lock and the threads that call the lock
-- functions, which interleave at each access of the counters. `l->read_lock++` and the like are
-- taken as one step each, as their comment says ("atom function"), and so is a test with the
-- assignments that it guards.
pub mod Sums
pub mod Exclusion
pub mod Progress
mod Tests
use oscam_vdr.Base.{
  ℕ, ◌+◌, ◌-◌, ◌≡◌, Bool, true, false, ◌&&◌, List, [], ◌∷◌, ◌++◌, ltb, nonzero, if◌then◌else◌,
}

-- `struct cs_mutexlock`, its name apart.
pub record Lock : Type 0 where
  pub read_lock : ℕ
  pub write_lock : ℕ
  pub lastlock : ℕ
  pub timeout : ℕ

abbrev pub cs_lock_create : ℕ → Lock
cs_lock_create timeout = record { read_lock = 0; write_lock = 0; lastlock = 0; timeout = timeout }

-- Where a thread is in the lock functions: before a test of the write lock, before it counts
-- itself, before it looks whether it is alone, before it takes itself back, before a test of the
-- read lock, or holding the lock, which it gives back next.
pub data Point : Type 0 where
  idle : Point
  write_test : Point
  write_inc : Point
  write_check : Point
  write_back : Point
  write_drain : Point
  writing : Point
  read_test : Point
  read_inc : Point
  read_check : Point
  read_back : Point
  reading : Point
  try_read_test : Point
  try_read_inc : Point
  try_read_check : Point
  try_read_back : Point
  try_write_test : Point
  try_write_inc : Point
  try_write_check : Point
  try_write_back : Point

-- The first points of the functions that take a lock. Whether the last may be called is an
-- argument.
pub data Call : Bool → Point → Type 0 where
  cs_writelock : (b : Bool) → Call b write_test
  cs_readlock : (b : Bool) → Call b read_test
  cs_try_readlock : (b : Bool) → Call b try_read_test
  cs_try_writelock : Call true try_write_test

-- `l->timeout && t > l->lastlock+l->timeout`
unfoldable pub expired : ℕ → Lock → Bool
expired t l = nonzero l.timeout && ltb (l.lastlock + l.timeout) t

-- What a wait does that has timed out.
abbrev pub give_up : ℕ → Lock → Lock
give_up t l = record l { write_lock = 0; read_lock = 0; lastlock = t }

abbrev pub got_lock : ℕ → Lock → Lock
got_lock t l = record l { lastlock = t }

-- `cs_writeunlock` and `cs_readunlock`
unfoldable pub cs_writeunlock : Lock → Lock
cs_writeunlock l = if ltb 0 l.write_lock then record l { write_lock = l.write_lock - 1 } else l

unfoldable pub cs_readunlock : Lock → Lock
cs_readunlock l = if ltb 0 l.read_lock then record l { read_lock = l.read_lock - 1 } else l

-- One step of a thread at the time `t`.
unfoldable pub advance : ℕ → Point → Lock → Point × Lock
advance t idle l = (idle, l)
advance t write_test l =
    if nonzero l.write_lock
    then (if expired t l then (write_inc, give_up t l) else (write_test, l))
    else (write_inc, l)
advance t write_inc l = (write_check, record l { write_lock = l.write_lock + 1 })
advance t write_check l = if ltb 1 l.write_lock then (write_back, l) else (write_drain, l)
advance t write_back l = (write_test, record l { write_lock = l.write_lock - 1 })
advance t write_drain l =
    if nonzero l.read_lock
    then (if expired t l
        then (writing, got_lock t (record l { read_lock = 0 }))
        else (write_drain, l))
    else (writing, got_lock t l)
advance t writing l = (idle, cs_writeunlock l)
advance t read_test l =
    if nonzero l.write_lock
    then (if expired t l then (read_inc, give_up t l) else (read_test, l))
    else (read_inc, l)
advance t read_inc l = (read_check, record l { read_lock = l.read_lock + 1 })
advance t read_check l = if ltb 0 l.write_lock then (read_back, l) else (reading, got_lock t l)
advance t read_back l = (read_test, record l { read_lock = l.read_lock - 1 })
advance t reading l = (idle, cs_readunlock l)
advance t try_read_test l = if nonzero l.write_lock then (idle, l) else (try_read_inc, l)
advance t try_read_inc l = (try_read_check, record l { read_lock = l.read_lock + 1 })
advance t try_read_check l =
    if ltb 0 l.write_lock then (try_read_back, l) else (reading, got_lock t l)
advance t try_read_back l = (idle, record l { read_lock = l.read_lock - 1 })
advance t try_write_test l = if nonzero l.write_lock then (idle, l) else (try_write_inc, l)
advance t try_write_inc l = (try_write_check, record l { write_lock = l.write_lock + 1 })
advance t try_write_check l =
    if ltb 1 l.write_lock then (try_write_back, l) else (writing, got_lock t l)
advance t try_write_back l = (idle, record l { write_lock = l.write_lock - 1 })

-- A lock and the threads that use it.
pub record System : Type 0 where
  pub lock : Lock
  pub threads : List Point

-- One thread calls a lock function, or goes on, without a wait that times out.
pub data Step (b : Bool) : System → System → Type 0 where
  call :
      (l : Lock) (xs : List Point) (p : Point) (ys : List Point)
      → Call b p
      → Step b
          (record { lock = l; threads = xs ++ (idle ∷ ys) })
          (record { lock = l; threads = xs ++ (p ∷ ys) })
  run :
      (t : ℕ) (l : Lock) (xs : List Point) (p : Point) (ys : List Point)
      → expired t l ≡ false
      → Step b
          (record { lock = l; threads = xs ++ (p ∷ ys) })
          (record { lock = (advance t p l).1; threads = xs ++ ((advance t p l).0 ∷ ys) })

-- No thread uses the lock.
abbrev pub Idle : List Point → Type 0
Idle [] = Unit
Idle (p ∷ ps) = (p ≡ idle) × Idle ps

-- The systems that steps lead to from a new lock and threads that do not use it yet.
pub data Reach (b : Bool) : System → Type 0 where
  start :
      (timeout : ℕ) (threads : List Point)
      → Idle threads
      → Reach b (record { lock = cs_lock_create timeout; threads = threads })
  next : (s u : System) → Reach b s → Step b s u → Reach b u
