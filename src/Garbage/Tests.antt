-- ===== src/Garbage/Tests.antt =====
-- A collector with two addresses pending.
use oscam_vdr.Base.{ℕ, ◌≡◌, refl, true, false, [], ◌∷◌, if◌then◌else◌, replicate}
use oscam_vdr.Garbage.{Collector, garbage_collector, stop_garbage_collector}
use oscam_vdr.Garbage.Pending.{pending, taken, garbage_taken}
use oscam_vdr.Garbage.Placed.{IsPlaced, replicate-ArePlaced}

abbrev two : Collector
two = record {
  buckets =
      (record { time = 10; data_address = 0x1000 }
        ∷ record { time = 2; data_address = 0x2000 }
        ∷ [])
      ∷ replicate 15 [];
  is_active = true;
  debug = false;
  freed = [];
}

abbrev noon : ℕ → ℕ
noon i = 12

two-IsPlaced : IsPlaced two
two-IsPlaced = record {
  sixteen = refl;
  placed = ((refl, refl, (refl, refl, tt)), replicate-ArePlaced 15 1);
}

garbage_taken_example :
    (taken 0x2000 (garbage_collector noon two) ≡ taken 0x2000 two)
    × (taken 0x2000 (stop_garbage_collector two) ≡ taken 0x2000 two)
    × ((if true then pending 0x2000 (stop_garbage_collector two).buckets else 0) ≡ 0)
garbage_taken_example = garbage_taken noon two 0x2000
