-- ===== src/LinkedList/Tests.antt =====
-- Runs on concrete lists.
use oscam_vdr.Base.{ℕ, ◌≡◌, refl, true, false, Option, none, some, List, [], ◌∷◌, arith}
use oscam_vdr.LinkedList.{
  Node, Llist, write, ll_iter_remove, ll_iter_move_first, ll_append, ll_remove, ll_contains,
}
use oscam_vdr.LinkedList.Chain.{Cell, IsList}
use oscam_vdr.LinkedList.Grow.{Appends, ll_append-Appends}
use oscam_vdr.LinkedList.Iterator.{at_cells}
use oscam_vdr.LinkedList.Remove.{Removed, ll_iter_remove-Removed}
use oscam_vdr.LinkedList.Loops.{Leaves, ll_remove-others, ll_contains-any}
use oscam_vdr.LinkedList.Flags.{Refused, with_flag}
use oscam_vdr.LinkedList.Moves.{remove_next, remove-move_first}

-- Three nodes, the first and the last with the same object.
abbrev cell_a : Cell
cell_a = record { address = 16; obj = 7; flag = 0 }

abbrev cell_b : Cell
cell_b = record { address = 48; obj = 8; flag = 0 }

abbrev cell_c : Cell
cell_c = record { address = 32; obj = 7; flag = 0 }

abbrev three : List Cell
three = cell_a ∷ cell_b ∷ cell_c ∷ []

abbrev nowhere : ℕ → Option Node
nowhere a = none

abbrev list : Llist
list = record {
  node =
      write
        (write (write nowhere 16 (record { obj = 7; nxt = 48; flag = 0 })) 48
          (record { obj = 8; nxt = 32; flag = 0 }))
        32 (record { obj = 7; nxt = 0; flag = 0 });
  address = 8;
  initial = 16;
  last = 32;
  count = 3;
  flag = 0;
  garbage = [];
}

list-IsList : IsList list three
list-IsList = record {
  chain = (
    refl,
    omega arith,
    omega arith,
    refl,
    (refl, omega arith, omega arith, refl, (refl, omega arith, omega arith, refl, tt)),
  );
  first = refl;
  final = refl;
  counted = refl;
  usable = refl;
}

ll_append-Appends_example : Appends 64 9 three (ll_append 64 9 list)
ll_append-Appends_example =
    ll_append-Appends list 64 9 three list-IsList refl (omega arith) (omega arith)

ll_iter_remove-Removed_example :
    Removed
      (cell_a ∷ [])
      cell_b
      (cell_c ∷ [])
      []
      (ll_iter_remove (at_cells (cell_a ∷ []) (cell_b ∷ cell_c ∷ [])) list)
ll_iter_remove-Removed_example =
    ll_iter_remove-Removed list (cell_a ∷ []) cell_b (cell_c ∷ []) list-IsList refl

ll_remove-others_example : Leaves 2 (cell_b ∷ []) (ll_remove 7 list)
ll_remove-others_example = ll_remove-others list 7 three list-IsList (refl, (refl, (refl, tt)))

remove-move_first_example :
    Refused
      (at_cells [] (cell_c ∷ cell_a ∷ cell_b ∷ []))
      (with_flag 2 cell_c ∷ cell_a ∷ cell_b ∷ [])
      []
      (remove_next (ll_iter_move_first (at_cells (cell_a ∷ cell_b ∷ []) (cell_c ∷ [])) list))
remove-move_first_example = remove-move_first list (cell_a ∷ cell_b ∷ []) cell_c [] list-IsList refl

-- `ll_contains` stops at the second node, and ends behind the last.
contains : (ll_contains 8 list ≡ some true) × (ll_contains 9 list ≡ some false)
contains = (
  ll_contains-any list 8 three list-IsList (omega arith),
  ll_contains-any list 9 three list-IsList (omega arith),
)
