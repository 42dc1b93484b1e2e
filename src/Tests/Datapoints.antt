-- ===== src/Tests/Datapoints.antt =====
-- Runs of model_build/list.c on a list of two nodes and on an empty one.
use a2pm.Common.{
  ℕ, ◌≡◌, refl, arith, Option, none, some, List, [], ◌∷◌, map, inr, if◌then◌else◌, ◌==◌, Bool,
}
use a2pm.Datapoints.{Node, NodeList, Heap, init_list, insert_next, delete_node}
use a2pm.Datapoints.Middle.{insert_after, insert_next-IsList}
use a2pm.Datapoints.Held.{Hold}
use a2pm.Datapoints.Runs.{insert_points, insert_points-IsList}
use a2pm.Datapoints.Deletion.{delete_node-IsList}
use a2pm.Datapoints.Pointers.{erase_first, holds}
use a2pm.Datapoints.Sequences.{AreDistinct}
use a2pm.Datapoints.Insertion.{IsChain, IsList}

abbrev node : ℕ → Option ℕ → Node ℕ
node key next = record { datapoint = key; next = next }

-- Node 0 points to node 1; all others point nowhere.
abbrev two_nodes : Heap ℕ
two_nodes i = if i == 0 then some (node 5 (some 1)) else some (node 6 none)

abbrev two_list : NodeList
two_list = record { head = some 0; tail = some 1 }

abbrev both : List ℕ
both = 0 ∷ 1 ∷ []

two_list-IsList : IsList two_nodes two_list both
unfolding IsChain
two_list-IsList = record {
  chain = (refl, (node 5 (some 1), refl, (refl, (node 6 none, refl, refl))));
  distinct = ground arith;
  ends = refl;
}

abbrev no_nodes : Heap ℕ
no_nodes x = none

abbrev cells : List (ℕ × ℕ)
cells = (4, 50) ∷ (2, 60) ∷ (7, 70) ∷ []

cells-AreDistinct : AreDistinct (map (λ c. c.0) cells)
cells-AreDistinct = ground arith

-- The pointer of the first node is not clear.
insert_points-IsList_example :
    (l' : NodeList) × (h' : Heap ℕ) × (insert_points (some 9) cells init_list no_nodes
      ≡ some (l', h'))
    × IsList h' l' (map (λ c. c.0) cells)
    × Hold h' (map (λ c. c.0) cells) (map (λ c. c.1) cells)
insert_points-IsList_example =
    insert_points-IsList (some 9) cells no_nodes (inr (ground arith)) cells-AreDistinct

abbrev is_six : ℕ → Bool
is_six key = key == 6

delete_node-IsList_example :
    (l' : NodeList) × (h' : Heap ℕ) × (delete_node 2 is_six two_list two_nodes ≡ some (l', h'))
    × IsList h' l' (erase_first (holds is_six two_nodes) both)
delete_node-IsList_example =
    delete_node-IsList 2 is_six two_nodes two_list both two_list-IsList (omega arith)

abbrev is_five : ℕ → Bool
is_five key = key == 5

-- Node 2 comes between nodes 0 and 1.
insert_next-IsList_example :
    (l' : NodeList) × (h' : Heap ℕ) × (insert_next 2 is_five two_list 2 two_nodes ≡ some (l', h'))
    × IsList h' l' (insert_after (holds is_five two_nodes) 2 both)
insert_next-IsList_example =
    insert_next-IsList 2 is_five two_nodes two_list both 2 (node 6 none) two_list-IsList
      (omega arith) (ground arith) refl refl
