-- ===== src/Datapoints.antt =====
-- model_build/list.c: the linked list of datapoints. Nodes stand in a heap, where `none` is a node
-- that was freed or never allocated; an access to it is a fault, `none`. A node's key and values are a
-- parameter.
pub mod Deletion
pub mod Held
pub mod Insertion
pub mod Middle
pub mod Pointers
pub mod Runs
pub mod Sequences
use a2pm.Common.{ℕ, zero, suc, Bool, true, false, Option, none, some, ◌==◌, if◌then◌else◌}
use a2pm.Common.Family.{update}

-- `struct node`: its datapoint and the pointer.
pub record Node (Data : Type 0) : Type 0 where
  pub datapoint : Data
  pub next : Option ℕ

pub record NodeList : Type 0 where
  pub head : Option ℕ
  pub tail : Option ℕ

unfoldable pub init_list : NodeList
init_list = record { head = none; tail = none }

-- What a search along the pointers finds: a node with its predecessor (itself, for the first), no
-- such node, a node that was freed, or a list longer than the number of rounds.
pub data Search : Type 0 where
  found : (t tp : ℕ) → Search
  absent fault unfinished : Search

abbrev pub Heap : Type 0 → Type 0
Heap Data = ℕ → Option (Node Data)

module _ {Data : Type 0} where
  pub write_next : ℕ → Option ℕ → Heap Data → Option (Heap Data)
  write_next t next h = elim (h t) [
    | none ↦ none
    | some node ↦ some (update h t (some (record node { next = next })))
  ]

  with_list : NodeList → Option (Heap Data) → Option (NodeList × Heap Data)
  with_list l none = none
  with_list l (some h) = some (l, h)

  -- The pointer of a first node stays as it is.
  unfoldable pub insert_front : NodeList → (temp : ℕ) → Heap Data → Option (NodeList × Heap Data)
  unfolding write_next with_list
  insert_front l temp h = elim l.head [
    | none ↦ some (record { head = some temp; tail = some temp }, h)
    | some first ↦ with_list (record l { head = some temp }) (write_next temp (some first) h)
  ]

  -- The pointer of the new node stays as it is.
  unfoldable pub insert_rear : NodeList → (temp : ℕ) → Heap Data → Option (NodeList × Heap Data)
  unfolding write_next with_list
  insert_rear l temp h = elim l.head [
    | none ↦ some (record { head = some temp; tail = some temp }, h)
    | some first ↦ elim l.tail [
      | none ↦ none
      | some last ↦ with_list (record l { tail = some temp }) (write_next last (some temp) h)
    ]
  ]

  -- The loop of `insertNext` and `deleteNode`, for at most `rounds` rounds; `is_key` compares the key.
  pub search_loop :
      (rounds : ℕ) (is_key : Data → Bool) (t : Option ℕ) (tp : Option ℕ) → Heap Data → Search
  search_loop rounds is_key none tp h = absent
  search_loop zero is_key (some t) tp h = unfinished
  search_loop (suc rounds) is_key (some t) tp h = elim (h t) [
    | none ↦ fault
    | some node ↦
        let rest = search_loop rounds is_key node.next (some t) h in
        if is_key node.datapoint
        then found t (elim tp [ none ↦ t | some before ↦ before ])
        else rest
  ]

  unfoldable pub insert_next :
      (rounds : ℕ) (is_key : Data → Bool)
      → NodeList
      → (temp : ℕ) → Heap Data
      → Option (NodeList × Heap Data)
  unfolding search_loop write_next with_list
  insert_next rounds is_key l temp h = elim (search_loop rounds is_key l.head none h) [
    | absent ↦ some (l, h)
    | fault ↦ none
    | unfinished ↦ none
    | found t tp ↦ elim (h t) [
      | none ↦ none
      | some node ↦ elim node.next [
        | none ↦ with_list (record l { tail = some temp }) (write_next t (some temp) h)
        | some after ↦ elim (write_next temp (some after) h) [
          | none ↦ none
          | some h' ↦ with_list l (write_next t (some temp) h')
        ]
      ]
    ]
  ]

  -- The search follows a node to be freed with its predecessor; a first node is unhooked from the
  -- head, and the only one from both ends.
  unhook : NodeList → (t tp : ℕ) → Node Data → Heap Data → Option (NodeList × Heap Data)
  unfolding write_next with_list
  unhook l t tp node h =
      if t == tp
      then (elim node.next [
        | none ↦ some (record { head = none; tail = none }, h)
        | some after ↦ some (record l { head = some after }, h)
      ])
      else (elim node.next [
        | none ↦ with_list (record l { tail = some tp }) (write_next tp none h)
        | some after ↦ with_list l (write_next tp (some after) h)
      ])

  freed : (t : ℕ) → Option (NodeList × Heap Data) → Option (NodeList × Heap Data)
  freed t none = none
  freed t (some (l, h)) = some (l, update h t none)

  unfoldable pub delete_node :
      (rounds : ℕ) (is_key : Data → Bool) → NodeList → Heap Data → Option (NodeList × Heap Data)
  unfolding search_loop unhook freed
  delete_node rounds is_key l h = elim (search_loop rounds is_key l.head none h) [
    | absent ↦ some (l, h)
    | fault ↦ none
    | unfinished ↦ none
    | found t tp ↦ elim (h t) [ none ↦ none | some node ↦ freed t (unhook l t tp node h) ]
  ]
