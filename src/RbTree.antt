-- ===== src/RbTree.antt =====
-- `RBtree` (src/utils/mempool/include/RBtree.h, src/utils/mempool/src/RBtree.cpp): insertion; Erase: removal. A node with what
-- its `left` and `right` lead to is a tree; what its `parent` leads to is a path of frames, the parent
-- first. A read through a null pointer is `none`.
pub mod Balance
pub mod Insert
pub mod Order
pub mod Sort
pub mod Erase
use my_vm_os.Base.{ℕ, ltb, Bool, true, false, List, [], ◌∷◌, Option, none, some, if◌then◌else◌}

pub data Color : Type 0 where
  red : Color
  black : Color

pub data Tree (A : Type 0) : Type 0 where
  leaf : Tree A
  node : (color : Color) (left : Tree A) (entry : A) (right : Tree A) → Tree A

-- Which child of its parent a node is.
pub data Side : Type 0 where
  at_left : Side
  at_right : Side

-- The parent of a node without the node: its color, its entry, the other child.
pub record Frame (A : Type 0) : Type 0 where
  pub side : Side
  pub color : Color
  pub entry : A
  pub other : Tree A

abbrev pub color_red : Color → Bool
color_red red = true
color_red black = false

module _ {A : Type 0} where
  -- `node && node->color == RED`
  abbrev pub is_red : Tree A → Bool
  is_red leaf = false
  is_red (node c l e r) = color_red c

  abbrev pub set_color : Color → Tree A → Tree A
  set_color c leaf = leaf
  set_color c (node d l e r) = node c l e r

  abbrev pub join : Side → Color → Tree A → A → Tree A → Tree A
  join at_left c t e other = node c t e other
  join at_right c t e other = node c other e t

  -- The parent with the node below it, and the root.
  abbrev pub up : Tree A → Frame A → Tree A
  up t f = join f.side f.color t f.entry f.other

  abbrev pub plug : List (Frame A) → Tree A → Tree A
  plug [] t = t
  plug (f ∷ path) t = plug path (up t f)

  unfoldable pub rotate_left : Tree A → Option (Tree A)
  rotate_left leaf = none
  rotate_left (node c l e leaf) = none
  rotate_left (node c l e (node d m f r)) = some (node d (node c l e m) f r)

  unfoldable pub rotate_right : Tree A → Option (Tree A)
  rotate_right leaf = none
  rotate_right (node c leaf e r) = none
  rotate_right (node c (node d l e m) f r) = some (node d l e (node c m f r))

  -- `root->rb_node->color = BLACK`, after the loop.
  abbrev pub finish : Option (Tree A) → List (Frame A) → Option (Tree A)
  finish none path = none
  finish (some t) path = some (set_color black (plug path t))

  -- The cases 1.2 and 1.3: the parent is a left child and the uncle is not red.
  abbrev pub turn_right : Option (Tree A) → A → Tree A → Option (Tree A)
  turn_right none e uncle = none
  turn_right (some parent) e uncle = rotate_right (node red (set_color black parent) e uncle)

  abbrev pub lift_left : Side → Tree A → Option (Tree A)
  lift_left at_left parent = some parent
  lift_left at_right parent = rotate_left parent

  -- The cases 2.2 and 2.3: the parent is a right child.
  abbrev pub turn_left : Option (Tree A) → A → Tree A → Option (Tree A)
  turn_left none e uncle = none
  turn_left (some parent) e uncle = rotate_left (node red uncle e (set_color black parent))

  abbrev pub lift_right : Side → Tree A → Option (Tree A)
  lift_right at_right parent = some parent
  lift_right at_left parent = rotate_right parent

  abbrev pub straighten : Side → Side → Tree A → A → Tree A → Option (Tree A)
  straighten at_left side parent e uncle = turn_right (lift_left side parent) e uncle
  straighten at_right side parent e uncle = turn_left (lift_right side parent) e uncle

  -- `f` is the frame of the parent, `g` that of the grandparent.
  unfoldable pub insert_fixup : List (Frame A) → Tree A → Option (Tree A)
  insert_fixup [] t = some (set_color black t)
  insert_fixup (f ∷ []) t = if color_red f.color then none else some (set_color black (up t f))
  insert_fixup (f ∷ g ∷ path) t =
      let recolored =
        insert_fixup path
          (join g.side red (set_color black (up t f)) g.entry (set_color black g.other)) in
      if color_red f.color
      then if is_red g.other
        then recolored
        else finish (straighten g.side f.side (up t f) g.entry g.other) path
      else some (set_color black (plug (f ∷ g ∷ path) t))

  -- `before x e` is the test `cmp(node, *current) < 0`.
  module _ (before : A → A → Bool) where
    abbrev pub descend : A → Tree A → List (Frame A) → List (Frame A)
    descend x leaf path = path
    descend x (node c l e r) path =
        let at_l =
          descend x l (record { side = at_left; color = c; entry = e; other = r } ∷ path) in
        let at_r =
          descend x r (record { side = at_right; color = c; entry = e; other = l } ∷ path) in
        if before x e then at_l else at_r

    unfoldable pub insert_with_compare : A → Tree A → Option (Tree A)
    insert_with_compare x t = insert_fixup (descend x t []) (node red leaf x leaf)

  -- `insert`, which compares the nodes by their addresses.
  unfoldable pub insert : (address : A → ℕ) → A → Tree A → Option (Tree A)
  insert address x t = insert_with_compare (λ y e. ltb (address y) (address e)) x t
