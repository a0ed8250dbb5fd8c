-- ===== src/RbTree/Erase.antt =====
-- `erase` and `erase_fixup` (src/utils/mempool/src/RBtree.cpp) of the red-black tree, at a node with the
-- path to it.
pub mod Order
pub mod Unbalanced
pub mod Entries
use my_vm_os.Base.{Bool, true, false, List, [], ◌∷◌, Option, none, some, if◌then◌else◌}
use my_vm_os.RbTree.{
  Color, red, black, Tree, leaf, node, Side, at_left, at_right, Frame, is_red, set_color, join, up,
  plug, rotate_left, rotate_right, finish,
}

module _ {A : Type 0} where
  -- The entry of the successor: the leftmost of the right subtree, or `e` where that is empty.
  unfoldable pub leftmost : A → Tree A → A
  leftmost e leaf = e
  leftmost e (node c l f r) = leftmost f l

  -- The right subtree when the successor has been taken out.
  unfoldable pub drop_leftmost : Tree A → Tree A
  drop_leftmost leaf = leaf
  drop_leftmost (node c leaf e r) = r
  drop_leftmost (node c (node d l f m) e r) = node c (drop_leftmost (node d l f m)) e r

  -- A rotation that moves the node of the given side down.
  abbrev pub rotate_down : Side → Tree A → Option (Tree A)
  rotate_down at_left t = rotate_left t
  rotate_down at_right t = rotate_right t

  abbrev pub rotate_up : Side → Tree A → Option (Tree A)
  rotate_up at_left t = rotate_right t
  rotate_up at_right t = rotate_left t

  -- The children of the sibling of a node: the one beside the node, and the other.
  abbrev pub near : Side → Tree A → Tree A → Tree A
  near at_left l r = l
  near at_right l r = r

  abbrev pub far : Side → Tree A → Tree A → Tree A
  far at_left l r = r
  far at_right l r = l

  -- The cases 3: the far child of the sibling is not red.
  abbrev pub turn_sibling : Side → Tree A → A → Tree A → Option (Tree A)
  turn_sibling side l e r =
      if is_red (far side l r)
      then some (node black l e r)
      else rotate_up side (join side red (set_color black (near side l r)) e (far side l r))

  abbrev pub far_black : Side → Color → Tree A → Tree A
  far_black side c leaf = leaf
  far_black at_left c (node d l e r) = node c l e (set_color black r)
  far_black at_right c (node d l e r) = node c (set_color black l) e r

  -- The case 4, where the node becomes the root and the loop ends.
  abbrev pub turn_parent : Side → Color → Tree A → A → Option (Tree A) → Option (Tree A)
  turn_parent side c t e none = none
  turn_parent side c t e (some sibling) =
      rotate_down side (join side black t e (far_black side c sibling))

  -- A round of the loop with a sibling that is not red; `recolored` is how the loop goes on from the
  -- parent where the sibling has no red child.
  abbrev pub rebalance :
      Option (Tree A) → Side → Color → Tree A → A → Tree A → List (Frame A) → Option (Tree A)
  rebalance recolored side c t e leaf path = none
  rebalance recolored side c t e (node d l f r) path =
      if is_red l
      then finish (turn_parent side c t e (turn_sibling side l f r)) path
      else if is_red r
      then finish (turn_parent side c t e (turn_sibling side l f r)) path
      else recolored

  -- The case 1: a red sibling is turned above the parent, which is red and ends the loop if the new
  -- sibling has no red child.
  abbrev pub with_sibling :
      Option (Tree A) → Side → Color → Tree A → A → Tree A → List (Frame A) → Option (Tree A)
  with_sibling recolored side c t e (node red l f r) path =
      let above : List (Frame A) =
        record { side = side; color = black; entry = f; other = far side l r } ∷ path in
      rebalance (some (plug above (join side black t e (set_color red (near side l r))))) side red t
        e (near side l r) above
  with_sibling recolored side c t e sibling path = rebalance recolored side c t e sibling path

  unfoldable pub erase_fixup : List (Frame A) → Tree A → Option (Tree A)
  erase_fixup [] t = some (set_color black t)
  erase_fixup (f ∷ path) t =
      let recolored = erase_fixup path (join f.side f.color t f.entry (set_color red f.other)) in
      if is_red t
      then some (plug (f ∷ path) (set_color black t))
      else with_sibling recolored f.side f.color t f.entry f.other path

  -- A node with one child at most, which takes its place.
  abbrev pub splice : Color → Tree A → List (Frame A) → Option (Tree A)
  splice black (node d l e r) path = erase_fixup path (node d l e r)
  splice c child path = some (plug path child)

  -- The node at the end of the path is taken out.
  unfoldable pub erase : List (Frame A) → Color → Tree A → A → Tree A → Option (Tree A)
  erase path c leaf e r = splice c r path
  erase path c l e leaf = splice c l path
  erase path c l e r = some (plug path (node c l (leftmost e r) (drop_leftmost r)))
