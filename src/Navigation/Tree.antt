-- ===== src/Navigation/Tree.antt =====
-- What libclang gives of a cursor and its children: a tree of what the accesses of each cursor answer.
use cpp_mcp.Base.{List, [], ◌∷◌, ◌++◌}

mutual
  pub data Tree (A : Type 0) : Type 0 where
    node : A → Trees A → Tree A

  -- `get_children()`
  pub data Trees (A : Type 0) : Type 0 where
    nil : Trees A
    cons : Tree A → Trees A → Trees A

-- `walk_preorder()`, and the order in which the `_visit` functions see the cursors.
unfoldable mutual
  pub preorder : {A : Type 0} → Tree A → List A
  preorder (node a children) = a ∷ preorder_of children

  pub preorder_of : {A : Type 0} → Trees A → List A
  preorder_of nil = []
  preorder_of (cons t ts) = preorder t ++ preorder_of ts
