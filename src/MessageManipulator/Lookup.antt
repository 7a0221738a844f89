-- ===== src/MessageManipulator/Lookup.antt =====
-- The tree of variables as a table by name.
use vn_sdm.Common.{
  ℕ, ◌≡◌, refl, arith, ◌==◌, if◌then◌else◌, Bool, true, false, List, [], ◌∷◌, Option, none, some,
}
use vn_sdm.MessageManipulator.{zero_sign, strcmp, Var, VarTree, null, node, find_var, add_var}

-- The two texts are the same.
abbrev pub same_text : List ℕ → List ℕ → Bool
same_text [] [] = true
same_text [] (b ∷ l) = false
same_text (a ∷ k) [] = false
same_text (a ∷ k) (b ∷ l) = if a == b then same_text k l else false

strcmp_same : (k l : List ℕ) → same_text k l ≡ true → strcmp k l ≡ zero_sign
unfolding strcmp
strcmp_same [] [] h = refl
strcmp_same [] (b ∷ l) h = ground arith
strcmp_same (a ∷ k) [] h = ground arith
strcmp_same (a ∷ k) (b ∷ l) h = ground (arith, strcmp_same k l)

strcmp_other : (k l : List ℕ) → strcmp k l ≡ zero_sign → same_text k l ≡ true
unfolding strcmp
strcmp_other [] [] h = refl
strcmp_other [] (b ∷ l) h = ground arith
strcmp_other (a ∷ k) [] h = ground arith
strcmp_other (a ∷ k) (b ∷ l) h = ground (arith, strcmp_other k l)

strcmp_congr : (k l m : List ℕ) → same_text k l ≡ true → strcmp k m ≡ strcmp l m
unfolding strcmp
strcmp_congr [] [] m h = refl
strcmp_congr [] (b ∷ l) m h = ground arith
strcmp_congr (a ∷ k) [] m h = ground arith
strcmp_congr (a ∷ k) (b ∷ l) [] h = refl
strcmp_congr (a ∷ k) (b ∷ l) (c ∷ m) h = ground (arith, strcmp_congr k l m)

-- The first of a list of variables that has a name.
abbrev pub first_named : List ℕ → List Var → Option Var
first_named name [] = none
first_named name (v ∷ l) = if same_text name v.name.text then some v else first_named name l

-- A tree with variables added in order, as the parser adds those of a message definition.
abbrev pub add_all : VarTree → List Var → VarTree
add_all t [] = t
add_all t (v ∷ l) = add_all (add_var t v) l

abbrev pub or_else : Option Var → Option Var → Option Var
or_else none b = b
or_else (some a) b = some a

find-add_var :
    (name : List ℕ) (t : VarTree) (v : Var)
    → find_var name (add_var t v)
      ≡ or_else (find_var name t) (if same_text name v.name.text then some v else none)
unfolding find_var add_var
find-add_var name null v =
    ground (arith, strcmp_same name v.name.text, strcmp_other name v.name.text)
find-add_var name (node root left right) v = ground (
  arith,
  strcmp_congr name v.name.text root.name.text,
  find-add_var name left v,
  find-add_var name right v,
)

find-add_all :
    (name : List ℕ) (t : VarTree) (l : List Var)
    → find_var name (add_all t l) ≡ or_else (find_var name t) (first_named name l)
find-add_all name t [] = ground arith
find-add_all name t (v ∷ l) =
    ground (arith, find-add_all name (add_var t v) l, find-add_var name t v)

-- In the tree that `addVar` builds out of variables one after the other, `find` finds, by any name, the
-- first of them with this name, and nothing if none has it: whatever the shape of the tree.
pub find_var_lem :
    (name : List ℕ) (l : List Var) → find_var name (add_all null l) ≡ first_named name l
unfolding find_var
find_var_lem name l = find-add_all name null l
