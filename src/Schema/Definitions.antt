-- ===== src/Schema/Definitions.antt =====
-- What the schema of a type defines.
use dds_pipe.Base.{
  ◌≡◌, ◌⊎◌, refl, sym, ap, ◌∙◌, inr, true, false, not, List, [], ◌∷◌, ◌++◌, map, if◌then◌else◌,
  ◌&&◌, arith, append_assoc, append-nil, ◌||◌, if-induct,
}
use dds_pipe.Rpc.Text.{Text, codes}
use dds_pipe.Topics.{text_eq}
use dds_pipe.Topics.Order.{text_eq-eq, text_eq_self}
use dds_pipe.Schema.{
  TreeNode, Branches, leaf, branch, info, branches, newline, definition, is_written, write_nodes,
  schema_from_node, schema_from_tree,
}

abbrev pub name_of : TreeNode → Text
name_of n = (info n).type_kind_name

-- The first node of each struct whose name is not among those written
unfoldable pub new_structs : List Text → List TreeNode → List TreeNode
new_structs written [] = []
new_structs written (n ∷ ns) =
    let new = new_structs (name_of n ∷ written) ns in
    let old = new_structs written ns in
    if (info n).is_struct && not (is_written (name_of n) written) then n ∷ new else old

-- One line for each member: the name of its type, a space, and its own name
unfoldable pub member_lines : Branches → Text
member_lines leaf = []
member_lines (branch b bs) =
    (name_of b ++ (codes " " ++ ((info b).member_name ++ codes "\n"))) ++ member_lines bs

-- The definition of a type in the text of a message: a rule, a line with the name, and the members
unfoldable pub section : TreeNode → Text
unfolding member_lines
section n =
    codes "================================================================================\n"
    ++ ((codes "MSG: fastdds/" ++ (name_of n ++ codes "\n")) ++ member_lines (branches n))

unfoldable pub definitions : List TreeNode → Text
unfolding section
definitions [] = []
definitions (n ∷ ns) = section n ++ definitions ns

member_lines-schema : (bs : Branches) → schema_from_node bs ≡ member_lines bs
unfolding member_lines schema_from_node
member_lines-schema leaf = refl
member_lines-schema (branch b bs) = ground (
  arith,
  member_lines-schema bs,
  append_assoc (name_of b) (codes " " ++ ((info b).member_name ++ newline)) (member_lines bs),
  append_assoc (codes " ") ((info b).member_name ++ newline) (member_lines bs),
  append_assoc (info b).member_name newline (member_lines bs),
)

section-definition : (n : TreeNode) → definition n ≡ section n
unfolding definition section
section-definition n = ground (
  arith,
  member_lines-schema (branches n),
  append_assoc (codes "MSG: fastdds/") (name_of n ++ newline) (member_lines (branches n)),
  append_assoc (name_of n) newline (member_lines (branches n)),
)

-- Some of a list's nodes, each with its own place in the list and in its order
pub data AreAmong : List TreeNode → List TreeNode → Type 0 where
  none_left : AreAmong [] []
  chosen : {n : TreeNode} {ms ns : List TreeNode} → AreAmong ms ns → AreAmong (n ∷ ms) (n ∷ ns)
  passed : {n : TreeNode} {ms ns : List TreeNode} → AreAmong ms ns → AreAmong ms (n ∷ ns)

-- No name occurs twice.
abbrev pub AreDistinct : List Text → Type 0
AreDistinct [] = Unit
AreDistinct (s ∷ ss) = (is_written s ss ≡ false) × AreDistinct ss

-- Each struct has its name in a list.
abbrev pub AreDefined : List Text → List TreeNode → Type 0
AreDefined names [] = Unit
AreDefined names (n ∷ ns) =
    (((info n).is_struct ≡ false) ⊎ (is_written (name_of n) names ≡ true)) × AreDefined names ns

write_nodes-definitions :
    (written : List Text) (ss : Text) (ns : List TreeNode)
    → write_nodes written ss ns ≡ ss ++ definitions (new_structs written ns)
unfolding write_nodes new_structs definitions
write_nodes-definitions written ss [] = sym (append-nil ss)
write_nodes-definitions written ss (n ∷ ns) = ground (
  arith,
  write_nodes-definitions written ss ns,
  write_nodes-definitions (name_of n ∷ written) (ss ++ definition n) ns,
  section-definition n,
  append_assoc ss (section n) (definitions (new_structs (name_of n ∷ written) ns)),
)

abbrev names_of : List Text → List TreeNode → List Text
names_of written ns = map name_of (new_structs written ns)

is_written-same :
    (s t : Text) (written : List Text)
    → text_eq s t ≡ true
    → is_written s written ≡ is_written t written
is_written-same s t written e = ap (λ u. is_written u written) (text_eq-eq s t e)

new_structs-fresh :
    (s : Text) (written : List Text) (ns : List TreeNode)
    → is_written s written ≡ true
    → is_written s (names_of written ns) ≡ false
unfolding new_structs
new_structs-fresh s written [] h = refl
new_structs-fresh s written (n ∷ ns) h = ground (
  arith,
  new_structs-fresh s written ns,
  new_structs-fresh s (name_of n ∷ written) ns,
  is_written-same s (name_of n) written,
)

new_structs-AreDistinct :
    (written : List Text) (ns : List TreeNode) → AreDistinct (names_of written ns)
unfolding new_structs
new_structs-AreDistinct written [] = tt
new_structs-AreDistinct written (n ∷ ns) =
    if-induct (λ ms. AreDistinct (map name_of ms))
      ((info n).is_struct && not (is_written (name_of n) written))
      (n ∷ new_structs (name_of n ∷ written) ns) (new_structs written ns)
      (λ _. (
        new_structs-fresh (name_of n) (name_of n ∷ written) ns
            (ground (arith, text_eq_self (name_of n))),
        new_structs-AreDistinct (name_of n ∷ written) ns,
      ))
      (λ _. new_structs-AreDistinct written ns)

-- The same for names that are written or to be written.
abbrev AreCovered : List Text → List Text → List TreeNode → Type 0
AreCovered written names [] = Unit
AreCovered written names (n ∷ ns) =
    (((info n).is_struct ≡ false)
      ⊎ ((is_written (name_of n) written || is_written (name_of n) names) ≡ true))
    × AreCovered written names ns

AreCovered-move :
    (s : Text) (written names : List Text) (ns : List TreeNode)
    → AreCovered (s ∷ written) names ns
    → AreCovered written (s ∷ names) ns
AreCovered-move s written names [] c = tt
AreCovered-move s written names (n ∷ ns) c = (ground arith, AreCovered-move s written names ns c.1)

new_structs-AreCovered :
    (written : List Text) (ns : List TreeNode) → AreCovered written (names_of written ns) ns
unfolding new_structs
new_structs-AreCovered written [] = tt
new_structs-AreCovered written (n ∷ ns) =
    if-induct (λ ms. AreCovered written (map name_of ms) (n ∷ ns))
      ((info n).is_struct && not (is_written (name_of n) written))
      (n ∷ new_structs (name_of n ∷ written) ns) (new_structs written ns)
      (λ e. (
        inr (ground (arith, text_eq_self (name_of n))),
        AreCovered-move (name_of n) written (names_of (name_of n ∷ written) ns) ns
            (new_structs-AreCovered (name_of n ∷ written) ns),
      ))
      (λ e. (ground arith, new_structs-AreCovered written ns))

AreCovered-defined :
    (s : Text) (names : List Text) (ns : List TreeNode)
    → AreCovered (s ∷ []) names ns
    → AreDefined (s ∷ names) ns
AreCovered-defined s names [] c = tt
AreCovered-defined s names (n ∷ ns) c = (ground arith, AreCovered-defined s names ns c.1)

-- Each is a struct.
abbrev pub AreStructs : List TreeNode → Type 0
AreStructs [] = Unit
AreStructs (n ∷ ns) = ((info n).is_struct ≡ true) × AreStructs ns

new_structs-AreStructs :
    (written : List Text) (ns : List TreeNode) → AreStructs (new_structs written ns)
unfolding new_structs
new_structs-AreStructs written [] = tt
new_structs-AreStructs written (n ∷ ns) =
    if-induct AreStructs ((info n).is_struct && not (is_written (name_of n) written))
      (n ∷ new_structs (name_of n ∷ written) ns) (new_structs written ns)
      (λ e. (ground arith, new_structs-AreStructs (name_of n ∷ written) ns))
      (λ e. new_structs-AreStructs written ns)

new_structs-AreAmong :
    (written : List Text) (ns : List TreeNode) → AreAmong (new_structs written ns) ns
unfolding new_structs
new_structs-AreAmong written [] = none_left
new_structs-AreAmong written (n ∷ ns) =
    if-induct (λ ms. AreAmong ms (n ∷ ns))
      ((info n).is_struct && not (is_written (name_of n) written))
      (n ∷ new_structs (name_of n ∷ written) ns) (new_structs written ns)
      (λ e. chosen (new_structs-AreAmong (name_of n ∷ written) ns))
      (λ e. passed (new_structs-AreAmong written ns))

-- The schema of a tree is a line for each member of its top, and then a section for each of some of the
-- tree's nodes, in their order: a rule, the name, and a line for each member of the node. These nodes
-- are structs, no two of them have the same name nor has one the name of the top, and each struct
-- among the tree's nodes has the name of one of them or of the top.
pub schema-defines_once :
    (all_nodes : TreeNode → List TreeNode) (parent : TreeNode)
    → (defined : List TreeNode) × (schema_from_tree all_nodes parent
        ≡ member_lines (branches parent) ++ definitions defined)
      × AreAmong defined (all_nodes parent)
      × AreStructs defined
      × AreDistinct (name_of parent ∷ map name_of defined)
      × AreDefined (name_of parent ∷ map name_of defined) (all_nodes parent)
unfolding schema_from_tree
schema-defines_once all_nodes parent =
    let top = name_of parent ∷ [] in
    let ns = all_nodes parent in
    (
      new_structs top ns,
      write_nodes-definitions top (schema_from_node (branches parent)) ns
          ∙ ap (λ ss. ss ++ definitions (new_structs top ns))
              (member_lines-schema (branches parent)),
      new_structs-AreAmong top ns,
      new_structs-AreStructs top ns,
      (
        new_structs-fresh (name_of parent) top ns (ground (arith, text_eq_self (name_of parent))),
        new_structs-AreDistinct top ns,
      ),
      AreCovered-defined (name_of parent) (names_of top ns) ns (new_structs-AreCovered top ns),
    )
