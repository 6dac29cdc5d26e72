-- ===== src/Schema.antt =====
-- The ROS 2 schema of a dynamic type (types/dynamic_types/schema_msg.cpp). Dynamic types are Fast DDS's
-- and trees of nodes are those of cpp_utils. `none` is an exception: a type that has no name in ROS 2.
pub mod Steps
pub mod Supported
pub mod Definitions
mod Tests
use dds_pipe.Base.{
  ℕ, zero, suc, ◌<◌, ◌≡◌, ◌⊎◌, Bool, true, false, not, List, [], ◌∷◌, ◌++◌, Option, none, some, ite,
  if◌then◌else◌, ◌==◌, ◌&&◌, any,
}
use dds_pipe.Rpc.Text.{Text, codes}
use dds_pipe.Topics.{text_eq}

-- `TypeKind` of Fast DDS; `other` is any other number.
pub data TypeKind : Type 0 where
  tk_boolean tk_byte tk_int16 tk_int32 tk_int64 tk_uint16 tk_uint32 tk_uint64 : TypeKind
  tk_float32 tk_float64 tk_float128 tk_char8 tk_char16 tk_string8 tk_string16 : TypeKind
  tk_array tk_sequence tk_structure tk_enum tk_bitset tk_map tk_union tk_none other : TypeKind

pub record DynamicTypes : Type 1 where
  pub DynamicType : Type 0
  pub get_kind : DynamicType → TypeKind
  -- `demangle_if_ros_type` of the name of a type, and of the names of its members in order
  pub demangled_name : DynamicType → Text
  pub members : DynamicType → List (Text × DynamicType)
  pub get_element_type : DynamicType → DynamicType
  pub get_total_bounds : DynamicType → ℕ
  pub bound_unlimited : ℕ
  -- What a stream prints for a number
  pub print : ℕ → Text
  -- How deep the definition of a type is: it is finite.
  pub depth : DynamicType → ℕ

-- `TreeNodeType`
pub record TreeNodeType : Type 0 where
  pub member_name : Text
  pub type_kind_name : Text
  pub is_struct : Bool

-- `utils::TreeNode<TreeNodeType>`: what a node says, and its branches
mutual
  pub data TreeNode : Type 0 where
    node : TreeNodeType → Branches → TreeNode

  pub data Branches : Type 0 where
    leaf : Branches
    branch : TreeNode → Branches → Branches

abbrev pub info : TreeNode → TreeNodeType
info (node i bs) = i

abbrev pub branches : TreeNode → Branches
branches (node i bs) = bs

-- The kinds that have a name of their own
abbrev pub simple_name : TypeKind → Option Text
simple_name tk_boolean = some (codes "bool")
simple_name tk_byte = some (codes "uint8")
simple_name tk_int16 = some (codes "int16")
simple_name tk_int32 = some (codes "int32")
simple_name tk_int64 = some (codes "int64")
simple_name tk_uint16 = some (codes "uint16")
simple_name tk_uint32 = some (codes "uint32")
simple_name tk_uint64 = some (codes "uint64")
simple_name tk_float32 = some (codes "float32")
simple_name tk_float64 = some (codes "float64")
simple_name tk_char8 = some (codes "int8")
simple_name tk_string8 = some (codes "string")
simple_name _ = none

module _ (x : DynamicTypes) where
  open x use {
    DynamicType, get_kind, demangled_name, members, get_element_type, get_total_bounds,
    bound_unlimited, print, depth,
  }

  -- The loop over the bounds, of which there is one
  unfoldable pub print_bound : Bool → ℕ → Text
  print_bound allow_bounded bound =
      if not (bound == bound_unlimited)
      then (if allow_bounded
          then codes "[<=" ++ (print bound ++ codes "]")
          else codes "[" ++ (print bound ++ codes "]"))
      else codes "[]"

  -- container_kind_to_str, on the name of the type of the elements
  unfoldable pub container_kind_to_str : Option Text → Bool → DynamicType → Option Text
  unfolding print_bound
  container_kind_to_str none allow_bounded t = none
  container_kind_to_str (some internal) allow_bounded t =
      some (internal ++ print_bound allow_bounded (get_total_bounds t))

  -- With the depth of a type as fuel
  unfoldable pub type_kind_to_str : ℕ → DynamicType → Option Text
  unfolding container_kind_to_str
  type_kind_to_str zero t = none
  type_kind_to_str (suc f) t =
      let internal = type_kind_to_str f (get_element_type t) in
      elim (get_kind t) [
        | tk_array ↦ container_kind_to_str internal false t
        | tk_sequence ↦ container_kind_to_str internal true t
        | tk_structure ↦ some (demangled_name t)
        | k ↦ simple_name k
      ]

  -- The loop over the members, whose trees become branches
  unfoldable pub add_branches :
      (Text → DynamicType → Option TreeNode) → List (Text × DynamicType) → Option Branches
  add_branches generate [] = some leaf
  add_branches generate ((name, t) ∷ ms) = elim (generate name t) [
    | none ↦ none
    | some b ↦ elim (add_branches generate ms) [ none ↦ none | some bs ↦ some (branch b bs) ]
  ]

  abbrev pub struct_node : Text → DynamicType → Option Branches → Option TreeNode
  struct_node name t none = none
  struct_node name t (some bs) =
      some (
        node (record { member_name = name; type_kind_name = demangled_name t; is_struct = true })
          bs)

  abbrev pub other_node : Text → Option Text → Option Branches → Option TreeNode
  other_node name none bs = none
  other_node name (some kind) none = none
  other_node name (some kind) (some bs) =
      some (node (record { member_name = name; type_kind_name = kind; is_struct = false }) bs)

  abbrev pub container_member : Text
  container_member = codes "CONTAINER_MEMBER"

  -- generate_dyn_type_tree, with the depth of a type as fuel
  unfoldable pub generate_tree : ℕ → Text → DynamicType → Option TreeNode
  unfolding type_kind_to_str add_branches
  generate_tree zero name t = none
  generate_tree (suc f) name t =
      let element = add_branches (generate_tree f) ((container_member, get_element_type t) ∷ []) in
      elim (get_kind t) [
        | tk_structure ↦ struct_node name t (add_branches (generate_tree f) (members t))
        | tk_array ↦ other_node name (type_kind_to_str (suc f) t) element
        | tk_sequence ↦ other_node name (type_kind_to_str (suc f) t) element
        | k ↦ other_node name (type_kind_to_str (suc f) t) (some leaf)
      ]

abbrev pub newline : Text
newline = 10 ∷ []

-- generate_schema_from_node, with `node_to_str` for each branch
unfoldable pub schema_from_node : Branches → Text
schema_from_node leaf = []
schema_from_node (branch b bs) =
    (info b).type_kind_name
    ++ (codes " " ++ ((info b).member_name ++ (newline ++ schema_from_node bs)))

abbrev pub type_separator : Text
type_separator =
    codes "================================================================================"
    ++ newline

-- A type after the separator
unfoldable pub definition : TreeNode → Text
unfolding schema_from_node
definition n =
    type_separator
    ++ (codes "MSG: fastdds/"
        ++ ((info n).type_kind_name ++ (newline ++ schema_from_node (branches n))))

abbrev pub is_written : Text → List Text → Bool
is_written name = any (text_eq name)

-- The loop over the nodes, with the names of the types written and the text
unfoldable pub write_nodes : List Text → Text → List TreeNode → Text
unfolding definition text_eq
write_nodes types_written ss [] = ss
write_nodes types_written ss (n ∷ ns) =
    let name = (info n).type_kind_name in
    let new = write_nodes (name ∷ types_written) (ss ++ definition n) ns in
    let old = write_nodes types_written ss ns in
    if (info n).is_struct && not (is_written name types_written) then new else old

-- generate_dyn_type_schema_from_tree; `all_nodes` is the tree's own.
unfoldable pub schema_from_tree : (TreeNode → List TreeNode) → TreeNode → Text
unfolding write_nodes schema_from_node
schema_from_tree all_nodes parent =
    write_nodes ((info parent).type_kind_name ∷ []) (schema_from_node (branches parent))
      (all_nodes parent)

-- generate_ros2_schema
unfoldable pub generate_ros2_schema :
    (x : DynamicTypes) → (TreeNode → List TreeNode) → x.DynamicType → Option Text
unfolding generate_tree schema_from_tree
generate_ros2_schema x all_nodes t = elim (generate_tree x (suc (x.depth t)) (codes "PARENT") t) [
  | none ↦ none
  | some parent ↦ some (schema_from_tree all_nodes parent)
]
