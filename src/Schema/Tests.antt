-- ===== src/Schema/Tests.antt =====
-- The schema of a line between two points.
use dds_pipe.Base.{ℕ, ◌<◌, ◌≡◌, ◌↔◌, refl, true, false, List, [], ◌∷◌, ◌++◌, map, none, some, arith}
use dds_pipe.Rpc.Text.{Text, codes}
use dds_pipe.Schema.{
  DynamicTypes, TypeKind, tk_int32, tk_structure, tk_map, tk_array, tk_sequence, TreeNode, Branches,
  node, leaf, branch, branches, generate_ros2_schema, schema_from_tree, newline, type_separator,
}
use dds_pipe.Schema.Definitions.{
  name_of, definitions, member_lines, AreAmong, AreStructs, AreDistinct, AreDefined,
  schema-defines_once,
}
use dds_pipe.Schema.Supported.{IsFinite, IsSupported, AreShallower, has_schema-IsSupported}

data Shape : Type 0 where
  number point line dictionary : Shape

abbrev kind : Shape → TypeKind
kind number = tk_int32
kind point = tk_structure
kind line = tk_structure
kind dictionary = tk_map

abbrev name : Shape → Text
name number = codes "int"
name point = codes "Point"
name line = codes "Line"
name dictionary = codes "Dictionary"

abbrev parts : Shape → List (Text × Shape)
parts point = (codes "x", number) ∷ []
parts line = (codes "from", point) ∷ (codes "to", point) ∷ []
parts _ = []

abbrev depth_of : Shape → ℕ
depth_of line = 2
depth_of point = 1
depth_of _ = 0

abbrev shapes : DynamicTypes
shapes = record {
  DynamicType = Shape;
  get_kind = kind;
  demangled_name = name;
  members = parts;
  get_element_type = λ t. number;
  get_total_bounds = λ t. 0;
  bound_unlimited = 0;
  print = λ n. [];
  depth = depth_of;
}

abbrev below : Branches → List TreeNode
below leaf = []
below (branch b bs) = b ∷ below bs

abbrev all_nodes : TreeNode → List TreeNode
all_nodes t = below (branches t)

-- Both members are points, which are defined once.
line_schema :
    generate_ros2_schema shapes all_nodes line
    ≡ some (
        codes "Point from"
        ++ newline
        ++ codes "Point to"
        ++ newline
        ++ type_separator
        ++ codes "MSG: fastdds/Point"
        ++ newline
        ++ codes "int32 x"
        ++ newline)
unfolding generate_ros2_schema
line_schema = refl

no_map : generate_ros2_schema shapes all_nodes dictionary ≡ none
unfolding generate_ros2_schema
no_map = refl

no_array : (t : Shape) → kind t ≡ tk_array → 0 < depth_of t
no_array number e = cc
no_array t e = cc

no_sequence : (t : Shape) → kind t ≡ tk_sequence → 0 < depth_of t
no_sequence number e = cc
no_sequence t e = cc

shallower : (t : Shape) → kind t ≡ tk_structure → AreShallower shapes (depth_of t) (parts t)
shallower number e = cc
shallower dictionary e = cc
shallower point e = (omega arith, tt)
shallower line e = (omega arith, (omega arith, tt))

abbrev finite : IsFinite shapes
finite = record { depth-array = no_array; depth-sequence = no_sequence; depth-members = shallower }

has_schema-IsSupported_example :
    ((schema : Text) × (generate_ros2_schema shapes all_nodes line ≡ some schema))
    ↔ IsSupported shapes line
has_schema-IsSupported_example = has_schema-IsSupported shapes all_nodes line finite

abbrev number_node : Text → TreeNode
number_node member =
    node (record { member_name = member; type_kind_name = codes "int32"; is_struct = false }) leaf

abbrev point_node : Text → TreeNode
point_node member =
    node (record { member_name = member; type_kind_name = codes "Point"; is_struct = true })
      (branch (number_node (codes "x")) leaf)

abbrev line_node : TreeNode
line_node =
    node (record { member_name = codes "PARENT"; type_kind_name = codes "Line"; is_struct = true })
      (branch (point_node (codes "from")) (branch (point_node (codes "to")) leaf))

schema-defines_once_example :
    (defined : List TreeNode) × (schema_from_tree all_nodes line_node
      ≡ member_lines (branches line_node) ++ definitions defined)
    × AreAmong defined (all_nodes line_node)
    × AreStructs defined
    × AreDistinct (codes "Line" ∷ map name_of defined)
    × AreDefined (codes "Line" ∷ map name_of defined) (all_nodes line_node)
schema-defines_once_example = schema-defines_once all_nodes line_node
