-- ===== src/Schema/Steps.antt =====
-- One step of the recursion over a dynamic type, by its kind.
use dds_pipe.Base.{ℕ, suc, ◌≡◌, refl, ap, Bool, false, true, [], ◌∷◌, Option, some}
use dds_pipe.Rpc.Text.{Text}
use dds_pipe.Schema.{
  DynamicTypes, TypeKind, tk_array, tk_sequence, tk_structure, simple_name, Branches, leaf,
  type_kind_to_str, container_kind_to_str, add_branches, generate_tree, struct_node, other_node,
  container_member,
}

-- The kinds that are made of other types
abbrev pub is_made : TypeKind → Bool
is_made tk_array = true
is_made tk_sequence = true
is_made tk_structure = true
is_made _ = false

module _ (x : DynamicTypes) where
  open x use {DynamicType, get_kind, members, get_element_type}

  module _ (f : ℕ) (t : DynamicType) where
    pub str-simple :
        (k : TypeKind)
        → is_made k ≡ false
        → get_kind t ≡ k
        → type_kind_to_str x (suc f) t ≡ simple_name k
    unfolding type_kind_to_str
    str-simple tk_array b e = cc
    str-simple tk_sequence b e = cc
    str-simple tk_structure b e = cc
    str-simple k b e = rw (e, type_kind_to_str) refl

    pub tree-simple :
        (k : TypeKind)
        → is_made k ≡ false
        → get_kind t ≡ k
        → (name : Text)
        → generate_tree x (suc f) name t ≡ other_node x name (simple_name k) (some leaf)
    unfolding generate_tree
    tree-simple tk_array b e name = cc
    tree-simple tk_sequence b e name = cc
    tree-simple tk_structure b e name = cc
    tree-simple k b e name =
        rw (e, generate_tree) (ap (λ o. other_node x name o (some leaf)) (str-simple k b e))

    pub tree-structure :
        (name : Text)
        → get_kind t ≡ tk_structure
        → generate_tree x (suc f) name t
          ≡ struct_node x name t (add_branches x (generate_tree x f) (members t))
    unfolding generate_tree
    tree-structure name e = rw (e, generate_tree) refl

    abbrev pub element : Option Branches
    element = add_branches x (generate_tree x f) ((container_member x, get_element_type t) ∷ [])

    pub tree-array :
        (name : Text)
        → get_kind t ≡ tk_array
        → generate_tree x (suc f) name t ≡ other_node x name (type_kind_to_str x (suc f) t) element
    unfolding generate_tree
    tree-array name e = rw (e, generate_tree) refl

    pub tree-sequence :
        (name : Text)
        → get_kind t ≡ tk_sequence
        → generate_tree x (suc f) name t ≡ other_node x name (type_kind_to_str x (suc f) t) element
    unfolding generate_tree
    tree-sequence name e = rw (e, generate_tree) refl

    pub str-structure :
        get_kind t ≡ tk_structure → type_kind_to_str x (suc f) t ≡ some (x.demangled_name t)
    unfolding type_kind_to_str
    str-structure e = rw (e, type_kind_to_str) refl

    pub str-array :
        get_kind t ≡ tk_array
        → type_kind_to_str x (suc f) t
          ≡ container_kind_to_str x (type_kind_to_str x f (get_element_type t)) false t
    unfolding type_kind_to_str
    str-array e = rw (e, type_kind_to_str) refl

    pub str-sequence :
        get_kind t ≡ tk_sequence
        → type_kind_to_str x (suc f) t
          ≡ container_kind_to_str x (type_kind_to_str x f (get_element_type t)) true t
    unfolding type_kind_to_str
    str-sequence e = rw (e, type_kind_to_str) refl
