-- ===== src/Schema/Supported.antt =====
-- Which dynamic types have a schema.
use dds_pipe.Base.{
  ℕ, zero, suc, ◌≤◌, ◌<◌, ◌≡◌, ◌≢◌, ◌↔◌, refl, ap, ◌∙◌, inl, inr, Bool, true, false, List, [], ◌∷◌,
  ◌++◌, Option, none, some, arith, Option-cases,
}
use dds_pipe.Rpc.Text.{Text, codes}
use dds_pipe.Schema.Steps.{
  str-simple, str-structure, str-array, str-sequence, tree-simple, tree-structure, tree-array,
  tree-sequence, element, is_made,
}
use dds_pipe.Schema.{
  DynamicTypes, TypeKind, tk_array, tk_sequence, tk_structure, simple_name, tk_boolean, tk_byte,
  tk_int16, tk_int32, tk_int64, tk_uint16, tk_uint32, tk_uint64, tk_float32, tk_float64, tk_char8,
  tk_string8, TreeNode, Branches, leaf, branch, print_bound, type_kind_to_str,
  container_kind_to_str, add_branches, generate_tree, generate_ros2_schema, schema_from_tree,
  struct_node, other_node, container_member,
}

-- The primitive kinds that a message of ROS 2 may have: Booleans, bytes, signed and unsigned integers of 16,
-- 32 and 64 bits, floating point numbers of 32 and 64 bits, and characters and strings of 8 bits.
pub data IsPrimitive : TypeKind → Type 0 where
  a_boolean : IsPrimitive tk_boolean
  a_byte : IsPrimitive tk_byte
  a_int16 : IsPrimitive tk_int16
  a_int32 : IsPrimitive tk_int32
  a_int64 : IsPrimitive tk_int64
  a_uint16 : IsPrimitive tk_uint16
  a_uint32 : IsPrimitive tk_uint32
  a_uint64 : IsPrimitive tk_uint64
  a_float32 : IsPrimitive tk_float32
  a_float64 : IsPrimitive tk_float64
  a_char8 : IsPrimitive tk_char8
  a_string8 : IsPrimitive tk_string8

IsPrimitive-named : {k : TypeKind} → IsPrimitive k → (s : Text) × (simple_name k ≡ some s)
IsPrimitive-named a_boolean = (_, refl)
IsPrimitive-named a_byte = (_, refl)
IsPrimitive-named a_int16 = (_, refl)
IsPrimitive-named a_int32 = (_, refl)
IsPrimitive-named a_int64 = (_, refl)
IsPrimitive-named a_uint16 = (_, refl)
IsPrimitive-named a_uint32 = (_, refl)
IsPrimitive-named a_uint64 = (_, refl)
IsPrimitive-named a_float32 = (_, refl)
IsPrimitive-named a_float64 = (_, refl)
IsPrimitive-named a_char8 = (_, refl)
IsPrimitive-named a_string8 = (_, refl)

named-IsPrimitive : (k : TypeKind) {s : Text} → simple_name k ≡ some s → IsPrimitive k
named-IsPrimitive tk_boolean e = a_boolean
named-IsPrimitive tk_byte e = a_byte
named-IsPrimitive tk_int16 e = a_int16
named-IsPrimitive tk_int32 e = a_int32
named-IsPrimitive tk_int64 e = a_int64
named-IsPrimitive tk_uint16 e = a_uint16
named-IsPrimitive tk_uint32 e = a_uint32
named-IsPrimitive tk_uint64 e = a_uint64
named-IsPrimitive tk_float32 e = a_float32
named-IsPrimitive tk_float64 e = a_float64
named-IsPrimitive tk_char8 e = a_char8
named-IsPrimitive tk_string8 e = a_string8
named-IsPrimitive k e = cc

module _ (x : DynamicTypes) where
  open x use {DynamicType, get_kind, members, get_element_type, depth}

  -- Each type that the definition of a type is made of is primitive, an array, a sequence or a structure.
  mutual
    pub data IsSupported : DynamicType → Type 0 where
      simple : {t : DynamicType} → IsPrimitive (get_kind t) → IsSupported t
      array :
          {t : DynamicType}
          → get_kind t ≡ tk_array
          → IsSupported (get_element_type t)
          → IsSupported t
      sequence :
          {t : DynamicType}
          → get_kind t ≡ tk_sequence
          → IsSupported (get_element_type t)
          → IsSupported t
      structure :
          {t : DynamicType} → get_kind t ≡ tk_structure → AreSupported (members t) → IsSupported t

    pub data AreSupported : List (Text × DynamicType) → Type 0 where
      nil : AreSupported []
      cons :
          {name : Text} {t : DynamicType} {ms : List (Text × DynamicType)}
          → IsSupported t
          → AreSupported ms
          → AreSupported ((name, t) ∷ ms)

  -- The members of a structure are less deep than it.
  abbrev pub AreShallower : ℕ → List (Text × DynamicType) → Type 0
  AreShallower d [] = Unit
  AreShallower d ((name, t) ∷ ms) = (depth t < d) × AreShallower d ms

  abbrev Has : {A : Type 0} → Option A → Type 0
  Has {A} o = (a : A) × (o ≡ some a)

  -- Definitions are finite: the elements of a container and the members of a structure are less deep.
  pub record IsFinite : Type 0 where
    pub depth-array :
        (t : DynamicType) → get_kind t ≡ tk_array → depth (get_element_type t) < depth t
    pub depth-sequence :
        (t : DynamicType) → get_kind t ≡ tk_sequence → depth (get_element_type t) < depth t
    pub depth-members :
        (t : DynamicType) → get_kind t ≡ tk_structure → AreShallower (depth t) (members t)

  AreShallower-le :
      (d f : ℕ) (ms : List (Text × DynamicType)) → d ≤ f → AreShallower d ms → AreShallower f ms
  AreShallower-le d f [] h a = tt
  AreShallower-le d f ((name, t) ∷ ms) h a = (omega (arith, a.0), AreShallower-le d f ms h a.1)

  container-some :
      (s : Text) (b : Bool) (t : DynamicType)
      → container_kind_to_str x (some s) b t ≡ some (s ++ print_bound x b (x.get_total_bounds t))
  unfolding container_kind_to_str
  container-some s b t = refl

  made-unnamed : (k : TypeKind) {s : Text} → simple_name k ≡ some s → is_made k ≡ false
  made-unnamed tk_array e = cc
  made-unnamed tk_sequence e = cc
  made-unnamed tk_structure e = cc
  made-unnamed k e = refl

  str-Has :
      (f : ℕ) {t : DynamicType}
      → IsFinite
      → IsSupported t
      → depth t < f
      → Has (type_kind_to_str x f t)
  str-Has zero fin h b = absurd (omega arith)
  str-Has (suc f) {t} fin (simple p) b =
      let (s, e) = IsPrimitive-named p in
      (s, str-simple x f t (get_kind t) (made-unnamed (get_kind t) e) refl ∙ e)
  str-Has (suc f) {t} fin (structure e h) b = (_, str-structure x f t e)
  str-Has (suc f) {t} fin (array e h) b =
      let (s, r) = str-Has f fin h (omega (arith, fin.depth-array t e)) in
      (
        _,
        str-array x f t e
            ∙ ap (λ o. container_kind_to_str x o false t) r
            ∙ container-some s false t,
      )
  str-Has (suc f) {t} fin (sequence e h) b =
      let (s, r) = str-Has f fin h (omega (arith, fin.depth-sequence t e)) in
      (
        _,
        str-sequence x f t e
            ∙ ap (λ o. container_kind_to_str x o true t) r
            ∙ container-some s true t,
      )

  branches-Has :
      (f : ℕ) (g : Text → DynamicType → Option TreeNode) (ms : List (Text × DynamicType))
      → ((name : Text) (t : DynamicType) → IsSupported t → depth t < f → Has (g name t))
      → AreSupported ms
      → AreShallower f ms
      → Has (add_branches x g ms)
  unfolding add_branches
  branches-Has f g [] each h b = (leaf, refl)
  branches-Has f g ((name, t) ∷ ms) each (cons h hs) b =
      let (n, e) = each name t h b.0 in
      let (bs, es) = branches-Has f g ms each hs b.1 in (branch n bs, ground (arith, e, es))

  tree-Has :
      (f : ℕ)
      → IsFinite
      → (name : Text) (t : DynamicType) → IsSupported t
      → depth t < f
      → Has (generate_tree x f name t)
  tree-Has zero fin name t h b = absurd (omega arith)
  tree-Has (suc f) fin name t (simple p) b =
      let (s, e) = IsPrimitive-named p in
      (
        _,
        tree-simple x f t (get_kind t) (made-unnamed (get_kind t) e) refl name
            ∙ ap (λ o. other_node x name o (some leaf)) e,
      )
  tree-Has (suc f) fin name t (structure e h) b =
      let (bs, es) =
        branches-Has f (generate_tree x f) (members t) (tree-Has f fin) h
          (AreShallower-le (depth t) f (members t) (omega arith) (fin.depth-members t e)) in
      (_, tree-structure x f t name e ∙ ap (struct_node x name t) es)
  tree-Has (suc f) fin name t (array e h) b =
      let (s, r) = str-Has (suc f) fin (array e h) b in
      let (bs, es) =
        branches-Has f (generate_tree x f) _ (tree-Has f fin)
          (cons {name = container_member x} h nil) (omega (arith, fin.depth-array t e), tt) in
      (
        _,
        tree-array x f t name e
            ∙ ap (λ o. other_node x name o (element x f t)) r
            ∙ ap (other_node x name (some s)) es,
      )
  tree-Has (suc f) fin name t (sequence e h) b =
      let (s, r) = str-Has (suc f) fin (sequence e h) b in
      let (bs, es) =
        branches-Has f (generate_tree x f) _ (tree-Has f fin)
          (cons {name = container_member x} h nil) (omega (arith, fin.depth-sequence t e), tt) in
      (
        _,
        tree-sequence x f t name e
            ∙ ap (λ o. other_node x name o (element x f t)) r
            ∙ ap (other_node x name (some s)) es,
      )

  branches-AreSupported :
      (g : Text → DynamicType → Option TreeNode) (ms : List (Text × DynamicType)) (bs : Branches)
      → ((name : Text) (t : DynamicType) (n : TreeNode) → g name t ≡ some n → IsSupported t)
      → add_branches x g ms ≡ some bs
      → AreSupported ms
  unfolding add_branches
  branches-AreSupported g [] bs each e = nil
  branches-AreSupported g ((name, t) ∷ ms) bs each e = elim (Option-cases (g name t)) [
    | inl none_here ↦ ground (arith, none_here, e)
    | inr (n, here) ↦ elim (Option-cases (add_branches x g ms)) [
      | inl none_there ↦ ground (arith, here, none_there, e)
      | inr (bs', there) ↦ cons (each name t n here) (branches-AreSupported g ms bs' each there)
    ]
  ]

  first_supported : {name : Text} {t : DynamicType} → AreSupported ((name, t) ∷ []) → IsSupported t
  first_supported (cons h hs) = h

  module _ (f : ℕ) (name : Text) (t : DynamicType) (n : TreeNode)
      (each : (name : Text) (t : DynamicType) (n : TreeNode)
        → generate_tree x f name t ≡ some n
        → IsSupported t)
      (e : generate_tree x (suc f) name t ≡ some n) where
    of_element : element x f t ≢ none → IsSupported (get_element_type t)
    of_element h = elim (Option-cases (element x f t)) [
      | inl gone ↦ absurd (h gone)
      | inr (bs, there) ↦
          first_supported (branches-AreSupported (generate_tree x f) _ bs each there)
    ]

    no_element :
        (kind : Option Text)
        → element x f t ≡ none
        → ¬ (generate_tree x (suc f) name t ≡ other_node x name kind (element x f t))
    no_element none gone h = ground (arith, e, h)
    no_element (some kind) gone h = ground (arith, gone, e, h)

    by_kind : (k : TypeKind) → get_kind t ≡ k → IsSupported t
    by_kind tk_structure k = elim (Option-cases (add_branches x (generate_tree x f) (members t))) [
      | inl gone ↦ ground (arith, gone, tree-structure x f t name k, e)
      | inr (bs, there) ↦
          structure k (branches-AreSupported (generate_tree x f) (members t) bs each there)
    ]
    by_kind tk_array k = array k (
        of_element
          (λ gone. no_element (type_kind_to_str x (suc f) t) gone (tree-array x f t name k)))
    by_kind tk_sequence k = sequence k (
        of_element
          (λ gone. no_element (type_kind_to_str x (suc f) t) gone (tree-sequence x f t name k)))
    by_kind k q = elim (Option-cases (simple_name k)) [
      | inl gone ↦ ground (arith, gone, tree-simple x f t k refl q name, e)
      | inr (s, there) ↦ simple (named-IsPrimitive (get_kind t) (ap simple_name q ∙ there))
    ]

  tree-IsSupported :
      (f : ℕ) (name : Text) (t : DynamicType) (n : TreeNode)
      → generate_tree x f name t ≡ some n
      → IsSupported t
  unfolding generate_tree
  tree-IsSupported zero name t n e = cc
  tree-IsSupported (suc f) name t n e = by_kind f name t n (tree-IsSupported f) e (get_kind t) refl

  abbrev with_schema : (TreeNode → List TreeNode) → Option TreeNode → Option Text
  with_schema all_nodes o = elim o [
    | none ↦ none
    | some parent ↦ some (schema_from_tree all_nodes parent)
  ]

  -- When the definitions of types are finite: a type has a schema, and none of the calls throws, exactly
  -- when each type that its definition is made of is an array, a sequence, a structure, or of one of the
  -- twelve primitive kinds that a message of ROS 2 may have.
  pub has_schema-IsSupported :
      (all_nodes : TreeNode → List TreeNode) (t : DynamicType)
      → IsFinite
      → ((schema : Text) × (generate_ros2_schema x all_nodes t ≡ some schema)) ↔ IsSupported t
  unfolding generate_ros2_schema
  has_schema-IsSupported all_nodes t fin = (there, back)
    where
      there : ((schema : Text) × (generate_ros2_schema x all_nodes t ≡ some schema)) → IsSupported t
      there (schema, e) = elim (Option-cases (generate_tree x (suc (depth t)) (codes "PARENT") t)) [
        | inl gone ↦ ground (arith, gone, e)
        | inr (n, made) ↦ tree-IsSupported (suc (depth t)) (codes "PARENT") t n made
      ]

      back : IsSupported t → ((schema : Text) × (generate_ros2_schema x all_nodes t ≡ some schema))
      back h =
          let (n, made) = tree-Has (suc (depth t)) fin (codes "PARENT") t h (omega arith) in
          (_, ap (with_schema all_nodes) made)
