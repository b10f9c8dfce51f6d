-- ===== src/Introspection/Prompt/Order.antt =====
-- The order of the tables in the prompt of platform_sdk/schema_introspection.py.
use mathlib.Core.List.{Perm, perm_middle, append_assoc, append-nil}
use mathlib.Core.List.Perm
use ai_platform_sdk.Prelude.{
  String, ◌≡◌, refl, ap, subst, List, [], ◌∷◌, ◌++◌, map, All, Bool-cases, inl, inr, ◌==◌, eq_iff,
}
use ai_platform_sdk.Prelude.Sorting.{codes, at_most, place, sort}
use ai_platform_sdk.Prelude.Sorting.Laws.{Ordered, sort-Ordered, sort-perm}
use ai_platform_sdk.Introspection.Groups.{Groups, append_to, group_onto, groups_of}
use ai_platform_sdk.Introspection.Tables.{TableInfo}
use ai_platform_sdk.Introspection.Prompt.{text_equality, by_name, by_schema}

module _ {ℓ} {A : Type ℓ} where
  append_comm-perm : (xs ys : List A) → Perm (xs ++ ys) (ys ++ xs)
  append_comm-perm [] ys = rw append-nil Perm.rfl
  append_comm-perm (x ∷ xs) ys =
      Perm.trans (Perm.cons x (append_comm-perm xs ys)) (Perm.symm (perm_middle ys xs))

  append_swap-perm : (xs ys zs : List A) → Perm (xs ++ (ys ++ zs)) (ys ++ (xs ++ zs))
  append_swap-perm xs ys zs =
      rw⁻¹ (append_assoc xs ys zs, append_assoc ys xs zs)
        (Perm.append_right zs (append_comm-perm xs ys))

-- The tables as they are shown, each under the name of a schema.
abbrev pub labelled : String → List TableInfo → List (String × TableInfo)
labelled schema tables = map (λ t. (schema, t)) tables

abbrev pub shown : List (String × List TableInfo) → List (String × TableInfo)
shown [] = []
shown ((schema, tables) ∷ sections) = labelled schema tables ++ shown sections

labelled-append :
    (schema : String) (ts us : List TableInfo)
    → labelled schema (ts ++ us) ≡ labelled schema ts ++ labelled schema us
labelled-append schema [] us = refl
labelled-append schema (t ∷ ts) us = ap (λ r. (schema, t) ∷ r) (labelled-append schema ts us)

shown-append_to :
    (t : TableInfo) (sections : Groups String TableInfo)
    → Perm (shown (append_to text_equality t.schema t sections)) ((t.schema, t) ∷ shown sections)
unfolding append_to text_equality
shown-append_to t [] = Perm.rfl
shown-append_to t ((schema, ts) ∷ sections) = elim (Bool-cases (schema == t.schema)) [
  | inl h ↦
      rw (h, labelled-append, (eq_iff schema t.schema).0 h, append_assoc)
        (perm_middle (labelled t.schema ts) (shown sections))
  | inr h ↦ rw h (
      Perm.trans (Perm.append_left (labelled schema ts) (shown-append_to t sections))
        (perm_middle (labelled schema ts) (shown sections)))
]

shown-group_onto :
    (ts : List TableInfo) (sections : Groups String TableInfo)
    → Perm
        (shown (group_onto text_equality (λ t. t.schema) ts sections))
        (map (λ t. (t.schema, t)) ts ++ shown sections)
unfolding group_onto
shown-group_onto [] sections = Perm.rfl
shown-group_onto (t ∷ ts) sections =
    Perm.trans (shown-group_onto ts (append_to text_equality t.schema t sections)) (
      Perm.trans (Perm.append_left (map (λ t. (t.schema, t)) ts) (shown-append_to t sections))
        (perm_middle (map (λ t. (t.schema, t)) ts) (shown sections)))

shown-groups_of :
    (ts : List TableInfo)
    → Perm (shown (groups_of text_equality (λ t. t.schema) ts)) (map (λ t. (t.schema, t)) ts)
shown-groups_of ts =
    subst (λ l. Perm (shown (groups_of text_equality (λ t. t.schema) ts)) l)
      (append-nil (map (λ t. (t.schema, t)) ts)) (shown-group_onto ts [])

shown-place :
    (g : String × List TableInfo) (sections : List (String × List TableInfo))
    → Perm (shown (place (λ g. codes g.0) g sections)) (labelled g.0 g.1 ++ shown sections)
unfolding place
shown-place g [] = Perm.rfl
shown-place g (h ∷ sections) = elim (Bool-cases (at_most (codes g.0) (codes h.0))) [
  | inl e ↦ rw e Perm.rfl
  | inr e ↦ rw e (
      Perm.trans (Perm.append_left (labelled h.0 h.1) (shown-place g sections))
        (append_swap-perm (labelled h.0 h.1) (labelled g.0 g.1) (shown sections)))
]

shown-sort :
    (sections : List (String × List TableInfo))
    → Perm (shown (sort (λ g. codes g.0) sections)) (shown sections)
unfolding sort
shown-sort [] = Perm.rfl
shown-sort (g ∷ sections) =
    Perm.trans (shown-place g (sort (λ g. codes g.0) sections))
      (Perm.append_left (labelled g.0 g.1) (shown-sort sections))

shown-by_name :
    (sections : List (String × List TableInfo))
    → Perm (shown (map by_name sections)) (shown sections)
shown-by_name [] = Perm.rfl
shown-by_name ((schema, ts) ∷ sections) =
    Perm.append (Perm.map (λ t. (schema, t)) (sort-perm (λ t. codes t.name) ts))
      (shown-by_name sections)

map-by_name-Ordered :
    (sections : List (String × List TableInfo))
    → Ordered (λ g. codes g.0) sections
    → Ordered (λ g. codes g.0) (map by_name sections)
map-by_name-Ordered [] o = tt
map-by_name-Ordered (g ∷ []) o = tt
map-by_name-Ordered (g ∷ h ∷ sections) (e, o) = (e, map-by_name-Ordered (h ∷ sections) o)

-- The tables of a section are in the order of their names.
abbrev pub InOrder : String × List TableInfo → Type 0
InOrder g = Ordered (λ t. codes t.name) g.1

map-by_name-InOrder :
    (sections : List (String × List TableInfo)) → All InOrder (map by_name sections)
map-by_name-InOrder [] = tt
map-by_name-InOrder (g ∷ sections) =
    (sort-Ordered (λ t. codes t.name) g.1, map-by_name-InOrder sections)

-- The prompt shows every table of the database once and under the name of its own schema, whatever
-- the order in which they come; the schemas are in the order of their names, and so are the tables
-- of each schema.
pub by_schema-perm :
    (tables : List TableInfo)
    → Perm (shown (by_schema tables)) (map (λ t. (t.schema, t)) tables)
      × Ordered (λ g. codes g.0) (by_schema tables)
      × All InOrder (by_schema tables)
unfolding by_schema
by_schema-perm tables =
    let sections = groups_of text_equality (λ t. t.schema) tables in
    let sorted = sort (λ g. codes g.0) sections in
    (
      Perm.trans (shown-by_name sorted) (Perm.trans (shown-sort sections) (shown-groups_of tables)),
      map-by_name-Ordered sorted (sort-Ordered (λ g. codes g.0) sections),
      map-by_name-InOrder sorted,
    )
