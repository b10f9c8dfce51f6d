-- ===== src/Cli/Templates/Tree.antt =====
-- What `_render_tree` of platform_sdk/cli/main.py makes of a directory of templates.
use ai_platform_sdk.Prelude.{
  ℕ, ◌≡◌, refl, ap, ◌∙◌, Bool, true, false, Option, none, some, List, [], ◌∷◌, All, arith,
  if◌then◌else◌,
}
use ai_platform_sdk.Cli.Templates.{
  is_within, replace, cap_words, shout, Placeholder, all_caps, capitals, as_given, written,
  substitute_name, Node, file, folder, Nodes, nothing, entry, renamed, rewritten, render_node,
  render_nodes, render_tree,
}
use ai_platform_sdk.Cli.Templates.Braces.{Braceless}
use ai_platform_sdk.Cli.Templates.Filled.{
  Part, PlainPart, template_text, filled, substitute_name-filled,
}

replace_absent :
    (p : Placeholder) (text s : List ℕ)
    → is_within (written p) s ≡ false
    → replace (written p) text 0 s ≡ s
unfolding replace is_within
replace_absent p text [] h = refl
replace_absent p text (c ∷ s) h = ground (arith, replace_absent p text s)

-- The test before a renaming changes nothing.
renamed-substitute_name : (name n : List ℕ) → renamed name n ≡ substitute_name n name
unfolding renamed substitute_name
renamed-substitute_name name n = ground (
  arith,
  replace_absent all_caps (shout name) n,
  replace_absent capitals (cap_words name) n,
  replace_absent as_given name n,
)

-- A directory of templates as its author sees it.
mutual
  pub data Sketch : Type 0 where
    sketch_file : List Part → Option (List Part) → Sketch
    sketch_folder : List Part → Sketches → Sketch

  pub data Sketches : Type 0 where
    nothing_left : Sketches
    sketch : Sketch → Sketches → Sketches

module _ (text_of : List Part → List ℕ) where
  abbrev pub text_or_none : Option (List Part) → Option (List ℕ)
  text_or_none none = none
  text_or_none (some ps) = some (text_of ps)

  unfoldable mutual
    pub drawn : Sketch → Node
    drawn (sketch_file n text) = file (text_of n) (text_or_none text)
    drawn (sketch_folder n ns) = folder (text_of n) (all_drawn ns)

    pub all_drawn : Sketches → Nodes
    all_drawn nothing_left = nothing
    all_drawn (sketch n ns) = entry (drawn n) (all_drawn ns)

abbrev pub PlainText : Option (List Part) → Type 0
PlainText none = Unit
PlainText (some ps) = All PlainPart ps

unfoldable mutual
  pub PlainSketch : Sketch → Type 0
  PlainSketch (sketch_file n text) = All PlainPart n × PlainText text
  PlainSketch (sketch_folder n ns) = All PlainPart n × PlainSketches ns

  pub PlainSketches : Sketches → Type 0
  PlainSketches nothing_left = Unit
  PlainSketches (sketch n ns) = PlainSketch n × PlainSketches ns

module _ (name : List ℕ) (b : Braceless name) where
  renamed-filled :
      (n : List Part) → All PlainPart n → renamed name (template_text n) ≡ filled name n
  renamed-filled n h =
      renamed-substitute_name name (template_text n) ∙ substitute_name-filled name n b h

  rewritten-filled :
      (text : Option (List Part))
      → PlainText text
      → rewritten name (text_or_none template_text text) ≡ text_or_none (filled name) text
  rewritten-filled none h = refl
  rewritten-filled (some ps) h = ap some (substitute_name-filled name ps b h)

  mutual
    unfolding render_node drawn PlainSketch

    render_node-filled :
        (d : Sketch)
        → PlainSketch d
        → render_node name (drawn template_text d) ≡ drawn (filled name) d
    render_node-filled (sketch_file n text) (h, k) =
        rw (renamed-filled n h, rewritten-filled text k) refl
    render_node-filled (sketch_folder n ns) (h, k) =
        rw (renamed-filled n h, render_nodes-filled ns k) refl

    render_nodes-filled :
        (ds : Sketches)
        → PlainSketches ds
        → render_nodes name (all_drawn template_text ds) ≡ all_drawn (filled name) ds
    render_nodes-filled nothing_left h = refl
    render_nodes-filled (sketch d ds) (h, hs) =
        rw (render_node-filled d h, render_nodes-filled ds hs) refl

-- A scaffold refuses a target that exists. Otherwise it has the files and directories of the
-- template, with the name filled in for every placeholder, in their own names too, and a file that
-- does not decode is only renamed. This is for a name without an opening brace and for templates in
-- which, between the placeholders, no two opening braces stand together, nor one at the end.
pub render_tree-filled :
    (exists : Bool) (name : List ℕ) (ds : Sketches)
    → Braceless name
    → PlainSketches ds
    → render_tree exists name (all_drawn template_text ds)
      ≡ (if exists then none else some (all_drawn (filled name) ds))
unfolding render_tree
render_tree-filled true name ds b h = refl
render_tree-filled false name ds b h = ap some (render_nodes-filled name b ds h)
