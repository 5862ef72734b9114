-- ===== src/Frontend/Markup.antt =====
-- What the components of frontend/src/components and frontend/src/pages return: elements with
-- properties and children, as React takes them. A property that is handed to a package and that the
-- source does not compute is kept as its text.
use aiself_healer.Common.{
  ℕ, ◌+◌, String, Bool, true, false, ◌&&◌, ◌||◌, Option, none, some, List, [], ◌∷◌, ◌++◌, ◌==◌, map,
}
use aiself_healer.Frontend.Snapshot.{Service}
use aiself_healer.Frontend.Shape.{Field, Row}
use aiself_healer.Frontend.Overview.{Element, Color, node_ids}
use aiself_healer.Frontend.Rows.{Cell}

-- What a handler of the page does: it changes the tab, selects a service, or runs an experiment on
-- the service that is shown.
pub data Action : Type 0 where
  set_active : String → Action
  select : String → Action
  run_chaos : String → Option String → Action

pub data Value : Type 0 where
  str : String → Value
  num : ℕ → Value
  literal : String → Value
  field_key : Option Field → Value
  click : Action → Value
  -- a handler that is given the id of a node
  tap : (String → Action) → Value
  -- what the chart and graph packages draw
  drawn : List Element → Value
  services : List (Service ℕ) → Value
  -- rows, each with the value that its rounded percentage is made of
  rows : List (Row × Option Field) → Value
  node_color : (ℕ → Color) → Value
  -- a width in fifteenths of a pixel
  edge_width : (ℕ → ℕ) → Value

abbrev pub Props : Type 0
Props = List (String × Value)

-- A number as it is printed: whole, the quotient of two with one decimal, or hundredths of a
-- percent, with two.
pub data Figure : Type 0 where
  whole : ℕ → Figure
  quotient : ℕ → ℕ → Figure
  percent_of_hundredths : ℕ → Figure

mutual
  pub data Node : Type 0 where
    words : String → Node
    figure : Figure → Node
    cell : Cell → Node
    el : String → Props → Nodes → Node

  pub data Nodes : Type 0 where
    nil : Nodes
    cons : Node → Nodes → Nodes

abbrev pub nodes : List Node → Nodes
nodes [] = nil
nodes (x ∷ xs) = cons x (nodes xs)

-- `{condition && <… />}` before what follows
abbrev pub when : Bool → Node → List Node → List Node
when true x rest = x ∷ rest
when false x rest = rest

-- an optional text that is a child
abbrev pub optional_text : Option String → List Node
optional_text none = []
optional_text (some s) = words s ∷ []

-- an element with a class
abbrev pub classed : String → String → List Node → Node
classed tag name children = el tag (("className", str name) ∷ []) (nodes children)

-- the actions that the properties of an element offer; a tap is on a node that is drawn
abbrev offered : List Element → Props → List Action
offered es [] = []
offered es ((name, click a) ∷ props) = a ∷ offered es props
offered es ((name, tap f) ∷ props) = map f (node_ids es) ++ offered es props
offered es ((name, drawn es') ∷ props) = offered es' props
offered es (_ ∷ props) = offered es props

-- all that a user can do on a page
unfoldable mutual
  pub actions : Node → List Action
  actions (words s) = []
  actions (figure n) = []
  actions (cell c) = []
  actions (el tag props children) = offered [] props ++ actions_all children

  pub actions_all : Nodes → List Action
  actions_all nil = []
  actions_all (cons x xs) = actions x ++ actions_all xs

abbrev one_if : Bool → ℕ
one_if true = 1
one_if false = 0

abbrev has_class : String → Props → Bool
has_class wanted [] = false
has_class wanted ((name, str s) ∷ props) =
    let rest = has_class wanted props in (name == "className" && s == wanted) || rest
has_class wanted (_ ∷ props) = has_class wanted props

-- how many elements of a page have a class
unfoldable mutual
  pub count_class : String → Node → ℕ
  count_class wanted (words s) = 0
  count_class wanted (figure n) = 0
  count_class wanted (cell c) = 0
  count_class wanted (el tag props children) =
      one_if (has_class wanted props) + count_class_all wanted children

  pub count_class_all : String → Nodes → ℕ
  count_class_all wanted nil = 0
  count_class_all wanted (cons x xs) = count_class wanted x + count_class_all wanted xs

-- how many elements of a tag a page has
unfoldable mutual
  pub count : String → Node → ℕ
  count tag (words s) = 0
  count tag (figure n) = 0
  count tag (cell c) = 0
  count tag (el name props children) = one_if (name == tag) + count_all tag children

  pub count_all : String → Nodes → ℕ
  count_all tag nil = 0
  count_all tag (cons x xs) = count tag x + count_all tag xs
