-- ===== src/Payload/Tree.antt =====
-- internal/south/payload.go: the tree of a YAML document and the edit of a step's inputs. A
-- `yaml.Node` is a tree; its tag, style, anchors and comments, which the code does not read, are one
-- string.
pub mod Inputs
use forgery.Base.{
  Str, text, Bool, true, false, ◌&&◌, ◌==◌, str_eq, Option, none, some, [], if◌then◌else◌,
}

pub data Kind : Type 0 where
  document mapping sequence scalar alias : Kind

mutual
  pub data Node : Type 0 where
    node : Kind → Str → Str → Nodes → Node

  pub data Nodes : Type 0 where
    nil : Nodes
    cons : Node → Nodes → Nodes

abbrev pub kind : Node → Kind
kind (node k meta v ns) = k

abbrev pub content : Node → Nodes
content (node k meta v ns) = ns

abbrev pub value_of : Node → Str
value_of (node k meta v ns) = v

abbrev pub is_mapping : Kind → Bool
is_mapping mapping = true
is_mapping _ = false

abbrev pub is_sequence : Kind → Bool
is_sequence sequence = true
is_sequence _ = false

abbrev pub is_scalar : Kind → Bool
is_scalar scalar = true
is_scalar _ = false

-- a key of a mapping: a scalar with that text
abbrev pub is_key : Str → Node → Bool
is_key key n = is_scalar (kind n) && value_of n == key

-- Content holds keys and values in turn.
pub value_for : Str → Nodes → Option Node
value_for key nil = none
value_for key (cons k nil) = none
value_for key (cons k (cons v rest)) =
    let later = value_for key rest in if is_key key k then some v else later

pub mapping_value : Node → Str → Option Node
unfolding value_for
mapping_value m key = value_for key (content m)

-- a plain string scalar, with the tag !!str
abbrev pub str_node : Str → Node
str_node s = node scalar (text "!!str") s nil

abbrev pub map_node : Nodes → Node
map_node ns = node mapping (text "!!map") [] ns

pub append_pair : Nodes → Node → Node → Nodes
append_pair nil k v = cons k (cons v nil)
append_pair (cons n ns) k v = cons n (append_pair ns k v)

abbrev pub cons_both : Node → Node → Bool × Nodes → Bool × Nodes
cons_both k v (changed, ns) = (changed, cons k (cons v ns))

-- the loop over an existing with block: whether it changed, and its content afterwards
pub set_input : Str → Str → Nodes → Bool × Nodes
set_input input value nil = (true, cons (str_node input) (cons (str_node value) nil))
set_input input value (cons k nil) =
    (true, cons k (cons (str_node input) (cons (str_node value) nil)))
set_input input value (cons k (cons v rest)) =
    let later = cons_both k v (set_input input value rest) in
    if is_key input k
    then (if value_of v == value
        then (false, cons k (cons v rest))
        else (true, cons k (cons (str_node value) rest)))
    else later

-- the with block itself; one that is no mapping stays
set_in_block : Str → Str → Node → Bool × Node
unfolding set_input
set_in_block input value (node mapping meta v ns) =
    let (changed, ns') = set_input input value ns in (changed, node mapping meta v ns')
set_in_block input value (node k meta v ns) = (false, node k meta v ns)

-- the content of a step: the first with block is edited, or a new one is appended
pub set_in_step : Str → Str → Nodes → Bool × Nodes
unfolding set_in_block
set_in_step input value nil = (
  true,
  cons (str_node (text "with"))
      (cons (map_node (cons (str_node input) (cons (str_node value) nil))) nil),
)
set_in_step input value (cons k nil) = (
  true,
  cons k (
      cons (str_node (text "with"))
        (cons (map_node (cons (str_node input) (cons (str_node value) nil))) nil)),
)
set_in_step input value (cons k (cons v rest)) =
    let later = cons_both k v (set_in_step input value rest) in
    let (changed, v') = set_in_block input value v in
    if is_key (text "with") k then (changed, cons k (cons v' rest)) else later

pub set_with_input : Node → Str → Str → Bool × Node
unfolding set_in_step
set_with_input (node k meta v ns) input value =
    let (changed, ns') = set_in_step input value ns in (changed, node k meta v ns')
