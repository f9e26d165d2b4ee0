-- ===== src/Payload.antt =====
-- internal/south/payload.go: the rewriting of a task's workflow payload. Parsing and encoding YAML are
-- parameters.
pub mod Tree
pub mod Checkout
pub mod Urls
use forgery.Base.{
  ℕ, zero, suc, Str, text, Bool, true, false, not, ◌&&◌, ◌||◌, ◌==◌, str_eq, str_beq, nat_beq,
  Option, none, some, List, [], ◌∷◌, ◌++◌, length, is_empty, has_prefix, cut_prefix, cut, split,
  trim_space, if◌then◌else◌,
}
use forgery.Proto.{Task}
use forgery.Payload.Tree.{
  Kind, document, mapping, sequence, scalar, alias, Node, node, Nodes, nil, cons, kind, content,
  value_of, is_mapping, is_sequence, is_scalar, is_key, value_for, mapping_value, cons_both,
  set_with_input,
}
use forgery.Payload.Checkout.{inject_root}
use forgery.Payload.Urls.{normalize_text, flagged, rewrite_node}

-- go.yaml.in/yaml/v3, with an indentation of four
pub record Yaml : Type 0 where
  pub unmarshal : Str → Option Node
  pub encode : Node → Option Str

-- the content of the document's root, if the document is one and its root is a mapping
root_of : Node → Option (Node × Nodes)
root_of (node document meta v (cons (node mapping m w ns) rest)) = some (node mapping m w ns, rest)
root_of _ = none

-- the document with its root replaced
with_root : Node → Node → Nodes → Node
with_root (node k meta v ns) top rest = node k meta v (cons top rest)

module _ (yaml : Yaml) where
  -- An edit of the root. The original payload comes back where nothing changed, `none` on an error.
  edit_payload : (Node → Bool × Node) → Str → Option Str
  unfolding root_of with_root
  edit_payload edit payload = elim (yaml.unmarshal payload) [
    | none ↦ none
    | some doc ↦ elim (root_of doc) [
      | none ↦ none
      | some (top, rest) ↦
          let (changed, top') = edit top in
          if changed then yaml.encode (with_root doc top' rest) else some payload
    ]
  ]

  pub inject_checkout_server_url : Str → Str → Option Str
  unfolding edit_payload
  inject_checkout_server_url payload url = edit_payload (inject_root url) payload

  pub normalize_server_urls : Str → Str → Str → Option Str
  unfolding edit_payload
  normalize_server_urls payload url repository =
      edit_payload
        (λ top.
          let (top', changed) = rewrite_node (flagged (normalize_text url repository)) top false in
          (changed, top'))
        payload

  -- `none` is the failure of a step, after which the stored payload stands.
  pub rewritten_payload : Str → Str → Str → Option Str
  unfolding inject_checkout_server_url normalize_server_urls
  rewritten_payload payload url repository = elim (inject_checkout_server_url payload url) [
    | none ↦ none
    | some injected ↦ normalize_server_urls injected url repository
  ]

  rewrite_task : Task → Str → Str → Task
  unfolding rewritten_payload
  rewrite_task task url repository = elim (rewritten_payload task.workflow_payload url repository) [
    | none ↦ task
    | some payload ↦
        if payload == task.workflow_payload
        then task
        else record task { workflow_payload = payload }
  ]

  pub rewrite_workflow_payload : Option Task → Str → Str → Option Task
  unfolding rewrite_task
  rewrite_workflow_payload none url repository = none
  rewrite_workflow_payload (some task) url repository = some (
      if is_empty task.workflow_payload || is_empty url
      then task
      else rewrite_task task url repository)
