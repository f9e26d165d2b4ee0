-- ===== src/Payload/Checkout.antt =====
-- internal/south/payload.go: which steps check a repository out, and the server URL they are given.
use forgery.Base.{
  Str, text, Bool, false, ◌&&◌, ◌||◌, ◌==◌, str_eq, Option, none, some, List, [], ◌∷◌, has_prefix,
  cut_prefix, cut, split, trim_space, if◌then◌else◌,
}
use forgery.Payload.Tree.{
  Node, node, Nodes, nil, cons, kind, value_of, is_mapping, is_sequence, is_scalar, is_key,
  mapping_value, cons_both, set_with_input,
}

-- what follows an optional scheme and host; a scheme with no path is no action
strip_scheme : Str → Option Str
strip_scheme u = elim (cut_prefix u (text "https://")) [
  | some after ↦ elim (cut b'/' after) [ none ↦ none | some (host, rest) ↦ some rest ]
  | none ↦ elim (cut_prefix u (text "http://")) [
    | some after ↦ elim (cut b'/' after) [ none ↦ none | some (host, rest) ↦ some rest ]
    | none ↦ some u
  ]
]

strip_ref : Str → Str
strip_ref u = elim (cut b'@' u) [ none ↦ u | some (before, after) ↦ before ]

abbrev is_checkout_pair : Str → Str → Bool
is_checkout_pair a b = a == text "actions" && b == text "checkout"

-- whether the last two segments are actions/checkout
ends_in_checkout : List Str → Bool
ends_in_checkout [] = false
ends_in_checkout (a ∷ []) = false
ends_in_checkout (a ∷ b ∷ []) = is_checkout_pair a b
ends_in_checkout (a ∷ b ∷ c ∷ segs) = ends_in_checkout (b ∷ c ∷ segs)

begins_with_checkout : List Str → Bool
begins_with_checkout [] = false
begins_with_checkout (a ∷ []) = false
begins_with_checkout (a ∷ b ∷ segs) = is_checkout_pair a b

pub is_checkout_uses : Str → Bool
unfolding strip_scheme strip_ref ends_in_checkout begins_with_checkout
is_checkout_uses uses =
    let u = trim_space uses in
    if has_prefix u (text "docker://") || (has_prefix u (text "./") || has_prefix u (text "../"))
    then false
    else elim (strip_scheme u) [
      | none ↦ false
      | some action ↦
          let segs = split b'/' (strip_ref action) in
          begins_with_checkout segs || ends_in_checkout segs
    ]

abbrev cons_changed : Node → Bool × Nodes → Bool × Nodes
cons_changed n (changed, ns) = (changed, cons n ns)

abbrev both : Bool × Node → Bool × Nodes → Bool × Nodes
both (a, n) (b, ns) = (a || b, cons n ns)

abbrev is_checkout_scalar : Option Node → Bool
is_checkout_scalar none = false
is_checkout_scalar (some n) = is_scalar (kind n) && is_checkout_uses (value_of n)

-- one round of the loop over the steps
pub inject_step : Str → Node → Bool × Node
inject_step url step =
    if is_mapping (kind step) && is_checkout_scalar (mapping_value step (text "uses"))
    then set_with_input step (text "github-server-url") url
    else (false, step)

inject_steps : Str → Nodes → Bool × Nodes
unfolding inject_step
inject_steps url nil = (false, nil)
inject_steps url (cons step steps) = both (inject_step url step) (inject_steps url steps)

-- the value of the first entry with that key, edited
edit_value : Str → (Node → Bool × Node) → Nodes → Bool × Nodes
edit_value key f nil = (false, nil)
edit_value key f (cons k nil) = (false, cons k nil)
edit_value key f (cons k (cons v rest)) =
    let later = cons_both k v (edit_value key f rest) in
    let (changed, v') = f v in if is_key key k then (changed, cons k (cons v' rest)) else later

abbrev edit_content : (Nodes → Bool × Nodes) → Node → Bool × Node
edit_content f (node k meta v ns) = let (changed, ns') = f ns in (changed, node k meta v ns')

inject_sequence : Str → Node → Bool × Node
unfolding inject_steps
inject_sequence url steps =
    if is_sequence (kind steps) then edit_content (inject_steps url) steps else (false, steps)

inject_job : Str → Node → Bool × Node
unfolding inject_sequence edit_value
inject_job url job =
    if is_mapping (kind job)
    then edit_content (edit_value (text "steps") (inject_sequence url)) job
    else (false, job)

inject_jobs : Str → Nodes → Bool × Nodes
unfolding inject_job
inject_jobs url nil = (false, nil)
inject_jobs url (cons k nil) = (false, cons k nil)
inject_jobs url (cons k (cons job rest)) =
    cons_changed k (both (inject_job url job) (inject_jobs url rest))

inject_job_map : Str → Node → Bool × Node
unfolding inject_jobs
inject_job_map url jobs =
    if is_mapping (kind jobs) then edit_content (inject_jobs url) jobs else (false, jobs)

-- the tree walk of injectCheckoutServerURL from the root mapping
pub inject_root : Str → Node → Bool × Node
unfolding inject_job_map edit_value
inject_root url top = edit_content (edit_value (text "jobs") (inject_job_map url)) top
