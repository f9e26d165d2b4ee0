-- ===== src/Payload/Urls/Values.antt =====
-- internal/south/payload.go: what rewriteScalarValues rewrites, and when it reports a change.
use forgery.Base.{
  Str, ◌≡◌, refl, ap, ◌∙◌, Bool, true, false, not, ◌||◌, ◌==◌, str_eq, List, [], ◌∷◌, map,
}
use forgery.Payload.Tree.{
  Kind, Node, node, Nodes, nil, cons, document, mapping, sequence, scalar, alias,
}
use forgery.Payload.Urls.{flagged, rewrite_node, rewrite_all, rewrite_pairs}

-- A document read from its start to its end: a collection opens and closes, and a mapping has its keys, each
-- as a whole, before its values. A scalar that is no key is a value.
pub data Event : Type 0 where
  opens : Kind → Str → Str → Event
  closes : Event
  key : Node → Event
  value : (meta text : Str) → Nodes → Event

-- the events of a node, before those that follow it
mutual
  pub events : Node → List Event → List Event
  events (node mapping meta v ns) rest = opens mapping meta v ∷ pair_events ns (closes ∷ rest)
  events (node scalar meta v ns) rest = value meta v ns ∷ rest
  events (node document meta v ns) rest = opens document meta v ∷ all_events ns (closes ∷ rest)
  events (node sequence meta v ns) rest = opens sequence meta v ∷ all_events ns (closes ∷ rest)
  events (node alias meta v ns) rest = opens alias meta v ∷ all_events ns (closes ∷ rest)

  all_events : Nodes → List Event → List Event
  all_events nil rest = rest
  all_events (cons n ns) rest = events n (all_events ns rest)

  pair_events : Nodes → List Event → List Event
  pair_events nil rest = rest
  pair_events (cons k nil) rest = key k ∷ rest
  pair_events (cons k (cons v ns)) rest = key k ∷ events v (pair_events ns rest)

-- a value is rewritten, and nothing else
abbrev pub rewritten : (Str → Str) → Event → Event
rewritten f (opens k meta v) = opens k meta v
rewritten f closes = closes
rewritten f (key k) = key k
rewritten f (value meta v ns) = value meta (f v) ns

abbrev pub differs : (Str → Str) → Event → Bool
differs f (opens k meta v) = false
differs f closes = false
differs f (key k) = false
differs f (value meta v ns) = not (f v == v)

pub any_differs : (Str → Str) → List Event → Bool
any_differs f [] = false
any_differs f (e ∷ es) = differs f e || any_differs f es

or_assoc : (a b c : Bool) → ((a || b) || c) ≡ (a || (b || c))
or_assoc true b c = refl
or_assoc false b c = refl

or_false : (a : Bool) → (a || false) ≡ a
or_false true = refl
or_false false = refl

mutual
  unfolding rewrite_node rewrite_all rewrite_pairs events all_events pair_events

  rewrite_node-events :
      (f : Str → Str) (n : Node) (c : Bool) (rest : List Event)
      → events (rewrite_node (flagged f) n c).0 (map (rewritten f) rest)
        ≡ map (rewritten f) (events n rest)
  rewrite_node-events f (node mapping meta v ns) c rest =
      ap (λ es. opens mapping meta v ∷ es) (rewrite_pairs-events f ns c (closes ∷ rest))
  rewrite_node-events f (node scalar meta v ns) c rest = refl
  rewrite_node-events f (node document meta v ns) c rest =
      ap (λ es. opens document meta v ∷ es) (rewrite_all-events f ns c (closes ∷ rest))
  rewrite_node-events f (node sequence meta v ns) c rest =
      ap (λ es. opens sequence meta v ∷ es) (rewrite_all-events f ns c (closes ∷ rest))
  rewrite_node-events f (node alias meta v ns) c rest =
      ap (λ es. opens alias meta v ∷ es) (rewrite_all-events f ns c (closes ∷ rest))

  rewrite_all-events :
      (f : Str → Str) (ns : Nodes) (c : Bool) (rest : List Event)
      → all_events (rewrite_all (flagged f) ns c).0 (map (rewritten f) rest)
        ≡ map (rewritten f) (all_events ns rest)
  rewrite_all-events f nil c rest = refl
  rewrite_all-events f (cons n ns) c rest =
      let (n', c') = rewrite_node (flagged f) n c in
      ap (events n') (rewrite_all-events f ns c' rest)
      ∙ rewrite_node-events f n c (all_events ns rest)

  rewrite_pairs-events :
      (f : Str → Str) (ns : Nodes) (c : Bool) (rest : List Event)
      → pair_events (rewrite_pairs (flagged f) ns c).0 (map (rewritten f) rest)
        ≡ map (rewritten f) (pair_events ns rest)
  rewrite_pairs-events f nil c rest = refl
  rewrite_pairs-events f (cons k nil) c rest = refl
  rewrite_pairs-events f (cons k (cons v ns)) c rest =
      let (v', c') = rewrite_node (flagged f) v c in
      ap (λ es. key k ∷ events v' es) (rewrite_pairs-events f ns c' rest)
      ∙ ap (λ es. key k ∷ es) (rewrite_node-events f v c (pair_events ns rest))

mutual
  unfolding rewrite_node rewrite_all rewrite_pairs events all_events pair_events any_differs

  rewrite_node-differs :
      (f : Str → Str) (n : Node) (c : Bool) (rest : List Event)
      → ((rewrite_node (flagged f) n c).1 || any_differs f rest)
        ≡ (c || any_differs f (events n rest))
  rewrite_node-differs f (node mapping meta v ns) c rest =
      rewrite_pairs-differs f ns c (closes ∷ rest)
  rewrite_node-differs f (node scalar meta v ns) c rest =
      or_assoc c (not (f v == v)) (any_differs f rest)
  rewrite_node-differs f (node document meta v ns) c rest =
      rewrite_all-differs f ns c (closes ∷ rest)
  rewrite_node-differs f (node sequence meta v ns) c rest =
      rewrite_all-differs f ns c (closes ∷ rest)
  rewrite_node-differs f (node alias meta v ns) c rest = rewrite_all-differs f ns c (closes ∷ rest)

  rewrite_all-differs :
      (f : Str → Str) (ns : Nodes) (c : Bool) (rest : List Event)
      → ((rewrite_all (flagged f) ns c).1 || any_differs f rest)
        ≡ (c || any_differs f (all_events ns rest))
  rewrite_all-differs f nil c rest = refl
  rewrite_all-differs f (cons n ns) c rest =
      rewrite_all-differs f ns (rewrite_node (flagged f) n c).1 rest
      ∙ rewrite_node-differs f n c (all_events ns rest)

  rewrite_pairs-differs :
      (f : Str → Str) (ns : Nodes) (c : Bool) (rest : List Event)
      → ((rewrite_pairs (flagged f) ns c).1 || any_differs f rest)
        ≡ (c || any_differs f (pair_events ns rest))
  rewrite_pairs-differs f nil c rest = refl
  rewrite_pairs-differs f (cons k nil) c rest = refl
  rewrite_pairs-differs f (cons k (cons v ns)) c rest =
      rewrite_pairs-differs f ns (rewrite_node (flagged f) v c).1 rest
      ∙ rewrite_node-differs f v c (pair_events ns rest)

-- The walk over a document applies the function to the text of every scalar that is no key, in mappings,
-- sequences and documents, and leaves keys, tags and structure as they are; it raises the flag exactly
-- if this changes some text.
pub rewrite_node_lem :
    (f : Str → Str) (n : Node)
    → (events (rewrite_node (flagged f) n false).0 [] ≡ map (rewritten f) (events n []))
      × ((rewrite_node (flagged f) n false).1 ≡ any_differs f (events n []))
unfolding rewrite_node any_differs
rewrite_node_lem f n = (
  rewrite_node-events f n false [],
  rw (or_false (rewrite_node (flagged f) n false).1) at (rewrite_node-differs f n false []),
)
