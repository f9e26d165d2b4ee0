-- ===== src/Payload/Tree/Inputs.antt =====
-- internal/south/payload.go: the input that a step is given, and that a second edit finds nothing to do.
use forgery.Base.{
  Str, text, ◌≡◌, true, false, Option, none, some, str_eq, eq_iff, eq_refl, arith, ap, inl, inr,
  Bool-cases,
}
use forgery.Payload.Tree.{
  Node, node, Nodes, nil, cons, document, mapping, sequence, scalar, alias, content, value_of,
  is_key, value_for, mapping_value, set_input, set_in_block, set_in_step, set_with_input, cons_both,
}

-- the text of an input
abbrev pub text_of : Option Node → Option Str
text_of none = none
text_of (some n) = some (value_of n)

-- Content holds keys and values in turn, so its length is even.
abbrev pub IsPaired : Nodes → Type 0
IsPaired nil = Unit
IsPaired (cons k nil) = ⊥
IsPaired (cons k (cons v rest)) = IsPaired rest

value_for-set_input :
    (input value : Str) (ns : Nodes)
    → IsPaired ns
    → text_of (value_for input (set_input input value ns).1) ≡ some value
unfolding set_input value_for
value_for-set_input input value nil h = ground (arith, eq_refl input)
value_for-set_input input value (cons k nil) h = absurd h
value_for-set_input input value (cons k (cons v rest)) h =
    ground (arith, value_for-set_input input value rest h, eq_iff (value_of v) value)

set_input-set_input :
    (input value : Str) (ns : Nodes)
    → IsPaired ns
    → set_input input value (set_input input value ns).1 ≡ (false, (set_input input value ns).1)
unfolding set_input
set_input-set_input input value nil h = ground (arith, eq_refl input, eq_refl value)
set_input-set_input input value (cons k nil) h = absurd h
set_input-set_input input value (cons k (cons v rest)) h =
    ground (arith, set_input-set_input input value rest h, eq_iff (value_of v) value, eq_refl value)

-- A with block that is a mapping of keys and values.
abbrev pub IsBlock : Node → Type 0
IsBlock (node mapping meta v ns) = IsPaired ns
IsBlock _ = ⊥

-- The keys and values of a step, of which every with block is a mapping.
abbrev pub IsStep : Nodes → Type 0
IsStep nil = Unit
IsStep (cons k nil) = ⊥
IsStep (cons k (cons v rest)) = (is_key (text "with") k ≡ true → IsBlock v) × IsStep rest

-- the text that a step's with block gives to an input
abbrev pub input_in : Str → Option Node → Option Str
input_in input none = none
input_in input (some block) = text_of (value_for input (content block))

set_in_block-input :
    (input value : Str) (v : Node)
    → IsBlock v
    → input_in input (some (set_in_block input value v).1) ≡ some value
unfolding set_in_block
set_in_block-input input value (node document meta v ns) h = absurd h
set_in_block-input input value (node sequence meta v ns) h = absurd h
set_in_block-input input value (node scalar meta v ns) h = absurd h
set_in_block-input input value (node alias meta v ns) h = absurd h
set_in_block-input input value (node mapping meta v ns) h = value_for-set_input input value ns h

set_in_block-set_in_block :
    (input value : Str) (v : Node)
    → IsBlock v
    → set_in_block input value (set_in_block input value v).1
      ≡ (false, (set_in_block input value v).1)
unfolding set_in_block
set_in_block-set_in_block input value (node document meta v ns) h = absurd h
set_in_block-set_in_block input value (node sequence meta v ns) h = absurd h
set_in_block-set_in_block input value (node scalar meta v ns) h = absurd h
set_in_block-set_in_block input value (node alias meta v ns) h = absurd h
set_in_block-set_in_block input value (node mapping meta v ns) h =
    ap (λ p. (p.0, node mapping meta v p.1)) (set_input-set_input input value ns h)

set_in_step-input :
    (input value : Str) (ns : Nodes)
    → IsStep ns
    → input_in input (value_for (text "with") (set_in_step input value ns).1) ≡ some value
unfolding set_in_step value_for
set_in_step-input input value nil h = ground (arith, eq_refl input)
set_in_step-input input value (cons k nil) h = absurd h
set_in_step-input input value (cons k (cons v rest)) h =
    elim (Bool-cases (is_key (text "with") k)) [
      | inl here ↦ rw here (simp here (set_in_block-input input value v (h.0 here)))
      | inr later ↦ rw later (simp later (set_in_step-input input value rest h.1))
    ]

set_in_step-set_in_step :
    (input value : Str) (ns : Nodes)
    → IsStep ns
    → set_in_step input value (set_in_step input value ns).1
      ≡ (false, (set_in_step input value ns).1)
unfolding set_in_step set_in_block
set_in_step-set_in_step input value nil h = ground (arith, eq_refl input, eq_refl value)
set_in_step-set_in_step input value (cons k nil) h = absurd h
set_in_step-set_in_step input value (cons k (cons v rest)) h =
    elim (Bool-cases (is_key (text "with") k)) [
      | inl here ↦ rw here (
          simp here (
            ap (λ p. (p.0, cons k (cons p.1 rest)))
              (set_in_block-set_in_block input value v (h.0 here))))
      | inr later ↦
          rw later (simp later (ap (cons_both k v) (set_in_step-set_in_step input value rest h.1)))
    ]

-- A step of keys and values whose with blocks, if any, are mappings: after setWithInput its with
-- block gives the input the value, and setting it a second time reports no change and makes none.
pub set_with_input_lem :
    (step : Node) (input value : Str)
    → IsStep (content step)
    → (input_in input (mapping_value (set_with_input step input value).1 (text "with"))
        ≡ some value)
      × (set_with_input (set_with_input step input value).1 input value
          ≡ (false, (set_with_input step input value).1))
unfolding set_with_input mapping_value
set_with_input_lem (node k meta v ns) input value h = (
  set_in_step-input input value ns h,
  ap (λ p. (p.0, node k meta v p.1)) (set_in_step-set_in_step input value ns h),
)
