-- ===== src/Examples/Stores.antt =====
-- The task store, the slots and the tokens on concrete inputs.
use forgery.Base.{
  ℕ, text, ◌≡◌, refl, ◌≤◌, arith, some, List, [], ◌∷◌, lookup, nat_eq, str_eq, str_ne,
}
use forgery.Store.{new_mem_store, put_pending, get_by_reg_token}
use forgery.Store.Index.{IsValid}
use forgery.Store.History.{
  StoreOp, consumes, consumptions, consumptions-le-room, get_by_reg_token-put_pending_collision,
}
use forgery.Store.Refinement
use forgery.Store.Refinement.{StoreCall}
use forgery.Token.{encode_to_string-injective}
use forgery.Examples.Fixtures.{heap, one_task}

one_task-IsValid : IsValid one_task
unfolding lookup
one_task-IsValid = record {
  tasks_distinct = (refl, tt);
  by_reg_distinct = (refl, tt);
  indexed = λ t i h. ground arith;
}

abbrev two_consumers : List StoreOp
two_consumers = consumes (text "r1") ∷ consumes (text "r1") ∷ []

consumptions-le-room_example : consumptions (text "r1") two_consumers one_task ≤ 1
unfolding lookup
consumptions-le-room_example =
    consumptions-le-room (text "r1") two_consumers one_task one_task-IsValid (λ h. h, (λ h. h, tt))

get_by_reg_token-put_pending_collision_example :
    get_by_reg_token (text "r1") (put_pending heap 1 (put_pending heap 0 new_mem_store)) ≡ some 1
get_by_reg_token-put_pending_collision_example =
    get_by_reg_token-put_pending_collision heap 0 1 new_mem_store refl
      (str_ne (text "r1") (text "r2") refl)

abbrev calls : List StoreCall
calls =
    Refinement.puts heap 0
    ∷ Refinement.gets (text "r1")
    ∷ Refinement.puts heap 1
    ∷ Refinement.consumes (text "r1")
    ∷ Refinement.collects heap 2000
    ∷ Refinement.gets (text "r2")
    ∷ []

abbrev some_bytes : List ℕ
some_bytes = 5 ∷ 255 ∷ []

encode_to_string-injective_example : some_bytes ≡ some_bytes
encode_to_string-injective_example =
    encode_to_string-injective some_bytes some_bytes (omega arith, (omega arith, tt))
      (omega arith, (omega arith, tt)) refl
