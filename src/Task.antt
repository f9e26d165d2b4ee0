-- ===== src/Task.antt =====
-- internal/store/store.go: the task context, its states and its two signal channels. A `*TaskCtx` is
-- a reference into a heap, since the store, the sessions and the proxy registry share it.
use forgery.Base.{ℕ, Str, ℤ, Bool, true, false, Option, ◌==◌, nat_eq, if◌then◌else◌}
use forgery.Proto

pub data TaskStatus : Type 0 where
  pending dispatched running terminal : TaskStatus

-- A `chan struct{}` that is only ever closed: not made yet, made, closed.
pub data Signal : Type 0 where
  absent open_signal closed : Signal

pub record TaskCtx : Type 0 where
  pub id : ℕ
  pub instance_name : Str
  pub task : Option Proto.Task
  pub reg_token : Str
  pub reg_token_ttl : ℤ
  pub created_at : ℕ
  pub status : TaskStatus
  pub session_token : Str
  pub done : Signal
  pub registered : Signal

abbrev pub is_pending : TaskStatus → Bool
is_pending pending = true
is_pending _ = false

abbrev pub is_terminal : TaskStatus → Bool
is_terminal terminal = true
is_terminal _ = false

abbrev pub set_status : TaskStatus → TaskCtx → TaskCtx
set_status s t = record t { status = s }

abbrev pub set_session_token : Str → TaskCtx → TaskCtx
set_session_token token t = record t { session_token = token }

abbrev pub mark_dispatched : TaskCtx → TaskCtx
mark_dispatched t = record t { status = dispatched }

-- ensureDone and ensureRegistered make the channel on first use.
abbrev pub ensure : Signal → Signal
ensure absent = open_signal
ensure open_signal = open_signal
ensure closed = closed

-- The `select` finds a channel that is closed already, or closes it. It is called on a channel that
-- `ensure` has made: `close` of one that was never made would panic.
abbrev pub close_signal : Signal → Signal
close_signal closed = closed
close_signal _ = closed

abbrev pub is_closed : Signal → Bool
is_closed closed = true
is_closed _ = false

abbrev pub mark_runner_registered : TaskCtx → TaskCtx
mark_runner_registered t = record t {
  status = running;
  registered = close_signal (ensure t.registered);
}

abbrev pub mark_done : TaskCtx → TaskCtx
mark_done t = record t { done = close_signal (ensure t.done) }

-- Done() and Registered() make the channel and hand it out; a receive on it returns once it is closed.
abbrev pub done_channel : TaskCtx → TaskCtx × Signal
done_channel t = (record t { done = ensure t.done }, ensure t.done)

abbrev pub registered_channel : TaskCtx → TaskCtx × Signal
registered_channel t = (record t { registered = ensure t.registered }, ensure t.registered)

abbrev pub Ref : Type 0
Ref = ℕ

abbrev pub Heap : Type 0
Heap = Ref → TaskCtx

-- a write through one pointer, seen through all that are equal to it
abbrev pub update : Heap → Ref → (TaskCtx → TaskCtx) → Heap
update h r f q = if r == q then f (h r) else h q
