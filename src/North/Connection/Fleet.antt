-- ===== src/North/Connection/Fleet.antt =====
-- internal/north/client.go: many requests at once over one client, each a goroutine in retryOnAuth. A
-- step is what one of them does between two points where others can act; the part under regMu is one
-- step.
use forgery.Base.{
  ℕ, ◌+◌, ◌<◌, ◌≤◌, Str, ◌≡◌, arith, Bool, ◌==◌, nat_eq, Option, List, [], ◌∷◌, length,
  if◌then◌else◌,
}
use forgery.Proto.{RpcError}
use forgery.Config.{Instance}
use forgery.State.{Identity, Json}
use forgery.North.Connection.{
  ClientState, RunnerHeaders, RegisterMessage, Reply, u64_mod, Recovery, refreshed, backing_off,
  register_failed, registered_anew, retries, recover, attempt, is_auth_error,
}
use forgery.North.Connection.Retry.{Recovers, recover-Recovers, attempt-generation}

-- Where a request stands: not issued, sent under a generation, rejected under it, or on its way out of
-- retryOnAuth, with one more attempt to make or with none.
pub data Pc : Type 0 where
  idle : Pc
  in_flight rejected : ℕ → Pc
  retrying finished : Pc

-- `renewed` lists the generations that a registration has ended, the latest first.
pub record FleetState : Type 0 where
  pub client : ClientState
  pub pc : ℕ → Pc
  pub renewed : List ℕ

abbrev pub put : (ℕ → Pc) → ℕ → Pc → ℕ → Pc
put f i p j = if i == j then p else f j

abbrev pub renew : Recovery → ℕ → List ℕ → List ℕ
renew registered_anew gen l = gen ∷ l
renew _ gen l = l

abbrev pub leave : Recovery → Pc
leave r = if retries r then retrying else finished

renew-length : (r : Recovery) (gen : ℕ) (l : List ℕ) → length l ≤ length (renew r gen l)
renew-length registered_anew gen l = omega arith
renew-length register_failed gen l = omega arith
renew-length backing_off gen l = omega arith
renew-length refreshed gen l = omega arith

module _ (json : Json) (error_text : RpcError → Str) (inst : Instance) (version : Str) where
  -- the lock-held step of request i, which was issued under `gen`
  abbrev pub recovered_fleet : ℕ → ℕ → Recovery × ClientState → FleetState → FleetState
  recovered_fleet i gen (r, c) s = record {
    client = c;
    pc = put s.pc i (leave r);
    renewed = renew r gen s.renewed;
  }

  pub data Step (s t : FleetState) : Type 0 where
    starts :
        (i : ℕ)
        → s.pc i ≡ idle
        → t ≡ record s { pc = put s.pc i (in_flight s.client.generation) }
        → Step s t
    -- the reply to the first attempt
    answers :
        (i gen : ℕ) (call : ℕ → RunnerHeaders → Reply Str) (p : Pc)
        → s.pc i ≡ in_flight gen
        → p ≡ (
            if is_auth_error (attempt inst version call s.client).0 then rejected gen else finished)
        → t ≡ record s { client = (attempt inst version call s.client).1; pc = put s.pc i p }
        → Step s t
    recovers :
        (i gen now : ℕ) (server : ℕ → RunnerHeaders → RegisterMessage → Reply (Option Identity))
        (writes : Bool)
        → s.pc i ≡ rejected gen
        → t
          ≡ recovered_fleet i gen
              (recover json error_text inst version server writes gen now s.client)
              s
        → Step s t
    -- the reply to the second attempt
    retries_call :
        (i : ℕ) (call : ℕ → RunnerHeaders → Reply Str)
        → s.pc i ≡ retrying
        → t ≡ record s { client = (attempt inst version call s.client).1; pc = put s.pc i finished }
        → Step s t
    -- the goroutine is done and may issue another request
    returns : (i : ℕ) → s.pc i ≡ finished → t ≡ record s { pc = put s.pc i idle } → Step s t

  pub data Reach (s : FleetState) : FleetState → Type 0 where
    here : Reach s s
    next : {t u : FleetState} → Reach s t → Step t u → Reach s u

  -- each smaller than the one before, from `b` on
  abbrev pub Descending : ℕ → List ℕ → Type 0
  Descending b [] = Unit
  Descending b (g ∷ l) = (g < b) × Descending g l

  -- The generations renewed so far, counted from the first one.
  abbrev Counted : ℕ → FleetState → Type 0
  Counted first s =
      (s.client.generation ≡ first + length s.renewed) × Descending s.client.generation s.renewed

  recovered_fleet-Counted :
      (i gen first : ℕ) (s : FleetState) (p : Recovery × ClientState)
      → Recovers gen s.client p
      → first + length (recovered_fleet i gen p s).renewed < u64_mod
      → Counted first s
      → Counted first (recovered_fleet i gen p s)
  recovered_fleet-Counted i gen first s (registered_anew, c) r small h =
      (ground arith, ground arith)
  recovered_fleet-Counted i gen first s (register_failed, c) r small h = ground arith
  recovered_fleet-Counted i gen first s (backing_off, c) r small h = ground arith
  recovered_fleet-Counted i gen first s (refreshed, c) r small h = ground arith

  Step-Counted :
      (first : ℕ) {s t : FleetState}
      → Step s t
      → first + length t.renewed < u64_mod
      → Counted first s
      → Counted first t
  Step-Counted first (starts i p e) small h = ground arith
  Step-Counted first {s} (answers i gen call q p k e) small h =
      let same = attempt-generation inst version call s.client in rw e (ground arith)
  Step-Counted first {s} (recovers i gen now server writes p e) small h = rw e (
      recovered_fleet-Counted i gen first s
        (recover json error_text inst version server writes gen now s.client)
        (recover-Recovers json error_text inst version server writes gen now s.client)
        (rw e at small) h)
  Step-Counted first {s} (retries_call i call p e) small h =
      let same = attempt-generation inst version call s.client in rw e (ground arith)
  Step-Counted first (returns i p e) small h = ground arith

  Step-length : {s t : FleetState} → Step s t → length s.renewed ≤ length t.renewed
  Step-length (starts i p e) = ground arith
  Step-length (answers i gen call q p k e) = rw e (omega arith)
  Step-length {s} (recovers i gen now server writes p e) = rw e (
      renew-length (recover json error_text inst version server writes gen now s.client).0 gen
        s.renewed)
  Step-length (retries_call i call p e) = rw e (omega arith)
  Step-length (returns i p e) = ground arith

  -- However many requests are under way and however they are interleaved, as long as the 64-bit counter
  -- does not wrap: the client's generation counts its successful registrations, and no two of them
  -- renewed the same generation. A registration is successful if its identity was granted and saved.
  pub Reach-renewed :
      {s t : FleetState}
      → Reach s t
      → s.renewed ≡ []
      → s.client.generation + length t.renewed < u64_mod
      → (t.client.generation ≡ s.client.generation + length t.renewed)
        × Descending t.client.generation t.renewed
  Reach-renewed here fresh small = ground arith
  Reach-renewed {s} (next r step) fresh small =
      Step-Counted s.client.generation step small
        (Reach-renewed r fresh (omega (arith, Step-length step)))
