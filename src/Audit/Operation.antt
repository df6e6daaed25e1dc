-- ===== src/Audit/Operation.antt =====
-- internal/audit/operation.go: the lifecycle of one accepted operation.
pub mod Once
pub mod Runs
pub mod Tests
use mcp_audit.Base.{
  ℕ, zero, suc, ℤ, pos, negsuc, String, Bool, true, false, not, ◌&&◌, ◌||◌, List, [], ◌∷◌, Option,
  none, some, Result, ok, err, ◌==◌, if◌then◌else◌, nat_eq,
}
use mcp_audit.Integrity.{IntegrityError}
use mcp_audit.Audit.{Entry, RpcError, Time}
use mcp_audit.Audit.Outcome.{outcome_valid}
use mcp_audit.Audit.Logger.{Codec, Logger, Inputs, World, LogError, prepare, record_prepared}

pub record Completion : Type 0 where
  pub outcome : String
  pub direction : String
  pub result : String
  pub error : Option RpcError

-- The fields `prepared` and `completion` are set by one block and never reset, so they are one.
pub record Operation : Type 0 where
  pub entry : Entry
  pub started_at : Time
  pub finalized : Bool
  pub frozen : Option (Entry × Completion)
  pub attempted : Bool

pub data FinalizeError : Type 0 where
  invalid_outcome operation_finalized completion_changed : FinalizeError
  not_prepared : IntegrityError → FinalizeError
  not_recorded : LogError → FinalizeError

-- `NewOperation` behind its two refusals (no logger, no UUID): `operation_id` is the UUIDv7 and
-- `now` what `time.Now` returns.
unfoldable pub new_operation : Entry → Time → String → Time → Operation
new_operation entry started_at operation_id now = record {
  entry = record entry {
    audit_operation_id = operation_id;
    result = "";
    error = none;
    outcome = "";
  };
  started_at = if nat_eq started_at 0 then now else started_at;
  finalized = false;
  frozen = none;
  attempted = false;
}

abbrev int_eq : ℤ → ℤ → Bool
int_eq (pos a) (pos b) = nat_eq a b
int_eq (pos a) (negsuc b) = false
int_eq (negsuc a) (pos b) = false
int_eq (negsuc a) (negsuc b) = nat_eq a b

abbrev same_error : Option RpcError → Option RpcError → Bool
same_error none none = true
same_error none (some b) = false
same_error (some a) none = false
same_error (some a) (some b) =
    int_eq a.code b.code && a.message == b.message && a.details == b.details

unfoldable pub same_completion : Completion → Completion → Bool
same_completion a b =
    a.outcome == b.outcome
    && a.direction == b.direction
    && a.result == b.result
    && same_error a.error b.error

-- A negative duration is stored as 0.
abbrev clamp : ℤ → ℤ
clamp (pos n) = pos n
clamp (negsuc n) = pos 0

-- The terminal entry; `elapsed` is the time since the start in milliseconds.
abbrev pub terminal_entry : Operation → Completion → ℤ → Entry
terminal_entry o c elapsed = record (o.entry) {
  outcome = c.outcome;
  direction = c.direction;
  result = c.result;
  error = c.error;
  duration_ms = clamp elapsed;
}

abbrev map_error : Option LogError → Option FinalizeError
map_error none = none
map_error (some x) = some (not_recorded x)

-- The attempts of one `Finalize`.
abbrev pub rounds : ℕ
rounds = 3

module _ {S : Type 0} (k : Codec) (l : Logger S) where
  -- One round of the loop: a success ends it.
  abbrev after_round :
      (Operation → World S → Option LogError → Operation × World S × Option FinalizeError)
      → Operation
      → World S × Option LogError
      → Operation × World S × Option FinalizeError
  after_round next o (w, none) = (record o { attempted = true; finalized = true }, w, none)
  after_round next o (w, some x) = next (record o { attempted = true }) w (some x)

  -- The loop `for attempt := 0; attempt < 3; attempt++`, by the rounds left; `last` is its `err`.
  unfoldable pub attempts :
      ℕ → Entry → Operation → World S → Option LogError → Operation × World S × Option FinalizeError
  attempts zero prepared o w last = (o, w, map_error last)
  attempts (suc rounds) prepared o w last =
      after_round (attempts rounds prepared) o (record_prepared k l prepared o.attempted w)

  abbrev freeze_and_record :
      Completion
      → Operation
      → World S
      → Result IntegrityError Entry
      → Operation × World S × Option FinalizeError
  freeze_and_record c o w (err x) = (o, w, some (not_prepared x))
  freeze_and_record c o w (ok prepared) =
      attempts rounds prepared (record o { frozen = some (prepared, c) }) w none

  -- The part of `Finalize` under the lock, behind the test of `finalized`.
  abbrev finalize_open :
      Option (Entry × Completion)
      → Completion
      → Inputs
      → ℤ
      → Operation
      → World S
      → Operation × World S × Option FinalizeError
  finalize_open none c i elapsed o w =
      freeze_and_record c o w (prepare k l i (terminal_entry o c elapsed))
  finalize_open (some (prepared, c')) c i elapsed o w =
      if same_completion c' c
      then attempts rounds prepared o w none
      else (o, w, some completion_changed)

  -- `Finalize` of an operation that is not nil; a nil one is refused, and changes nothing.
  unfoldable pub finalize :
      Completion → Inputs → ℤ → Operation → World S → Operation × World S × Option FinalizeError
  finalize c i elapsed o w =
      if not (outcome_valid c.outcome)
      then (o, w, some invalid_outcome)
      else if o.finalized
      then (o, w, some operation_finalized)
      else finalize_open o.frozen c i elapsed o w
