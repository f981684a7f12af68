-- ===== src/Bep/Connection/Supervisor.antt =====
-- bepository-bep/src/connection.rs: how the end of a connection's tasks becomes the reason for which it
-- closed (the last part of `run_connection_inner`, and `WorkerError`).
use bepository.Prelude.{
  ℕ, ◌≤◌, ◌≡◌, ◌⊎◌, inl, inr, refl, arith, Option, none, some, List, [], ◌∷◌, Result, ok, err, ltb,
  if◌then◌else◌, ◌++◌,
}
use bepository.Prelude.{sym, ap, ◌∙◌, append-nil, append_assoc}
use mathlib.Core.Path.{subst}
use bepository.Bep.Errors.{BepError}
use bepository.Bep.Connection.Turns.{CloseReason, at_home}

unfoldable pub priority : BepError → ℕ
priority (BepError.unsupported_version found supported) = 110
priority BepError.corruption = 100
priority BepError.internal = 90
priority BepError.peer_bad_hello = 70
priority BepError.peer_bad_message = 70
priority (BepError.peer_error code) = 60
priority BepError.device_rejected = 60
priority BepError.standby = 50
priority BepError.network_error = 20
priority BepError.transient_io = 15
priority BepError.writer_closed = 5
priority BepError.peer_closed = 1

-- What joining a task gives: its result, or that it was cancelled or panicked.
pub data TaskEnd : Type 0 where
  finished : Option CloseReason → TaskEnd
  failed : BepError → TaskEnd
  cancelled panicked : TaskEnd

-- `errors.into_iter().max()`: of several greatest errors the last one.
unfoldable pub greater_error : BepError → BepError → BepError
unfolding priority
greater_error x y = if ltb (priority y) (priority x) then x else y

unfoldable pub max_error : BepError → List BepError → BepError
unfolding greater_error
max_error best [] = best
max_error best (e ∷ es) = max_error (greater_error best e) es

abbrev pub errors_of : TaskEnd → List BepError
errors_of (finished reason) = []
errors_of (failed e) = e ∷ []
errors_of cancelled = []
errors_of panicked = BepError.internal ∷ []

abbrev pub first_reason : Option CloseReason → TaskEnd → Option CloseReason
first_reason (some reason) end = some reason
first_reason none (finished reason) = reason
first_reason none _ = none

abbrev pub reason_or_local : Option CloseReason → CloseReason
reason_or_local (some reason) = reason
reason_or_local none = at_home

abbrev pub concluded : List BepError → Option CloseReason → Result BepError CloseReason
concluded [] reason = ok (reason_or_local reason)
concluded (e ∷ es) reason = err (max_error e es)

-- The loop of the supervisor over the tasks in the order in which they end. Those that are abandoned
-- after two seconds are not in the list.
unfoldable pub supervise :
    List TaskEnd → List BepError → Option CloseReason → Result BepError CloseReason
unfolding max_error
supervise [] errors reason = concluded errors reason
supervise (end ∷ ends) errors reason =
    supervise ends (errors ++ errors_of end) (first_reason reason end)

-- How the first exchange of cluster configs ends, before there are tasks to join but that of the writer.
pub data Exchange : Type 0 where
  told_to_stop : Exchange
  not_exchanged : BepError → Exchange
  exchanged : Exchange

-- What `run_connection_inner` returns: the tasks count only after the exchange.
unfoldable pub conclude : Exchange → List TaskEnd → Result BepError CloseReason
unfolding supervise
conclude told_to_stop ends = ok at_home
conclude (not_exchanged e) ends = err e
conclude exchanged ends = supervise ends [] none

-- `run_connection`: the reason that is sent to the holder of the connection's handle.
unfoldable pub close_reason : Result BepError CloseReason → CloseReason
close_reason (ok reason) = reason
close_reason (err e) = CloseReason.error e

abbrev pub AllAtMost : ℕ → List BepError → Type 0
AllAtMost n [] = Unit {0}
AllAtMost n (e ∷ es) = (priority e ≤ n) × AllAtMost n es

abbrev pub OneOf : BepError → List BepError → Type 0
OneOf e [] = ⊥
OneOf e (x ∷ xs) = (x ≡ e) ⊎ OneOf e xs

-- The errors of the tasks that failed or panicked.
abbrev pub failures : List TaskEnd → List BepError
failures [] = []
failures (end ∷ ends) = errors_of end ++ failures ends

-- The reason of the first task that gave one.
abbrev pub reported : List TaskEnd → Option CloseReason
reported [] = none
reported (finished (some reason) ∷ ends) = some reason
reported (finished none ∷ ends) = reported ends
reported (failed e ∷ ends) = reported ends
reported (cancelled ∷ ends) = reported ends
reported (panicked ∷ ends) = reported ends

-- What the connection may report after these ends of its tasks.
abbrev pub Concludes : List TaskEnd → Result BepError CloseReason → Type 0
Concludes ends (err e) = OneOf e (failures ends) × AllAtMost (priority e) (failures ends)
Concludes ends (ok reason) = (failures ends ≡ []) × (reason ≡ reason_or_local (reported ends))

abbrev pub Reports : Exchange → List TaskEnd → Result BepError CloseReason → Type 0
Reports told_to_stop ends r = r ≡ ok at_home
Reports (not_exchanged e) ends r = r ≡ err e
Reports exchanged ends r = Concludes ends r

greater_error_bounds :
    (x y : BepError)
    → (priority x ≤ priority (greater_error x y)) × (priority y ≤ priority (greater_error x y))
unfolding greater_error
greater_error_bounds x y = ground arith

greater_error_one : (x y : BepError) → (greater_error x y ≡ x) ⊎ (greater_error x y ≡ y)
unfolding greater_error
greater_error_one x y = ground arith

AllAtMost-mono : (m n : ℕ) (es : List BepError) → m ≤ n → AllAtMost m es → AllAtMost n es
AllAtMost-mono m n [] h all = tt
AllAtMost-mono m n (e ∷ es) h (p, all) = (omega arith, AllAtMost-mono m n es h all)

-- The greatest of some errors is one of them, and none is above it.
max_error_greatest :
    (best : BepError) (es : List BepError)
    → OneOf (max_error best es) (best ∷ es) × AllAtMost (priority (max_error best es)) (best ∷ es)
unfolding max_error
max_error_greatest best [] = (inl refl, (omega arith, tt))
max_error_greatest best (e ∷ es) =
    let rest = max_error_greatest (greater_error best e) es in
    (
      one (greater_error_one best e) rest.0,
      (
        omega (arith, greater_error_bounds best e, rest.1.0),
        (omega (arith, greater_error_bounds best e, rest.1.0), rest.1.1),
      ),
    )
  where
    one :
        (greater_error best e ≡ best) ⊎ (greater_error best e ≡ e)
        → OneOf (max_error (greater_error best e) es) (greater_error best e ∷ es)
        → OneOf (max_error (greater_error best e) es) (best ∷ e ∷ es)
    one (inl same) (inl here) = inl (sym same ∙ here)
    one (inr same) (inl here) = inr (inl (sym same ∙ here))
    one _ (inr later) = inr (inr later)

supervise-first :
    (ends : List TaskEnd) (es : List BepError) (first : CloseReason)
    → supervise ends es (some first) ≡ concluded (es ++ failures ends) (some first)
unfolding supervise
supervise-first [] es first = rw (append-nil es)
supervise-first (end ∷ ends) es first =
    supervise-first ends (es ++ errors_of end) first
    ∙ ap (λ l. concluded l (some first)) (append_assoc es (errors_of end) (failures ends))

supervise-eq :
    (ends : List TaskEnd) (es : List BepError)
    → supervise ends es none ≡ concluded (es ++ failures ends) (reported ends)
unfolding supervise
supervise-eq [] es = rw (append-nil es)
supervise-eq (finished (some reason) ∷ ends) es =
    supervise-first ends (es ++ []) reason
    ∙ ap (λ l. concluded (l ++ failures ends) (some reason)) (append-nil es)
supervise-eq (finished none ∷ ends) es =
    supervise-eq ends (es ++ [])
    ∙ ap (λ l. concluded (l ++ failures ends) (reported ends)) (append-nil es)
supervise-eq (failed e ∷ ends) es =
    supervise-eq ends (es ++ (e ∷ []))
    ∙ ap (λ l. concluded l (reported ends)) (append_assoc es (e ∷ []) (failures ends))
supervise-eq (cancelled ∷ ends) es =
    supervise-eq ends (es ++ [])
    ∙ ap (λ l. concluded (l ++ failures ends) (reported ends)) (append-nil es)
supervise-eq (panicked ∷ ends) es =
    supervise-eq ends (es ++ (BepError.internal ∷ []))
    ∙ ap (λ l. concluded l (reported ends))
        (append_assoc es (BepError.internal ∷ []) (failures ends))

supervise-Concludes : (ends : List TaskEnd) → Concludes ends (supervise ends [] none)
supervise-Concludes ends =
    subst (Concludes ends) (sym (supervise-eq ends [])) (end (failures ends) refl)
  where
    end : (l : List BepError) → failures ends ≡ l → Concludes ends (concluded l (reported ends))
    end [] e = (e, refl)
    end (x ∷ xs) e = rw e (max_error_greatest x xs)

-- Once the cluster configs are exchanged, a connection reports an error exactly if one of the tasks that
-- were joined (those abandoned after two seconds are not) failed or panicked: then it is the error of one
-- of them, and no error of a joined task has a higher priority. Otherwise it reports the reason of the
-- first of them that gave one, or that it closed on this side. Before that, it reports the error of the
-- exchange, or, if it was told to stop, that it closed on this side, whatever became of the writer's task.
pub conclude-Reports :
    (exchange : Exchange) (ends : List TaskEnd) → Reports exchange ends (conclude exchange ends)
unfolding conclude
conclude-Reports told_to_stop ends = refl
conclude-Reports (not_exchanged e) ends = refl
conclude-Reports exchanged ends = supervise-Concludes ends
