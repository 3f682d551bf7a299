-- ===== src/CsiCommon/Logging.antt =====
-- logGRPC of pkg/csi-common/utils.go: it calls the handler, and logs the request, and the response or
-- the error. StripSecrets of csi-lib-utils is the argument `strip`, of requests and of responses; the
-- handler goes from the state of the driver to its answer.
use csi_driver_smb.Base.{◌≡◌, refl, ap, ℕ, List, ◌∷◌}
use csi_driver_smb.Text.{Text}
use csi_driver_smb.Result.{Result, ok, err, Status}
use csi_driver_smb.Result.Laws.{ok-injective}
use csi_driver_smb.Exec.{Exec}
use csi_driver_smb.CsiCommon.{get_log_level}

-- a line of the log, with its level of verbosity; errors have none
pub data Line (Stripped : Type 0) : Type 0 where
  called : ℕ → Text → Line Stripped
  request response : ℕ → Stripped → Line Stripped
  failed : Status → Line Stripped

logged_answer :
    {Response Stripped : Type 0}
    → (Response → Stripped)
    → ℕ
    → Result Status Response
    → Line Stripped
logged_answer strip_response level (ok resp) = response level (strip_response resp)
logged_answer strip_response level (err e) = failed e

abbrev map_answer : {A B : Type 0} → (A → B) → Result Status A → Result Status B
map_answer f (ok x) = ok (f x)
map_answer f (err e) = err e

same_line :
    {Response Stripped : Type 0} (strip_response : Response → Stripped) (level : ℕ)
    (r r' : Result Status Response)
    → map_answer strip_response r ≡ map_answer strip_response r'
    → logged_answer strip_response level r ≡ logged_answer strip_response level r'
unfolding logged_answer
same_line strip_response level (ok x) (ok y) h = ap (response level) (ok-injective h)
same_line strip_response level (ok x) (err e) h = cc
same_line strip_response level (err e) (ok x) h = cc
same_line strip_response level (err e) (err e') h = cc

module _ {State Request Response Stripped : Type 0} (strip : Request → Stripped)
    (strip_response : Response → Stripped) where
  -- The log is part of the state, its latest line first.
  unfoldable pub log_grpc :
      Text
      → (Request → Exec State Status Response)
      → Request
      → Exec (State × List (Line Stripped)) Status Response
  unfolding logged_answer
  log_grpc method handler req (s, log) =
      let level = get_log_level method in
      let (r, s') = handler req s in
      (
        r,
        (
          s',
          logged_answer strip_response level r
              ∷ request level (strip req)
              ∷ called level method
              ∷ log,
        ),
      )

  -- Two requests that differ in their secrets only, with answers that do so too, log the same lines.
  log_grpc-sanitized :
      (method : Text) (handler : Request → Exec State Status Response) (req req' : Request)
      (s s' : State) (log : List (Line Stripped))
      → strip req ≡ strip req'
      → map_answer strip_response (handler req s).0 ≡ map_answer strip_response (handler req' s').0
      → (log_grpc method handler req (s, log)).1.1 ≡ (log_grpc method handler req' (s', log)).1.1
  unfolding log_grpc
  log_grpc-sanitized method handler req req' s s' log same answers =
      let level = get_log_level method in
      rw (same, same_line strip_response level (handler req s).0 (handler req' s').0 answers) refl
