-- ===== src/Control/Auth.antt =====
-- internal/control/security.go: the authentication of a request and the permission that it needs.
use quantum_control.Prelude.{
  Bool, ◌&&◌, not, Option, none, some, [], ◌++◌, leb, if◌then◌else◌, Result, ok, err, ◌>>=◌, ◌>>◌,
  require, or_fail, length,
}
use quantum_control.Text.{Text, text, ◌==◌}
use quantum_control.Text.Trim.{trim_space}
use quantum_control.Text.Prefix.{strip_prefix}
use quantum_control.Security.Types.{Actor, Permission}
use quantum_control.Security.Actor.{has_permission, local_read_only_actor, is_subject, all_bytes}
use quantum_control.Security.Auth.{Authenticator}
use quantum_control.Control.Server.{State, Context, Reply, write_problem}

-- The headers Authorization and X-Quantum-Session-ID; a missing header is empty.
pub record Headers : Type 0 where
  pub authorization : Text
  pub session : Text

abbrev pub with_credential : Text → Option Actor → Option (Actor × Text)
with_credential provided none = none
with_credential provided (some actor) = some (actor, provided)

abbrev pub authenticate_token : Authenticator → Option Text → Option (Actor × Text)
authenticate_token actors none = none
authenticate_token actors (some rest) = with_credential (trim_space rest) (actors (trim_space rest))

-- Server.authenticateRequest: the actor and the token that it showed.
unfoldable pub authenticate_request : Option Authenticator → Text → Option (Actor × Text)
authenticate_request none header =
    if not (trim_space header == []) then none else some (local_read_only_actor, [])
authenticate_request (some actors) header =
    authenticate_token actors (strip_prefix (text "Bearer ") header)

-- validCorrelationID. The letters that it allows are ASCII, so that bytes stand for runes.
unfoldable pub valid_correlation_id : Text → Bool
valid_correlation_id value =
    leb 1 (length value) && leb (length value) 160 && all_bytes is_subject value

abbrev pub unauthorized : Text → Reply
unauthorized id =
    write_problem id 401 (text "unauthorized") (text "A valid actor credential is required.")

abbrev pub forbidden : Text → Reply
forbidden id =
    write_problem id 403 (text "forbidden")
      (text "The authenticated actor does not have permission for this operation.")

abbrev pub invalid_session : Text → Reply
invalid_session id =
    write_problem id 400 (text "invalid_session_id")
      (text "X-Quantum-Session-ID does not match policy.")

-- The session that the header names, or one named for the request.
unfoldable pub session_of : Text → Text → Result Reply Text
session_of id header =
    let session = trim_space header in
    if session == []
    then ok (text "session-" ++ id)
    else if not (valid_correlation_id session)
    then err (invalid_session id)
    else ok session

-- The tests of Server.requirePermission, with the context that it gives to the handler.
unfoldable pub authorize : Option Authenticator → Permission → Text → Headers → Result Reply Context
authorize actors permission id headers = do
  (actor, credential) ←
      or_fail (authenticate_request actors headers.authorization) (unauthorized id)
  require (has_permission actor permission) (forbidden id)
  session ← session_of id headers.session
  ok (record { request_id = id; session_id = session; actor = actor; credential = credential })

module _ {W : Type 0} where
  -- Server.requirePermission
  unfoldable pub require_permission :
      Option Authenticator
      → Permission
      → Text
      → Headers
      → (Context → State W → Reply × State W)
      → State W
      → Reply × State W
  require_permission actors permission id headers next state =
      elim (authorize actors permission id headers) [
        | err reply ↦ (reply, state)
        | ok context ↦ next context state
      ]
