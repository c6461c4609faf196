-- ===== src/Socket/Client.antt =====
-- internal/socket/client.go: `Call` on the review socket, as its caller and the service see it.
use request_sudo.Base.{Option, none, some}
use request_sudo.Core.{PeerIdentity}
use request_sudo.Events.Json.{Json}
use request_sudo.Protocol.{WireRequest, Response}
use request_sudo.Broker.State.{Service}
use request_sudo.Socket.{Lane, Server, CallEnv, handle_conn}

-- How far a call comes: the socket cannot be dialled, the message is not sent whole, its answer is not
-- read, or all is well.
pub data Delivery : Type 0 where
  not_dialled not_encoded not_decoded delivered : Delivery

module _ (J : Json) (server : Server) (lane : Lane) (env : CallEnv)
    (peer : Option PeerIdentity) where
  -- `Call`; none is an error.
  unfoldable pub socket_call : Delivery → WireRequest → Service → Service × Option Response
  socket_call not_dialled request s = (s, none)
  socket_call not_encoded request s = (s, none)
  socket_call not_decoded request s = ((handle_conn J server lane env peer request s).0, none)
  socket_call delivered request s =
      let (s', response) = handle_conn J server lane env peer request s in (s', some response)
