-- ===== src/Twisted/Same/Calls.antt =====
-- hpfeeds/twisted/service.py against hpfeeds/asyncio/client.py: any sequence of calls.
use hpfeeds.Prelude.{refl, inl, List, not, contains, list_eq}
use hpfeeds.Python.Exec.{pure, gets, modify, when, for_each, ◌>>=◌, ◌>>◌}
use hpfeeds.Python.Exec.Simulates.{
  Alike, bind-Simulates, pure-Simulates, gets-Simulates, modify-Simulates, if-Simulates,
  for_each-Simulates,
}
use hpfeeds.Python.Values.{Text}
use hpfeeds.Client.Session.{Packet, Config, Session}
use hpfeeds.Client.Session
use hpfeeds.Twisted.Service.{
  Service, Call, receive, reconnecting, publishing, subscribing, unsubscribing, build_protocol,
}
use hpfeeds.Twisted.Service
use hpfeeds.Twisted.Same.{as_session, Same, send-Same}
use hpfeeds.Twisted.Same.Loop.{data_received-Same}

module _ (cfg : Config) where
  -- What a session of hpfeeds/asyncio does where the service is called.
  abbrev pub session_call : Call → Session.M (Unit {0})
  session_call (receive fuel chunk) = Session.data_received cfg fuel chunk
  session_call reconnecting = Session.connection_lost cfg >> Session.reconnect cfg
  session_call (publishing chan payload) = Session.publish cfg chan payload
  session_call (subscribing topic) = Session.subscribe cfg topic
  session_call (unsubscribing topic) = Session.unsubscribe cfg topic

  -- A packet goes out where there is a connection.
  tell-Same :
      (p : Packet)
      → Same
          (do protocol ← gets (λ s. s.protocol); when protocol (Service.send cfg p))
          (do connected ← gets (λ s. s.connected); when connected (Session.send cfg p))
  tell-Same p = bind-Simulates as_session _ _ _ _ (gets-Simulates as_session _ _ (λ s. refl)) λ b.
      if-Simulates as_session b _ _ _ _ (λ e. send-Same cfg p) (λ e. pure-Simulates as_session tt)

  -- A change of the set, and a packet.
  edit-Same :
      (p : Packet) (f : List Text → List Text)
      → Same
          (do
            modify (λ s. record s { subscriptions = f s.subscriptions })
            protocol ← gets (λ s. s.protocol)
            when protocol (Service.send cfg p))
          (do
            modify (λ s. record s { subscriptions = f s.subscriptions })
            connected ← gets (λ s. s.connected)
            when connected (Session.send cfg p))
  edit-Same p f =
      bind-Simulates as_session _ _ _ _ (modify-Simulates as_session _ _ (λ s. refl))
        (λ u. tell-Same p)

  reconnecting-Same :
      Same
        (Service.connection_lost >> build_protocol)
        (Session.connection_lost cfg >> Session.reconnect cfg)
  unfolding Service.connection_lost build_protocol Session.connection_lost Session.reconnect gets
      modify pure ◌>>=◌
  reconnecting-Same = record { at = λ s. (inl refl, refl) }

  subscribe-Same : (topic : Text) → Same (Service.subscribe cfg topic) (Session.subscribe cfg topic)
  unfolding Service.subscribe Session.subscribe
  subscribe-Same topic =
      bind-Simulates as_session _ _ _ _ (gets-Simulates as_session _ _ (λ s. refl)) λ ts.
        if-Simulates as_session (not (contains topic ts)) _ _ _ _
          (λ e. edit-Same (Session.subscribes topic) _) (λ e. pure-Simulates as_session tt)

  unsubscribe-Same :
      (topic : Text) → Same (Service.unsubscribe cfg topic) (Session.unsubscribe cfg topic)
  unfolding Service.unsubscribe Session.unsubscribe
  unsubscribe-Same topic =
      bind-Simulates as_session _ _ _ _ (gets-Simulates as_session _ _ (λ s. refl)) λ ts.
        if-Simulates as_session (contains topic ts) _ _ _ _
          (λ e. edit-Same (Session.unsubscribes topic) _) (λ e. pure-Simulates as_session tt)

  call-Same : (c : Call) → Same (Service.call cfg c) (session_call c)
  unfolding Service.call Service.publish Session.publish
  call-Same (receive fuel chunk) = data_received-Same cfg fuel chunk
  call-Same reconnecting = reconnecting-Same
  call-Same (publishing chan payload) = tell-Same (Session.publishes chan payload)
  call-Same (subscribing topic) = subscribe-Same topic
  call-Same (unsubscribing topic) = unsubscribe-Same topic

  -- The Twisted service does what the asyncio session does: for any sequence of calls, from states
  -- that agree, they raise the same exception or none, but that the service raises AlreadyCalledError
  -- where the session raises InvalidStateError, and come to states that agree again, with the same
  -- packets written, the same queue of messages and the same set of channels.
  pub calls-Same :
      (cs : List Call) (s : Service)
      → Alike as_session
          (for_each cs (Service.call cfg) s)
          (for_each cs session_call (as_session s))
  calls-Same cs s =
      (for_each-Simulates as_session cs (Service.call cfg) session_call call-Same).at s
