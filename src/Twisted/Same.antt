-- ===== src/Twisted/Same.antt =====
-- hpfeeds/twisted against hpfeeds/asyncio: the two clients do the same.
pub mod Loop
pub mod Calls
use hpfeeds.Prelude.{
  ℕ, zero, suc, ◌≤◌, ◌==◌, ◌≡◌, refl, List, [], ◌∷◌, Bool, true, false, not, Option, none, some,
  if◌then◌else◌, arith, list_eq, ap, ◌∙◌,
}
use hpfeeds.Python.Result.{Error, Result, ok, err, stop_iteration, is_protocol_exception}
use hpfeeds.Python.Exec.{Exec, pure, raise, lift, gets, modify, when, try, continue, ◌>>=◌, ◌>>◌}
use hpfeeds.Python.Exec.Simulates.{
  Simulates, simulates_rules, bind-Simulates, pure-Simulates, fired-Simulates, gets-Simulates,
  modify-Simulates, lift-Simulates, if-Simulates, for_each-Simulates, try-Simulates,
}
use hpfeeds.Python.Struct.{Bytes}
use hpfeeds.Python.Values.{Text}
use hpfeeds.Wire.Opcode.{op_error, op_info, op_auth, op_publish, op_subscribe, op_unsubscribe}
use hpfeeds.Wire.Unpacker.{Unpacker, Message, unpack}
use hpfeeds.Protocol
use hpfeeds.Client.Session.{Packet, Config, Session}
use hpfeeds.Client.Session
use hpfeeds.Twisted.Service.{Service}
use hpfeeds.Twisted.Service

-- The service as a session that is not being closed.
abbrev pub as_session : Service → Session
as_session s = record {
  subscriptions = s.subscriptions;
  read_queue = s.read_queue;
  connected = s.protocol;
  when_connected = s.when_connected;
  when_closed = false;
  closing = false;
  unpacker = s.unpacker;
  written = s.written;
  hung_up = s.losing;
}

-- What the service does, the session does.
abbrev pub Same : Exec Service (Unit {0}) → Exec Session (Unit {0}) → Type 0
Same m n = Simulates as_session m n

module _ (cfg : Config) where
  pub send-Same : (p : Packet) → Same (Service.send cfg p) (Session.send cfg p)
  unfolding Service.send Session.send
  send-Same p =
      bind-Simulates as_session _ _ _ _ (lift-Simulates as_session _)
        (λ m. modify-Simulates as_session _ _ (λ s. refl))

  fire_connected-Same : Same (Service.fire_connected cfg) (Session.fire_connected cfg)
  unfolding Service.fire_connected Session.fire_connected
  fire_connected-Same =
      bind-Simulates as_session _ _ _ _ (gets-Simulates as_session _ _ (λ s. refl)) λ b.
        if-Simulates as_session b _ _ _ _ (λ e. fired-Simulates as_session)
          (λ e. modify-Simulates as_session _ _ (λ s. refl))

  pub connection_ready-Same : Same (Service.connection_ready cfg) (Session.connection_ready cfg)
  unfolding Service.connection_ready Session.connection_ready
  connection_ready-Same =
      bind-Simulates as_session _ _ _ _ (modify-Simulates as_session _ _ (λ s. refl)) λ u.
        bind-Simulates as_session _ _ _ _ (gets-Simulates as_session _ _ (λ s. refl)) λ topics.
          bind-Simulates as_session _ _ _ _
            (for_each-Simulates as_session (cfg.order topics) _ _
              (λ topic. send-Same (Session.subscribes topic)))
            (λ v. fire_connected-Same)

  pub on_info-Same :
      (name : Text) (rand : Bytes)
      → Same (Service.on_info cfg name rand) (Session.on_info cfg name rand)
  unfolding Service.on_info Session.on_info
  on_info-Same name rand =
      bind-Simulates as_session _ _ _ _ (send-Same (Session.authenticates rand))
        (λ u. connection_ready-Same)

  pub on_publish-Same :
      (ident chan : Text) (x : Bytes)
      → Same (Service.on_publish ident chan x) (Session.on_publish cfg ident chan x)
  unfolding Service.on_publish Session.on_publish
  on_publish-Same ident chan x = modify-Simulates as_session _ _ (λ s. refl)

  pub on_unexpected-Same : Same Service.on_unexpected (Session.on_unexpected cfg)
  unfolding Service.on_unexpected Session.on_unexpected Service.lose_connection Session.hang_up
  on_unexpected-Same = modify-Simulates as_session _ _ (λ s. refl)
