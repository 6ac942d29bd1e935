-- ===== src/Broker/Rules.antt =====
-- One proof for every invariant: the handlers of a connection keep what the calls that they make
-- keep. `P` is the invariant, `E` is what is known when an exception comes out, and `G` is what
-- the authenticator's answer says of a row that is granted to an ident.
pub mod Loop
use hpfeeds.Prelude.{
  ℕ, zero, suc, ◌≡◌, refl, ◌⊎◌, inl, inr, List, [], ◌∷◌, Bool, true, false, not, ◌&&◌, Option, none,
  some, if◌then◌else◌, Bool-cases, arith, ap,
}
use hpfeeds.Python.Result.{
  Error, Result, ok, err, is_clean, is_protocol_exception, attribute_error, key_error, type_error,
  not_implemented, lookup_error,
}
use hpfeeds.Python.Result.Clean.{Clean, Clean-ok, Clean-err}
use hpfeeds.Python.Exec.{Exec, pure, raise, lift, gets, modify, when, try, for_each, ◌>>=◌, ◌>>◌}
use hpfeeds.Python.Exec.Keeps.{
  Keeps, Outcome, keeps_rules, Keeps-pure, Keeps-lift, Keeps-try, Keeps-bind, Keeps-for_each,
  Keeps-gets, Keeps-modify, Keeps-raise, Keeps-if,
}
use hpfeeds.Python.Struct.{Bytes}
use hpfeeds.Python.Values.{Text, Library, text, bytes}
use hpfeeds.Wire.Message.Clean.{
  hashsecret-Clean, msgerror-Clean, msginfo-Clean, msgpublish-Clean, readerror-Clean,
  readinfo-Clean, readauth-Clean, readsubscribe-Clean, readunsubscribe-Clean, readpublish-Clean,
}
use hpfeeds.Broker.State.{
  Broker, Conn, Env, Row, Answer, found, failed, Lookup, now, awaitable, M, Metric,
  client_connections_inc, client_connections_dec, Category, self, assign, record_metric, server,
  write, close, pause_reading, resume_reading, set_write_buffer_limits,
}
use hpfeeds.Broker.Subscriptions.{subscribe, unsubscribe}
use hpfeeds.Broker.Lifecycle.{error, info, is_closing, lost}
use hpfeeds.Broker.Publish.{event, send_event, publish_to, publish, any_exception}
use hpfeeds.Broker.Handlers.{
  item, refuse, accept, authenticate, on_lookup, on_auth, on_auth_result, on_publish, on_subscribe,
  on_unsubscribe, dispatch, message_received,
}

-- The gauge of the open connections.
abbrev pub is_gauge : Metric → Bool
is_gauge client_connections_inc = true
is_gauge client_connections_dec = true
is_gauge _ = false

pub record Stable (env : Env) (P : Broker → Type 0) (E : Error → Broker → Type 0)
    (G : Text → Row → Type 0) : Type 0 where
  pub raised : (e : Error) → is_clean e ≡ true → (b : Broker) → P b → E e b
  pub recovered : (e : Error) → is_clean e ≡ true → (b : Broker) → E e b → P b
  pub at_metric : (m : Metric) → is_gauge m ≡ false → Keeps P E (record_metric m)
  pub at_write : (c : ℕ) (m : Bytes) → Keeps P E (write c m)
  pub at_close : (c : ℕ) → Keeps P E (close c)
  pub at_pause : (c : ℕ) → Keeps P E (pause_reading c)
  pub at_task :
      (c : ℕ) (ident : Text) (secret : Bytes)
      → Keeps P E (modify (λ b. record b { tasks = (c, ident, secret) ∷ b.tasks }))
  pub at_subscribe : (c : ℕ) (chan : Text) → Keeps P E (subscribe c chan)
  pub at_unsubscribe : (c : ℕ) (chan : Text) → Keeps P E (unsubscribe c chan)
  pub at_lost : (c : ℕ) → Keeps P E (lost env c)
  pub at_accept :
      (pending : M (Unit {0})) (c : ℕ) (ident : Text) (row : Row)
      → Keeps P E pending
      → G ident row
      → Keeps P E (accept env pending c ident row)

module _ (env : Env) {P : Broker → Type 0} {E : Error → Broker → Type 0} {G : Text → Row → Type 0}
    (st : Stable env P E G) where
  open st use {
    raised, recovered, at_metric, at_write, at_close, at_pause, at_task, at_subscribe,
    at_unsubscribe, at_lost, at_accept,
  }

  pub Keeps-raised : {A : Type 0} (e : Error) → is_clean e ≡ true → Keeps P E (raise {A = A} e)
  Keeps-raised e k = Keeps-raise e (raised e k)

  pub Keeps-Clean : {A : Type 0} (r : Result A) → Clean r → Keeps P E (lift r)
  Keeps-Clean r c = Keeps-lift r (λ e h. raised e (c.at e h))

  pub Keeps-self : {A : Type 0} (c : ℕ) (f : Conn → A) → Keeps P E (self c f)
  unfolding self
  Keeps-self c f = Keeps-gets _

  pub Keeps-server : (c : ℕ) → Keeps P E (server c)
  unfolding server
  Keeps-server c = search (keeps_rules, Keeps-self, Keeps-raised)

  pub Keeps-error : (c : ℕ) (reason : Text) → Keeps P E (error env c reason)
  unfolding error
  Keeps-error c reason = search (keeps_rules, Keeps-Clean, msgerror-Clean, at_write)

  pub Keeps-info : (c : ℕ) (name : Text) (rand : Bytes) → Keeps P E (info env c name rand)
  unfolding info
  Keeps-info c name rand = search (keeps_rules, Keeps-Clean, msginfo-Clean, at_write)

  ruleset calls = (keeps_rules, Keeps-self, Keeps-server, Keeps-raised, Keeps-Clean, Keeps-error)

  event-Clean :
      (ak : Option Text) (chan : Text) (payload : Bytes) → Clean (event env.lib ak chan payload)
  unfolding event
  event-Clean none chan payload = Clean-err type_error refl refl
  event-Clean (some ak) chan payload = msgpublish-Clean env.lib _ _ _

  Keeps-send_event :
      (source dest : ℕ) (chan : Text) (payload : Bytes)
      → Keeps P E (send_event env source dest chan payload)
  unfolding send_event
  Keeps-send_event source dest chan payload = search (calls, event-Clean, at_write)

  Keeps-is_closing : (c : ℕ) → Keeps P E (is_closing c)
  unfolding is_closing
  Keeps-is_closing c = Keeps-self c _

  Keeps-try_send :
      (source dest : ℕ) (chan : Text) (payload : Bytes)
      → Keeps P E (try any_exception (send_event env source dest chan payload) (close dest))
  Keeps-try_send source dest chan payload =
      Keeps-try any_exception _ (close dest) (Keeps-send_event source dest chan payload)
        (λ e t k h. (at_close dest).at t (recovered e k t h))

  Keeps-publish_to :
      (source : ℕ) (chan : Text) (payload : Bytes) (dest : ℕ)
      → Keeps P E (publish_to env source chan payload dest)
  unfolding publish_to
  Keeps-publish_to source chan payload dest =
      search (calls, Keeps-is_closing, Keeps-try_send, at_metric, at_lost) depth 8

  Keeps-publish :
      (source : ℕ) (chan : Text) (payload : Bytes) → Keeps P E (publish env source chan payload)
  unfolding publish
  Keeps-publish source chan payload = search (calls, Keeps-publish_to, at_metric) depth 9

  pub Keeps-refuse :
      (c : ℕ) (ident : Option Text) (k : Category) (reason : Text)
      → Keeps P E (refuse env c ident k reason)
  unfolding refuse
  Keeps-refuse c ident k reason = search (calls, at_metric, at_close)

  pub Keeps-on_publish :
      (c : ℕ) (ident chan : Text) (payload : Bytes)
      → Keeps P E (on_publish env c ident chan payload)
  unfolding on_publish
  Keeps-on_publish c ident chan payload = search (calls, Keeps-refuse, Keeps-publish) depth 9

  pub Keeps-on_subscribe : (c : ℕ) (ident chan : Text) → Keeps P E (on_subscribe env c ident chan)
  unfolding on_subscribe
  Keeps-on_subscribe c ident chan = search (calls, Keeps-refuse, at_subscribe)

  pub Keeps-on_unsubscribe :
      (c : ℕ) (ident chan : Text) → Keeps P E (on_unsubscribe env c ident chan)
  unfolding on_unsubscribe
  Keeps-on_unsubscribe c ident chan = search (calls, at_unsubscribe)

  item-Clean : {A : Type 0} (o : Option A) → Clean (item o)
  item-Clean none = Clean-err key_error refl refl
  item-Clean (some a) = Clean-ok a

  pub Keeps-authenticate :
      (pending : M (Unit {0})) (c : ℕ) (ident : Text) (secret : Bytes) (akrow : Option Row)
      → Keeps P E pending
      → ((row : Row) → akrow ≡ some row → G ident row)
      → Keeps P E (authenticate env pending c ident secret akrow)
  unfolding authenticate
  Keeps-authenticate pending c ident secret none k g = Keeps-refuse c _ _ _
  Keeps-authenticate pending c ident secret (some row) k g =
      search (calls, Keeps-refuse, hashsecret-Clean, item-Clean, at_accept, g) depth 9

  Keeps-on_lookup :
      (pending : M (Unit {0})) (c : ℕ) (ident : Text) (secret : Bytes) (l : Lookup)
      → Keeps P E pending
      → ((row : Row) → l ≡ now (found (some row)) → G ident row)
      → Keeps P E (on_lookup env pending c ident secret l)
  unfolding on_lookup
  Keeps-on_lookup pending c ident secret (now failed) k g = Keeps-raised lookup_error refl
  Keeps-on_lookup pending c ident secret (now (found akrow)) k g =
      let known =
        Keeps-authenticate pending c ident secret akrow k
          (λ row e. g row (ap (λ r. now (found r)) e)) in
      search (calls, known)
  Keeps-on_lookup pending c ident secret awaitable k g = search (calls, at_task, at_pause)

  pub Keeps-on_auth_result :
      (pending : M (Unit {0})) (c : ℕ) (ident : Text) (secret : Bytes) (a : Answer)
      → Keeps P E pending
      → ((row : Row) → a ≡ found (some row) → G ident row)
      → Keeps P E (on_auth_result env pending c ident secret a)
  unfolding on_auth_result
  Keeps-on_auth_result pending c ident secret failed k g = Keeps-refuse c _ _ _
  Keeps-on_auth_result pending c ident secret (found akrow) k g =
      Keeps-authenticate pending c ident secret akrow k (λ row e. g row (ap found e))

  module _
      (granted : (ident : Text) (row : Row)
        → env.get_authkey ident ≡ now (found (some row))
        → G ident row) where
    Keeps-on_auth :
        (pending : M (Unit {0})) (c : ℕ) (ident : Text) (secret : Bytes)
        → Keeps P E pending
        → Keeps P E (on_auth env pending c ident secret)
    unfolding on_auth
    Keeps-on_auth pending c ident secret k = search (calls, Keeps-on_lookup, granted) depth 8

    Keeps-dispatch :
        (pending : M (Unit {0})) (c opcode : ℕ) (payload : Bytes)
        → Keeps P E pending
        → Keeps P E (dispatch env pending c opcode payload)
    unfolding dispatch
    Keeps-dispatch pending c opcode payload k =
        search
          (
            calls, readerror-Clean, readinfo-Clean, readauth-Clean, readpublish-Clean,
            readsubscribe-Clean, readunsubscribe-Clean, Keeps-on_auth, Keeps-on_publish,
            Keeps-on_subscribe, Keeps-on_unsubscribe, at_close,
          )
          depth 12

    pub Keeps-message_received :
        (pending : M (Unit {0})) (c opcode : ℕ) (payload : Bytes)
        → Keeps P E pending
        → Keeps P E (message_received env pending c opcode payload)
    unfolding message_received
    Keeps-message_received pending c opcode payload k = search (calls, Keeps-refuse, Keeps-dispatch)
