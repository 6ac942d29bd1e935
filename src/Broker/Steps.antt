-- ===== src/Broker/Steps.antt =====
-- What can happen to the broker, one step at a time: the event loop calls a method of one
-- connection, with any bytes, in any order. An exception ends the call that raised it, and the
-- loop goes on. The fuel of a step is any number, so a loop that would not end is seen at every
-- stage of it.
pub mod Invariant
use hpfeeds.Prelude.{
  ℕ, ◌≡◌, List, [], ◌∷◌, ◌++◌, false, Option, none, some, contains, count, nat_eq,
}
use hpfeeds.Python.Struct.{Bytes}
use hpfeeds.Python.Values.{Text}
use hpfeeds.Broker.State.{
  Broker, Conn, Env, Row, Answer, found, now, awaitable, on_conn, new_conn, close,
}
use hpfeeds.Broker.Lifecycle.{made, lost, pause_writing, resume_writing, deadline_expired}
use hpfeeds.Broker.Handlers.{on_auth_result}
use hpfeeds.Broker.Loop.{process_pending, data_received}

-- A number that no table of the broker names.
pub record Fresh (c : ℕ) (b : Broker) : Type 0 where
  pub unlisted : contains c b.connections ≡ false
  pub unsubscribed : (chan : Text) → count c (b.subscriptions chan) ≡ 0

-- The broker once the task is over.
abbrev pub without_task : List (ℕ × Text × Bytes) → Broker → Broker
without_task rest b = record b { tasks = rest }

-- `G` says which rows the authenticator grants to an ident.
pub data Step (env : Env) (G : Text → Row → Type 0) (b : Broker) : Broker → Type 0 where
  connect :
      (c : ℕ) (rand : Bytes)
      → Fresh c b
      → Step env G b (made env c (on_conn c (λ _. new_conn rand) b)).1
  receive : (fuel c : ℕ) (chunk : Bytes) → Step env G b (data_received env fuel c chunk b).1
  answer :
      (fuel c : ℕ) (ident : Text) (secret : Bytes) (a : Answer)
      (front back : List (ℕ × Text × Bytes))
      → b.tasks ≡ front ++ (c, ident, secret) ∷ back
      → ((row : Row) → a ≡ found (some row) → G ident row)
      → Step env G b
          (on_auth_result env
            (process_pending env fuel c)
            c
            ident
            secret
            a
            (without_task (front ++ back) b)).1
  disconnect : (c : ℕ) → Step env G b (lost env c b).1
  -- the transport starts to close for reasons of its own
  break_off : (c : ℕ) → Step env G b (close c b).1
  full : (c : ℕ) → Step env G b (pause_writing c b).1
  drained : (c : ℕ) → Step env G b (resume_writing c b).1
  expired : (c : ℕ) → Step env G b (deadline_expired env c b).1

pub data Reach (env : Env) (G : Text → Row → Type 0) (s : Broker) : Broker → Type 0 where
  here : Reach env G s s
  next : {t u : Broker} → Reach env G s t → Step env G t u → Reach env G s u

-- Server.__init__: no connections and no subscriptions. No number names a connection yet.
abbrev pub started : Broker
started = record {
  conns = λ _. record (new_conn []) { attached = false };
  connections = [];
  subscriptions = λ _. [];
  tasks = [];
  metrics = [];
}
