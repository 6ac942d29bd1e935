-- ===== src/Broker/Startup/Tracks.antt =====
-- hpfeeds/broker/server.py: what serve_forever knows of what it started.
use hpfeeds.Prelude.{
  ℕ, ◌≡◌, refl, List, [], ◌∷◌, ◌++◌, append_assoc, append-nil, Bool, true, false, some, ap, sym,
  ◌∙◌,
}
use hpfeeds.Python.Result.{Error}
use hpfeeds.Python.Exec.{raise, for_each}
use hpfeeds.Python.Exec.Keeps.{
  Keeps, Keeps-pure, Keeps-raise, Keeps-modify, Keeps-bind, Keeps-if, Keeps-for_each,
}
use hpfeeds.Broker.Startup.{
  Resource, the_auth, the_metrics, a_server, a_watcher, Endpoint, Run, add_cleanup, watch_or_load,
  create_ssl_context, and_server, add_server, open_endpoint,
}

-- The parts of a history.
unfoldable pub pick : {A : Type 0} → (Resource → List A) → List Resource → List A
pick f [] = []
pick f (r ∷ rs) = f r ++ pick f rs

pub pick-append :
    {A : Type 0} (f : Resource → List A) (rs ss : List Resource)
    → pick f (rs ++ ss) ≡ pick f rs ++ pick f ss
unfolding pick
pick-append f [] ss = refl
pick-append f (r ∷ rs) ss =
    ap (λ x. f r ++ x) (pick-append f rs ss) ∙ sym (append_assoc (f r) (pick f rs) (pick f ss))

abbrev pub server_of : Resource → List ℕ
server_of (a_server n) = n ∷ []
server_of r = []

abbrev pub watcher_of : Resource → List ℕ
watcher_of (a_watcher n) = n ∷ []
watcher_of r = []

abbrev pub other_of : Resource → List Resource
other_of the_auth = the_auth ∷ []
other_of the_metrics = the_metrics ∷ []
other_of r = []

abbrev pub auths : Bool → List Resource
auths true = the_auth ∷ []
auths false = []

-- While the server starts its endpoints.
pub record Tracks (g : Bool) (s : Run) : Type 0 where
  pub has_servers : s.servers ≡ some (pick server_of s.opened)
  pub has_cleanups : s.cleanups ≡ pick watcher_of s.opened
  pub others : pick other_of s.opened ≡ auths g ++ the_metrics ∷ []
  pub has_metrics : s.metrics_finalizer ≡ true
  pub has_auth : s.auth_finalizer ≡ some g
  pub none_closed : s.closed ≡ []

module _ (g : Bool) where
  abbrev pub Still : Error → Run → Type 0
  Still e s = Tracks g s

  raise-Tracks : (e : Error) → Keeps (Tracks g) Still (raise {A = Unit {0}} e)
  raise-Tracks e = Keeps-raise e (λ s h. h)

  add_cleanup-Tracks : Keeps (Tracks g) Still add_cleanup
  unfolding add_cleanup pick
  add_cleanup-Tracks = Keeps-modify _ λ s h. record {
    has_servers = h.has_servers ∙ ap some (sym (pick-append server_of s.opened _ ∙ append-nil _));
    has_cleanups =
        ap (λ x. x ++ s.next ∷ []) h.has_cleanups
        ∙ sym (pick-append watcher_of s.opened (a_watcher s.next ∷ []));
    others = pick-append other_of s.opened _ ∙ append-nil _ ∙ h.others;
    has_metrics = h.has_metrics;
    has_auth = h.has_auth;
    none_closed = h.none_closed;
  }

  add_server-Tracks : Keeps (Tracks g) Still add_server
  unfolding add_server pick
  add_server-Tracks = Keeps-modify _ λ s h. record {
    has_servers =
        ap (and_server s.next) h.has_servers
        ∙ ap some (sym (pick-append server_of s.opened (a_server s.next ∷ [])));
    has_cleanups = h.has_cleanups ∙ sym (pick-append watcher_of s.opened _ ∙ append-nil _);
    others = pick-append other_of s.opened _ ∙ append-nil _ ∙ h.others;
    has_metrics = h.has_metrics;
    has_auth = h.has_auth;
    none_closed = h.none_closed;
  }

  watch_or_load-Tracks : (w l : Bool) → Keeps (Tracks g) Still (watch_or_load w l)
  unfolding watch_or_load
  watch_or_load-Tracks true l = add_cleanup-Tracks
  watch_or_load-Tracks false true = Keeps-pure tt
  watch_or_load-Tracks false false = raise-Tracks _

  open_endpoint-Tracks : (e : Endpoint) → Keeps (Tracks g) Still (open_endpoint e)
  unfolding open_endpoint create_ssl_context
  open_endpoint-Tracks e =
      Keeps-bind _ _
        (Keeps-if e.is_tls _ _
          (λ p.
            Keeps-bind _ _ (watch_or_load-Tracks e.cert_watcher e.cert_loads)
              (λ u. watch_or_load-Tracks e.key_watcher e.key_loads))
          (λ p. Keeps-pure tt))
        (λ u. Keeps-if e.listens _ _ (λ p. add_server-Tracks) (λ p. raise-Tracks _))

  pub endpoints-Tracks : (es : List Endpoint) → Keeps (Tracks g) Still (for_each es open_endpoint)
  endpoints-Tracks es = Keeps-for_each es open_endpoint open_endpoint-Tracks
