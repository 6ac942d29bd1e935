-- ===== src/Broker/Startup/History.antt =====
-- hpfeeds/broker/server.py: the parts of what serve_forever closes.
use hpfeeds.Prelude.{ℕ, ◌≡◌, refl, List, [], ◌∷◌, ◌++◌, Bool, true, false, ap, ◌∙◌}
use hpfeeds.Broker.Startup.{Resource, the_metrics, a_server, a_watcher}
use hpfeeds.Broker.Startup.Tracks.{pick, pick-append, server_of, watcher_of, other_of, auths}

abbrev pub each : (ℕ → Resource) → List ℕ → List Resource
each f [] = []
each f (n ∷ ns) = f n ∷ each f ns

-- What `finally` closes of a history, in order.
abbrev pub all_closed : Bool → List Resource → List Resource
all_closed g opened =
    ((each a_server (pick server_of opened) ++ each a_watcher (pick watcher_of opened))
      ++ the_metrics ∷ [])
    ++ auths g

pub pick-each :
    {A : Type 0} (f : Resource → List A) (k : ℕ → Resource) (ns : List ℕ)
    → ((n : ℕ) → f (k n) ≡ [])
    → pick f (each k ns) ≡ []
unfolding pick
pick-each f k [] e = refl
pick-each f k (n ∷ ns) e = ap (λ x. x ++ pick f (each k ns)) (e n) ∙ pick-each f k ns e

pub pick-each_self :
    (f : Resource → List ℕ) (k : ℕ → Resource) (ns : List ℕ)
    → ((n : ℕ) → f (k n) ≡ n ∷ [])
    → pick f (each k ns) ≡ ns
unfolding pick
pick-each_self f k [] e = refl
pick-each_self f k (n ∷ ns) e =
    ap (λ x. x ++ pick f (each k ns)) (e n) ∙ ap (λ x. n ∷ x) (pick-each_self f k ns e)

pub pick-all_closed :
    {A : Type 0} (f : Resource → List A) (g : Bool) (rs : List Resource)
    → pick f (all_closed g rs)
      ≡ ((pick f (each a_server (pick server_of rs))
            ++ pick f (each a_watcher (pick watcher_of rs)))
          ++ pick f (the_metrics ∷ []))
        ++ pick f (auths g)
pick-all_closed f g rs =
    let ss = each a_server (pick server_of rs) in
    let ws = each a_watcher (pick watcher_of rs) in
    pick-append f ((ss ++ ws) ++ the_metrics ∷ []) (auths g)
    ∙ ap (λ x. x ++ pick f (auths g))
        (pick-append f (ss ++ ws) (the_metrics ∷ [])
          ∙ ap (λ x. x ++ pick f (the_metrics ∷ [])) (pick-append f ss ws))

pub auths-picks :
    (g : Bool)
    → (pick server_of (auths g) ≡ [])
      × (pick watcher_of (auths g) ≡ [])
      × (pick other_of (auths g) ≡ auths g)
unfolding pick
auths-picks true = (refl, refl, refl)
auths-picks false = (refl, refl, refl)
