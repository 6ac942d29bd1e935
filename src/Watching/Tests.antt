-- ===== src/Watching/Tests.antt =====
-- hpfeeds/broker/utils/inotify.py: links that point at each other, and a link that is replaced.
use hpfeeds.Prelude.{
  ◌≡◌, refl, ◌⊎◌, List, [], ◌∷◌, ◌++◌, true, Option, none, some, not, ◌&&◌, ◌||◌, arith, text_eq,
  text_eq_iff, contains, add, to_set, list_eq, if◌then◌else◌,
}
use hpfeeds.Python.Result.{Result, ok, err, runtime_error}
use hpfeeds.Python.Exec.{pure, raise, gets, modify, ◌>>=◌}
use hpfeeds.Python.Values.{Text, codes}
use hpfeeds.Watching.Paths.{
  lookup, set_seen, add_found, split_path, follow, on_seen, enter, walk, resolve, find_paths,
  resolve_paths, sep, is_absolute,
}
use hpfeeds.Watching.Paths.Plain.{Plain, top, IsName, Plain-is_absolute}
use hpfeeds.Watching.Paths.Ends.{resolve_paths_ends}
use hpfeeds.Watching.Watches.{
  Watcher, descriptor, watching, without, minus, Base, unwatched, unwatch, unwatch_all, watch_all,
  rewatch, renew, watch_loop, watch_task,
}
use hpfeeds.Watching.Watches.Current.{Known, watching-without, watch_task-Watches}

-- /a -> b and /b -> /a, and every text without a separator in front is a link.
abbrev in_circles : Text → Option Text
in_circles p =
    if not (is_absolute p)
    then some (codes "x")
    else if text_eq p (codes "/a")
    then some (codes "b")
    else if text_eq p (codes "/b")
    then some (codes "/a")
    else none

abbrev both : List Text
both = codes "/a" ∷ codes "/b" ∷ []

in_circles-both :
    (p name t : Text)
    → Plain in_circles p
    → IsName name
    → in_circles (p ++ sep ∷ name) ≡ some t
    → contains (p ++ sep ∷ name) both ≡ true
unfolding contains
in_circles-both p name t g i e =
    let q = p ++ sep ∷ name in
    ground (
      arith,
      e,
      Plain-is_absolute in_circles g name,
      text_eq_iff q (codes "/a"),
      text_eq_iff q (codes "/b"),
    )

resolve_paths_ends_example :
    ((ps : List Text) × (resolve_paths in_circles 3 [] (codes "/a/x") ≡ ok ps))
    ⊎ (resolve_paths in_circles 3 [] (codes "/a/x") ≡ err runtime_error)
resolve_paths_ends_example =
    resolve_paths_ends in_circles both in_circles-both 3 [] (codes "/a/x") top (omega arith)

-- /a -> b
abbrev one_link : Text → Option Text
one_link p = if text_eq p (codes "/a") then some (codes "b") else none

abbrev no_link : Text → Option Text
no_link p = none

resolved :
    (resolve_paths one_link 2 [] (codes "/a")
      ≡ ok (codes "/b" ∷ codes "/b" ∷ codes "/a" ∷ codes "/a" ∷ []))
    × (resolve_paths no_link 2 [] (codes "/a") ≡ ok (codes "/a" ∷ codes "/a" ∷ codes "/a" ∷ []))
unfolding resolve_paths find_paths resolve walk enter on_seen follow set_seen add_found lookup
    split_path raise gets modify pure ◌>>=◌ text_eq
resolved = (refl, refl)

-- The links of the example in the docstring of _resolve_paths.
abbrev farm : Text → Option Text
farm p =
    if text_eq p (codes "/tmp/foo.json")
    then some (codes "/tmp/_data/foo.json")
    else if text_eq p (codes "/tmp/_data")
    then some (codes "/tmp/_1")
    else none

-- As a set it is the list of the docstring: /tmp/_data/foo.json is not among them.
documented :
    resolve_paths farm 3 [] (codes "/tmp/foo.json")
    ≡ ok (
        codes "/tmp/_1/foo.json"
        ∷ codes "/tmp/_1/foo.json"
        ∷ codes "/tmp/_1"
        ∷ codes "/tmp"
        ∷ codes "/tmp/_data"
        ∷ codes "/tmp"
        ∷ codes "/tmp/foo.json"
        ∷ codes "/tmp"
        ∷ codes "/tmp/foo.json"
        ∷ [])
unfolding resolve_paths find_paths resolve walk enter on_seen follow set_seen add_found lookup
    split_path raise gets modify pure ◌>>=◌ text_eq
documented = refl

-- A base class that watches every path, with one descriptor.
abbrev watch_path : Text → Watcher → Result Watcher
watch_path p w = ok (record {
  descriptors = (p, 1) ∷ w.descriptors;
  requests = p ∷ w.requests;
  aliases = 1 ∷ w.aliases;
})

abbrev unwatch_path : Text → Watcher → Result Watcher
unwatch_path p w = ok (record w { descriptors = without p w.descriptors })

watch_path-adds :
    (p q : Text) (w w' : Watcher)
    → watch_path p w ≡ ok w'
    → watching w' q ≡ (text_eq p q || watching w q)
unfolding descriptor
watch_path-adds p q w w' e = ground arith

unwatch_path-removes :
    (p q : Text) (w w' : Watcher)
    → unwatch_path p w ≡ ok w'
    → watching w' q ≡ (not (text_eq p q) && watching w q)
unwatch_path-removes p q w w' e = ground (arith, watching-without p q w.descriptors)

abbrev tables : Base
tables = record {
  watch = watch_path;
  unwatch = unwatch_path;
  order = λ ts. ts;
  watch-adds = watch_path-adds;
  unwatch-removes = unwatch_path-removes;
  contains-order = λ t ts. refl;
}

abbrev rounds : List ((Text → Option Text) × Text)
rounds = (one_link, codes "/a") ∷ (no_link, codes "/a") ∷ []

is_found :
    (alias : Text) (r : Result (List Text)) (found ps : List Text)
    → r ≡ ok ps
    → contains alias ps ≡ true
    → r ≡ ok found
    → contains alias found ≡ true
is_found alias r found ps p c e = ground (arith, p, e, c)

rounds-Known : Known tables 2 [] (codes "/a") rounds
unfolding contains text_eq
rounds-Known = (
  λ found. is_found (codes "/a") _ found _ resolved.0 refl,
  (λ found. is_found (codes "/a") _ found _ resolved.1 refl, tt),
)

-- The task after both rounds: /b is not watched any more.
abbrev left : Watcher
left = record {
  descriptors = (codes "/a", 1) ∷ [];
  requests = codes "/a" ∷ codes "/a" ∷ codes "/a" ∷ codes "/b" ∷ [];
  aliases = 1 ∷ 1 ∷ 1 ∷ 1 ∷ [];
}

watched-ok : watch_task tables 2 true [] (codes "/a") rounds ≡ ok (codes "/a" ∷ [], left)
unfolding watch_task watch_loop resolve_paths find_paths resolve walk enter on_seen follow set_seen
    add_found lookup split_path raise gets modify pure ◌>>=◌ text_eq rewatch renew unwatch_all
    unwatch unwatched watch_all minus contains to_set add without
watched-ok = refl

watch_task-Watches_example : watching left (codes "/b") ≡ contains (codes "/b") (codes "/a" ∷ [])
watch_task-Watches_example =
    watch_task-Watches tables 2 true [] (codes "/a") rounds (codes "/a" ∷ []) left rounds-Known
      watched-ok (codes "/b")
