-- ===== src/Scripts/Cli.antt =====
-- hpfeeds/scripts/cli.py: `_main` over the calls of the client of hpfeeds/client.py. What it prints is
-- left out.
pub mod Exits
use hpfeeds.Prelude.{
  ℕ, ◌==◌, List, [], ◌∷◌, Bool, true, false, not, ◌&&◌, ◌||◌, Option, none, some, if◌then◌else◌,
  leb, take,
}
use hpfeeds.Python.Result.{Error, Result, ok, err, type_error, attribute_error, is_feed_exception}
use hpfeeds.Python.Exec.{pure, raise, lift, ◌>>=◌, ◌>>◌}
use hpfeeds.Python.Struct.{Bytes}
use hpfeeds.Python.Values.{Text, Library, text, bytes}
use hpfeeds.Legacy.Connection.{Config, M, tryconnect}
use hpfeeds.Legacy.Run.{subscribe, publish, wait, run, stop, close}
use hpfeeds.Scripts.Options.{Options, Action, to_subscribe, to_publish, to_sendfile}

-- i in string.printable.encode('utf-8')
abbrev pub printable : ℕ → Bool
printable i = (leb 9 i && leb i 13) || (leb 32 i && leb i 126)

abbrev pub all_printable : Bytes → Bool
all_printable [] = true
all_printable (i ∷ payload) = printable i && all_printable payload

-- on_message: `bytes` has no attribute `encode`
unfoldable pub on_message : Text → Text → Bytes → M (Unit {0})
on_message ident chan payload =
    if all_printable (take 20 payload) then pure tt else raise attribute_error

-- on_error of _main
unfoldable pub on_error : Text → M (Unit {0})
on_error payload = stop

-- for c in channels
abbrev pub iterated : Option (List Text) → Result (List Text)
iterated none = err type_error
iterated (some cs) = ok cs

abbrev pub or_empty : Option Text → Text
or_empty none = []
or_empty (some s) = s

-- try: m, except FeedException: …. The result says whether it was caught.
abbrev pub caught_if : Bool → Error → M Bool
caught_if true e s = (ok true, s)
caught_if false e s = (err e, s)

abbrev pub after_feed : Result (Unit {0}) → M Bool
after_feed (ok a) s = (ok false, s)
after_feed (err e) s = caught_if (is_feed_exception e) e s

unfoldable pub complains : M (Unit {0}) → M Bool
complains m s = let (r, s') = m s in after_feed r s'

module _ (lib : Library) (order : List Text → List Text) (contents : Text → Result Bytes)
    (o : Options) where
  -- hpfeeds.new: the client of these options, with reconnect=True.
  abbrev pub config : Config
  config = record {
    lib = lib;
    ident = or_empty o.ident;
    secret = or_empty o.secret;
    reconnect = true;
    order = order;
  }

  -- What the action does. The result says whether a FeedException was caught. `contents` is
  -- open(path, 'rb').read().
  unfoldable pub act : ℕ → Action → Text → M Bool
  act fuel to_subscribe pubdata = do
    cs ← lift (iterated o.channels)
    subscribe cs
    complains (run config on_message on_error fuel)
  act fuel to_publish pubdata = do
    cs ← lift (iterated o.channels)
    publish config fuel cs (text pubdata)
    emsg ← wait config fuel
    pure false
  act fuel to_sendfile pubdata = do
    pubfile ← lift (contents pubdata)
    cs ← lift (iterated o.channels)
    publish config fuel cs (bytes pubfile)
    pure false

  -- `_main`, on a client that is not connected yet: the exit code
  unfoldable pub main : ℕ → Action → Text → M ℕ
  main fuel action pubdata = do
    failed ← complains (tryconnect config fuel)
    if failed
        then pure 1
        else do failed' ← act fuel action pubdata; if failed' then pure 1 else (do close; pure 0)
