-- ===== src/Scripts/Options.antt =====
-- hpfeeds/scripts/cli.py: the checks of `opts` on what optparse found on the command line.
use hpfeeds.Prelude.{
  ℕ, zero, suc, ◌≡◌, List, [], ◌∷◌, ◌++◌, Bool, true, false, not, Option, none, some, if◌then◌else◌,
  text_eq,
}
use hpfeeds.Python.Values.{Text, codes}

-- The options, of which each but tls may be missing.
pub record Options : Type 0 where
  pub host : Option Text
  pub port : Option ℕ
  pub ident : Option Text
  pub secret : Option Text
  pub channels : Option (List Text)
  pub certfile : Option Text
  pub tls : Bool

pub data Action : Type 0 where
  to_subscribe to_publish to_sendfile : Action

-- parser.error, with its message, which ends the program; or the action and its data.
pub data Opted : Type 0 where
  refused : Text → Opted
  opted : Action → Option Text → Opted

-- if x, of a text or None
abbrev pub given : Option Text → Bool
given none = false
given (some []) = false
given (some (a ∷ s)) = true

abbrev pub given_port : Option ℕ → Bool
given_port none = false
given_port (some zero) = false
given_port (some (suc n)) = true

-- ' '.join(words)
unfoldable pub join : List Text → Text
join [] = []
join (w ∷ []) = w
join (w ∷ v ∷ ws) = w ++ 32 ∷ join (v ∷ ws)

abbrev pub word : Action → Text
word to_subscribe = codes "subscribe"
word to_publish = codes "publish"
word to_sendfile = codes "sendfile"

abbrev pub action_of : Text → Option Action
action_of name =
    if text_eq name (word to_subscribe)
    then some to_subscribe
    else if text_eq name (word to_publish)
    then some to_publish
    else if text_eq name (word to_sendfile)
    then some to_sendfile
    else none

abbrev pub data_of : Action → List Text → Option Text
data_of to_subscribe args = none
data_of to_publish args = some (join args)
data_of to_sendfile args = some (join args)

abbrev not_an_action : Text
not_an_action = codes "You need to give \"subscribe\" or \"publish\" as <action>."

-- if options.certfile: if not os.path.exists(options.certfile): …
abbrev pub cert_missing : (Text → Bool) → Option Text → Bool
cert_missing exists none = false
cert_missing exists (some []) = false
cert_missing exists (some (a ∷ s)) = not (exists (a ∷ s))

unfoldable pub check : (Text → Bool) → Options → Action → Option Text → Opted
check exists o action pubdata =
    if cert_missing exists o.certfile
    then refused (codes "If --tlscert is specified it must be a valid path to a file")
    else if not (given o.host)
    then refused (codes "You must specify a host")
    else if not (given_port o.port)
    then refused (codes "You must specify a port")
    else if not (given o.ident)
    then refused (codes "You must specify an ident")
    else if not (given o.secret)
    then refused (codes "You must specify a secret")
    else opted action pubdata

unfoldable pub checked : (Text → Bool) → Options → List Text → Option Action → Opted
unfolding join
checked exists o args none = refused not_an_action
checked exists o args (some action) = check exists o action (data_of action args)

-- opts: `exists` is os.path.exists, and `args` what is left besides the options.
unfoldable pub opts : (Text → Bool) → Options → List Text → Opted
opts exists o [] = refused not_an_action
opts exists o (name ∷ args) = checked exists o args (action_of name)

-- What `opts` asks for is there; --chan is not among it.
pub record Complete (exists : Text → Bool) (o : Options) : Type 0 where
  pub cert : cert_missing exists o.certfile ≡ false
  pub host : given o.host ≡ true
  pub port : given_port o.port ≡ true
  pub ident : given o.ident ≡ true
  pub secret : given o.secret ≡ true
