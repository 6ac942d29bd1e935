-- ===== src/Wire/Message/Clean.antt =====
-- hpfeeds/protocol.py: building and reading messages ends, with a result or an exception.
use hpfeeds.Prelude.{ℕ, refl, [], ◌∷◌, Option, none, some}
use hpfeeds.Python.Result.{struct_error, unicode_error, type_error}
use hpfeeds.Python.Result.Clean.{Clean, Clean-ok, Clean-err, Clean-if, clean_rules}
use hpfeeds.Python.Struct.{Bytes, pack_byte, pack_header}
use hpfeeds.Python.Values.{Text, Library, Value, text, bytes, or_unicode_error}
use hpfeeds.Wire.Message.{
  msghdr, hashsecret, force_bytes, force_str, strpack8, strunpack8, msginfo, msgerror, msgpublish,
  msgsubscribe, readerror, readinfo, readauth, readpublish, readsubscribe, readunsubscribe,
}

or_unicode_error-Clean {ℓ} : {A : Type ℓ} (o : Option A) → Clean (or_unicode_error o)
or_unicode_error-Clean none = Clean-err unicode_error refl refl
or_unicode_error-Clean (some a) = Clean-ok a

pack_byte-Clean : (n : ℕ) → Clean (pack_byte n)
unfolding pack_byte
pack_byte-Clean n = Clean-if _ _ _ (Clean-ok _) (Clean-err struct_error refl refl)

pack_header-Clean : (n op : ℕ) → Clean (pack_header n op)
unfolding pack_header
pack_header-Clean n op = Clean-if _ _ _ (Clean-ok _) (Clean-err struct_error refl refl)

msghdr-Clean : (op : ℕ) (payload : Bytes) → Clean (msghdr op payload)
unfolding msghdr
msghdr-Clean op payload = search (clean_rules, pack_header-Clean)

module _ (lib : Library) where
  pub hashsecret-Clean : (rand : Bytes) (secret : Text) → Clean (hashsecret lib rand secret)
  unfolding hashsecret
  hashsecret-Clean rand secret = search (clean_rules, or_unicode_error-Clean)

  force_bytes-Clean : (v : Value) → Clean (force_bytes lib v)
  unfolding force_bytes
  force_bytes-Clean (text s) = or_unicode_error-Clean _
  force_bytes-Clean (bytes b) = Clean-ok b

  force_str-Clean : (v : Value) → Clean (force_str lib v)
  unfolding force_str
  force_str-Clean (text s) = Clean-ok s
  force_str-Clean (bytes b) = or_unicode_error-Clean _

  strpack8-Clean : (v : Value) → Clean (strpack8 lib v)
  unfolding strpack8
  strpack8-Clean v = search (clean_rules, force_bytes-Clean, pack_byte-Clean)

  strunpack8-Clean : (x : Bytes) → Clean (strunpack8 lib x)
  unfolding strunpack8
  strunpack8-Clean [] = Clean-err type_error refl refl
  strunpack8-Clean (n ∷ x) = search (clean_rules, force_str-Clean)

  ruleset parts = (
    clean_rules, msghdr-Clean, force_bytes-Clean, force_str-Clean, strpack8-Clean, strunpack8-Clean,
  )

  pub msgerror-Clean : (v : Value) → Clean (msgerror lib v)
  unfolding msgerror
  msgerror-Clean v = search parts

  pub msginfo-Clean : (name rand : Value) → Clean (msginfo lib name rand)
  unfolding msginfo
  msginfo-Clean name rand = search parts

  pub msgpublish-Clean : (ident chan payload : Value) → Clean (msgpublish lib ident chan payload)
  unfolding msgpublish
  msgpublish-Clean ident chan payload = search parts

  pub msgsubscribe-Clean : (ident chan : Value) → Clean (msgsubscribe lib ident chan)
  unfolding msgsubscribe
  msgsubscribe-Clean ident chan = search parts

  pub readerror-Clean : (x : Bytes) → Clean (readerror lib x)
  unfolding readerror
  readerror-Clean x = search parts

  pub readinfo-Clean : (x : Bytes) → Clean (readinfo lib x)
  unfolding readinfo
  readinfo-Clean x = search parts

  pub readauth-Clean : (x : Bytes) → Clean (readauth lib x)
  unfolding readauth
  readauth-Clean x = search parts

  pub readsubscribe-Clean : (x : Bytes) → Clean (readsubscribe lib x)
  unfolding readsubscribe
  readsubscribe-Clean x = search parts

  pub readunsubscribe-Clean : (x : Bytes) → Clean (readunsubscribe lib x)
  unfolding readunsubscribe
  readunsubscribe-Clean x = search parts

  pub readpublish-Clean : (x : Bytes) → Clean (readpublish lib x)
  unfolding readpublish
  readpublish-Clean x = search parts
