-- ===== src/Wire/Message/Greeting.antt =====
-- hpfeeds/protocol.py: the frames of a challenge and of the answer to it.
use hpfeeds.Prelude.{◌≤◌, ◌≡◌, ap, ◌++◌, arith, length}
use hpfeeds.Python.Result.{ok}
use hpfeeds.Python.Struct.{Bytes}
use hpfeeds.Python.Values.{Text, Library, text, bytes}
use hpfeeds.Wire.Opcode.{op_info, op_auth, sizes}
use hpfeeds.Wire.Message.{
  msginfo, msgauth, hashsecret, strpack8, msghdr, readinfo, readauth, force_str,
}
use hpfeeds.Wire.Message.RoundTrip.{msginfo-inv, msghdr-inv, length-encode, strunpack8-strpack8}
use hpfeeds.Wire.Unpacker.Frames.{Fits, encode}

module _ (lib : Library) (rand m : Bytes) where
  pub msginfo-Fits :
      (name : Text)
      → msginfo lib (text name) (bytes rand) ≡ ok m
      → length m ≤ sizes op_info
      → (payload : Bytes) × Fits (op_info, payload)
        × (m ≡ encode (op_info, payload))
        × (readinfo lib payload ≡ ok (name, rand))
  unfolding readinfo force_str
  msginfo-Fits name h l =
      let (n, hn, e) = msginfo-inv lib m name rand h in
      let q = msghdr-inv op_info (n ++ rand) m e in
      (
        n ++ rand,
        (omega arith, omega (arith, ap length q, length-encode op_info (n ++ rand))),
        q,
        rw (strunpack8-strpack8 lib name n rand hn),
      )

  msgauth-parts :
      (ident secret : Text)
      → msgauth lib rand (text ident) secret ≡ ok m
      → (i : Bytes) × (hash : Bytes) × (strpack8 lib (text ident) ≡ ok i)
        × (hashsecret lib rand secret ≡ ok hash)
        × (msghdr op_auth (i ++ hash) ≡ ok m)
  unfolding msgauth
  msgauth-parts ident secret h = ground arith

  pub msgauth-Fits :
      (ident secret : Text)
      → msgauth lib rand (text ident) secret ≡ ok m
      → length m ≤ sizes op_auth
      → (hash : Bytes) × (payload : Bytes) × (hashsecret lib rand secret ≡ ok hash)
        × Fits (op_auth, payload)
        × (m ≡ encode (op_auth, payload))
        × (readauth lib payload ≡ ok (ident, hash))
  unfolding readauth force_str
  msgauth-Fits ident secret h l =
      let (i, hash, hi, k, e) = msgauth-parts ident secret h in
      let q = msghdr-inv op_auth (i ++ hash) m e in
      (
        hash,
        i ++ hash,
        k,
        (omega arith, omega (arith, ap length q, length-encode op_auth (i ++ hash))),
        q,
        rw (strunpack8-strpack8 lib ident i hash hi),
      )
