-- ===== src/Repository/Keys.antt =====
-- kubernetes/internal/repository/base.go, `getPGPEntity`: the key that signs, with its private keys
-- decrypted. `createDetachedSignature` and `convertPublicKeyToHash` are calls of go-crypto.
use quorum_based_manifests_g.Common.{
  Bool, false, List, [], ◌∷◌, Option, none, some, String, ◌==◌, Result, ok, err, with_context,
  if◌then◌else◌,
}
use quorum_based_manifests_g.Exec.{raise, ◌>>=◌}
use quorum_based_manifests_g.Repository.World.{Entity, Git, Action, provider, from_result, panic}

module _ (g : Git) where
  abbrev pub Key : Type 0
  Key = Entity g.PrivateKey

  -- `Decrypt`, with the test that follows it; `%w` prints a nil error so.
  abbrev pub decrypted : String → Result (Unit {0}) × g.PrivateKey → Result (Option g.PrivateKey)
  decrypted context (err e, k) = err (with_context context e)
  decrypted context (ok _, k) =
      if g.is_encrypted k then err (with_context context "%!w(<nil>)") else ok (some k)

  abbrev pub is_encrypted : Option g.PrivateKey → Bool
  is_encrypted none = false
  is_encrypted (some k) = g.is_encrypted k

  abbrev pub decrypt : String → String → Option g.PrivateKey → Result (Option g.PrivateKey)
  decrypt context passphrase none = ok none
  decrypt context passphrase (some k) = decrypted context (g.decrypt k passphrase)

  -- The main key is decrypted if it is there and encrypted.
  unfoldable pub unlock_key : String → Option g.PrivateKey → Result (Option g.PrivateKey)
  unlock_key passphrase key =
      if is_encrypted key
      then (if passphrase == ""
          then err "PGP private key is encrypted, but no passphrase was provided"
          else decrypt "failed to decrypt PGP private key" passphrase key)
      else ok key

  -- Without a passphrase no subkey may be encrypted.
  unfoldable pub check_subkeys : List (Option g.PrivateKey) → Result (Unit {0})
  check_subkeys [] = ok tt
  check_subkeys (key ∷ keys) =
      let rest = check_subkeys keys in
      if is_encrypted key
      then err "PGP subkey is encrypted, but no passphrase was provided"
      else rest

  abbrev pub with_key :
      Option g.PrivateKey
      → Result (List (Option g.PrivateKey))
      → Result (List (Option g.PrivateKey))
  with_key key (ok keys) = ok (key ∷ keys)
  with_key key (err e) = err e

  abbrev pub and_keys :
      Result (Option g.PrivateKey)
      → Result (List (Option g.PrivateKey))
      → Result (List (Option g.PrivateKey))
  and_keys (ok key) rest = with_key key rest
  and_keys (err e) rest = err e

  -- With one, every encrypted subkey is decrypted.
  unfoldable pub decrypt_subkeys :
      String → List (Option g.PrivateKey) → Result (List (Option g.PrivateKey))
  decrypt_subkeys passphrase [] = ok []
  decrypt_subkeys passphrase (key ∷ keys) =
      let rest = decrypt_subkeys passphrase keys in
      if is_encrypted key
      then and_keys (decrypt "failed to decrypt PGP subkey" passphrase key) rest
      else with_key key rest

  abbrev pub unchanged_keys :
      List (Option g.PrivateKey) → Result (Unit {0}) → Result (List (Option g.PrivateKey))
  unchanged_keys keys (ok _) = ok keys
  unchanged_keys keys (err e) = err e

  unfoldable pub unlock_subkeys :
      String → List (Option g.PrivateKey) → Result (List (Option g.PrivateKey))
  unfolding check_subkeys decrypt_subkeys
  unlock_subkeys passphrase keys =
      if passphrase == ""
      then unchanged_keys keys (check_subkeys keys)
      else decrypt_subkeys passphrase keys

  abbrev pub with_subkeys :
      Key → Option g.PrivateKey → Result (List (Option g.PrivateKey)) → Result Key
  with_subkeys entity key (ok keys) = ok (record entity { private_key = key; subkeys = keys })
  with_subkeys entity key (err e) = err e

  abbrev pub with_private_key : String → Key → Result (Option g.PrivateKey) → Result Key
  with_private_key passphrase entity (err e) = err e
  with_private_key passphrase entity (ok key) =
      if is_encrypted key
      then err "PGP private key remains encrypted after decrypt attempt"
      else with_subkeys entity key (unlock_subkeys passphrase entity.subkeys)

  unfoldable pub unlock_entity : String → Key → Result Key
  unfolding unlock_key unlock_subkeys
  unlock_entity passphrase entity =
      with_private_key passphrase entity (unlock_key passphrase entity.private_key)

  -- The first of the ring; the code has no test that there is one.
  abbrev pub first_entity : String → List Key → Action g Key
  first_entity passphrase [] = panic g "index out of range"
  first_entity passphrase (entity ∷ _) = from_result g (unlock_entity passphrase entity)

  unfoldable pub get_pgp_entity : Action g Key
  unfolding ◌>>=◌ provider raise from_result unlock_entity panic
  get_pgp_entity = do
    p ← provider g
    if p.pgp_secrets.private_key == ""
        then raise "PGP private key is not configured"
        else from_result g (g.read_armored_key_ring p.pgp_secrets.private_key)
          >>= first_entity p.pgp_secrets.passphrase
