-- ===== src/Repository/Decrypted.antt =====
-- The key that a provider signs with.
use quorum_based_manifests_g.Common.{
  false, List, [], ◌∷◌, Option, none, some, String, ◌==◌, ◌≡◌, refl, subst, Result, ok, err,
  Bool-cases, inl, inr, arith,
}
use quorum_based_manifests_g.Repository.World.{Git}
use quorum_based_manifests_g.Repository.Keys.{
  Key, is_encrypted, decrypt, decrypted, unlock_key, check_subkeys, with_key, and_keys,
  decrypt_subkeys, unchanged_keys, unlock_subkeys, with_subkeys, with_private_key, unlock_entity,
}

module _ (g : Git) where
  -- No private key among them is encrypted.
  abbrev pub AllDecrypted : List (Option g.PrivateKey) → Type 0
  AllDecrypted [] = Unit
  AllDecrypted (key ∷ keys) = (is_encrypted g key ≡ false) × AllDecrypted keys

  decrypted_lem :
      (c : String) (r : Result (Unit {0})) (k : g.PrivateKey) (key : Option g.PrivateKey)
      → decrypted g c (r, k) ≡ ok key
      → is_encrypted g key ≡ false
  decrypted_lem c (err e) k key h = absurd (cc)
  decrypted_lem c (ok _) k key h = elim (Bool-cases (g.is_encrypted k)) [
    | inl e ↦ absurd (ground arith)
    | inr e ↦ ground arith
  ]

  decrypt_lem :
      (c passphrase : String) (key key' : Option g.PrivateKey)
      → decrypt g c passphrase key ≡ ok key'
      → is_encrypted g key' ≡ false
  decrypt_lem c passphrase none key' h = ground arith
  decrypt_lem c passphrase (some k) key' h =
      decrypted_lem c (g.decrypt k passphrase).0 (g.decrypt k passphrase).1 key' h

  check_lem :
      (keys : List (Option g.PrivateKey)) (u : Unit {0})
      → check_subkeys g keys ≡ ok u
      → AllDecrypted keys
  unfolding check_subkeys
  check_lem [] u h = tt
  check_lem (key ∷ keys) u h = elim (Bool-cases (is_encrypted g key)) [
    | inl e ↦ absurd (ground arith)
    | inr e ↦ (e, check_lem keys u (ground arith))
  ]

  with_key_lem :
      (key : Option g.PrivateKey) (r : Result (List (Option g.PrivateKey)))
      (keys : List (Option g.PrivateKey))
      → is_encrypted g key ≡ false
      → ((ks : List (Option g.PrivateKey)) → r ≡ ok ks → AllDecrypted ks)
      → with_key g key r ≡ ok keys
      → AllDecrypted keys
  with_key_lem key (ok ks) keys e ih h =
      let same : key ∷ ks ≡ keys = ground arith in subst AllDecrypted same (e, ih ks refl)
  with_key_lem key (err x) keys e ih h = absurd (cc)

  and_keys_lem :
      (r : Result (Option g.PrivateKey)) (rest : Result (List (Option g.PrivateKey)))
      (keys : List (Option g.PrivateKey))
      → ((k : Option g.PrivateKey) → r ≡ ok k → is_encrypted g k ≡ false)
      → ((ks : List (Option g.PrivateKey)) → rest ≡ ok ks → AllDecrypted ks)
      → and_keys g r rest ≡ ok keys
      → AllDecrypted keys
  and_keys_lem (ok k) rest keys kh ih h = with_key_lem k rest keys (kh k refl) ih h
  and_keys_lem (err x) rest keys kh ih h = absurd (cc)

  subkeys_lem :
      (passphrase : String) (keys keys' : List (Option g.PrivateKey))
      → decrypt_subkeys g passphrase keys ≡ ok keys'
      → AllDecrypted keys'
  unfolding decrypt_subkeys
  subkeys_lem passphrase [] keys' h =
      let same : [] ≡ keys' = ground arith in subst AllDecrypted same tt
  subkeys_lem passphrase (key ∷ keys) keys' h = elim (Bool-cases (is_encrypted g key)) [
    | inl e ↦
        and_keys_lem (decrypt g "failed to decrypt PGP subkey" passphrase key)
          (decrypt_subkeys g passphrase keys) keys'
          (λ k. decrypt_lem "failed to decrypt PGP subkey" passphrase key k)
          (λ ks. subkeys_lem passphrase keys ks) (rw e at h)
    | inr e ↦
        with_key_lem key (decrypt_subkeys g passphrase keys) keys' e
          (λ ks. subkeys_lem passphrase keys ks) (rw e at h)
  ]

  unchanged_lem :
      (keys keys' : List (Option g.PrivateKey)) (r : Result (Unit {0}))
      → check_subkeys g keys ≡ r
      → unchanged_keys g keys r ≡ ok keys'
      → AllDecrypted keys'
  unchanged_lem keys keys' (ok u) c h =
      let same : keys ≡ keys' = ground arith in subst AllDecrypted same (check_lem keys u c)
  unchanged_lem keys keys' (err x) c h = absurd (cc)

  unlock_subkeys_lem :
      (passphrase : String) (keys keys' : List (Option g.PrivateKey))
      → unlock_subkeys g passphrase keys ≡ ok keys'
      → AllDecrypted keys'
  unfolding unlock_subkeys
  unlock_subkeys_lem passphrase keys keys' h = elim (Bool-cases (passphrase == "")) [
    | inl e ↦ unchanged_lem keys keys' (check_subkeys g keys) refl (rw e at h)
    | inr e ↦ subkeys_lem passphrase keys keys' (rw e at h)
  ]

  -- The private key, where there is one, and those of the subkeys.
  abbrev pub IsDecrypted : Key g → Type 0
  IsDecrypted entity = (is_encrypted g entity.private_key ≡ false) × AllDecrypted entity.subkeys

  with_subkeys_lem :
      (entity entity' : Key g) (key : Option g.PrivateKey) (r : Result (List (Option g.PrivateKey)))
      → is_encrypted g key ≡ false
      → ((ks : List (Option g.PrivateKey)) → r ≡ ok ks → AllDecrypted ks)
      → with_subkeys g entity key r ≡ ok entity'
      → IsDecrypted entity'
  with_subkeys_lem entity entity' key (ok ks) e kh h =
      let same : record entity { private_key = key; subkeys = ks } ≡ entity' = cc in
      subst IsDecrypted same (e, kh ks refl)
  with_subkeys_lem entity entity' key (err x) e kh h = absurd (cc)

  with_private_key_lem :
      (passphrase : String) (entity entity' : Key g) (r : Result (Option g.PrivateKey))
      → with_private_key g passphrase entity r ≡ ok entity'
      → IsDecrypted entity'
  with_private_key_lem passphrase entity entity' (err x) h = absurd (cc)
  with_private_key_lem passphrase entity entity' (ok key) h =
      elim (Bool-cases (is_encrypted g key)) [
        | inl e ↦ absurd (no_key (rw e at h))
        | inr e ↦
            with_subkeys_lem entity entity' key (unlock_subkeys g passphrase entity.subkeys) e
              (unlock_subkeys_lem passphrase entity.subkeys) (rw e at h)
      ]
    where
      no_key : err "PGP private key remains encrypted after decrypt attempt" ≡ ok entity' → ⊥
      no_key q = cc

  -- A key that a provider is given to sign with has no private key that is still encrypted, neither
  -- its own nor that of a subkey.
  pub unlock_entity-IsDecrypted :
      (passphrase : String) (entity entity' : Key g)
      → unlock_entity g passphrase entity ≡ ok entity'
      → IsDecrypted entity'
  unfolding unlock_entity
  unlock_entity-IsDecrypted passphrase entity entity' h =
      with_private_key_lem passphrase entity entity' (unlock_key g passphrase entity.private_key) h
