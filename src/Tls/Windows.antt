-- ===== src/Tls/Windows.antt =====
-- src/tls.cpp on Windows: load_platform_trust_roots takes the roots from the ROOT certificate store.
use slick_net.Prelude.{
  ◌≡◌, refl, sym, ◌∙◌, append-nil, append_assoc, Bool, not, ◌&&◌, List, [], ◌∷◌, ◌++◌, Option, none,
  some, Bytes, if◌then◌else◌, Bool-cases, Option-cases, inl, inr,
}

-- What the code asks of Windows, OpenSSL and the environment. Certificate is OpenSSL's X509.
pub record StoreApi : Type 1 where
  pub Certificate : Type 0
  pub file_env : Bool  -- SSL_CERT_FILE is set
  pub dir_env : Bool  -- SSL_CERT_DIR is set
  pub root_store : Option (List Bytes)  -- the encoded certificates, if CertOpenSystemStoreW opens the store
  pub d2i_x509 : Bytes → Option Certificate

module _ (api : StoreApi) where
  open api use {Certificate, file_env, dir_env, root_store, d2i_x509}

  -- The certificates that were added to the context's store, behind its default paths, in this order.
  abbrev pub Added : Type 0
  Added = List Certificate

  add_cert : Option Certificate → Added → Added
  add_cert none added = added
  add_cert (some x509) added = added ++ x509 ∷ []

  -- The loop over CertEnumCertificatesInStore.
  pub add_store : List Bytes → Added → Added
  unfolding add_cert
  add_store [] added = added
  add_store (der ∷ rest) added = add_store rest (add_cert (d2i_x509 der) added)

  -- load_platform_trust_roots, with the store or without.
  add_roots : Option (List Bytes) → Added → Added
  unfolding add_store
  add_roots none added = added
  add_roots (some certs) added = add_store certs added

  -- make_tls_context.
  pub windows_roots : Added
  unfolding add_roots
  windows_roots = if not file_env && not dir_env then add_roots root_store [] else []

  abbrev cons_if : Option Certificate → Added → Added
  cons_if none certs = certs
  cons_if (some x509) certs = x509 ∷ certs

  -- The certificates of the store that OpenSSL can read.
  abbrev readable : List Bytes → Added
  readable [] = []
  readable (der ∷ rest) = cons_if (d2i_x509 der) (readable rest)

  abbrev pub readable_in : Option (List Bytes) → Added
  readable_in none = []
  readable_in (some certs) = readable certs

  add_store-readable :
      (certs : List Bytes) (added : Added) → add_store certs added ≡ added ++ readable certs
  unfolding add_store add_cert
  add_store-readable [] added = sym (append-nil added)
  add_store-readable (der ∷ rest) added = elim (Option-cases (d2i_x509 der)) [
    | inl e ↦ rw e (add_store-readable rest added)
    | inr (x509, e) ↦ rw e (
        add_store-readable rest (added ++ x509 ∷ [])
        ∙ append_assoc added (x509 ∷ []) (readable rest))
  ]

  add_roots-readable : (store : Option (List Bytes)) → add_roots store [] ≡ readable_in store
  unfolding add_roots
  add_roots-readable none = refl
  add_roots-readable (some certs) = add_store-readable certs []

  -- Where neither SSL_CERT_FILE nor SSL_CERT_DIR is set, every certificate of the ROOT store that OpenSSL can read
  -- is trusted, in the order of the store, and one that it cannot read is left out; otherwise none is, and also
  -- where the store cannot be opened.
  pub windows_roots-readable :
      windows_roots ≡ (if not file_env && not dir_env then readable_in root_store else [])
  unfolding windows_roots
  windows_roots-readable = elim (Bool-cases (not file_env && not dir_env)) [
    | inl e ↦ rw e (add_roots-readable root_store)
    | inr e ↦ rw e refl
  ]
