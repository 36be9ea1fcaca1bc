-- ===== src/Tls/PeerHost.antt =====
-- What a successful set_tls_peer_host has set.
use slick_net.Prelude.{
  ℕ, ◌≡◌, ◌≢◌, refl, ◌∙◌, true, false, [], ◌∷◌, Option, none, some, Bytes, if◌then◌else◌,
  Bool-cases, inl, inr, arith,
}
use slick_net.Tls.{PeerApi, set_tls_peer_host, ip_set, name_set}

module _ (api : PeerApi) where
  open api use {
    Handle, is_address, set_ip, forbid_partial, set_server_name, set_host, expected, server_name,
  }

  -- The handle demands this host of the peer. The SNI is the host, or as it was where the host is an IP literal.
  pub record IsBound (host : Bytes) (before after : Handle) : Type 0 where
    pub named : host ≢ []
    pub demanded : expected after ≡ some host
    pub announced : server_name after ≡ (if is_address host then server_name before else some host)

  ip_set-some : (h k : Handle) (o : Option Handle) → ip_set api h o ≡ (k, none) → o ≡ some k
  unfolding ip_set
  ip_set-some h k none s = ground arith
  ip_set-some h k (some j) s = cc

  address-IsBound :
      (c : ℕ) (cs : Bytes) (h k : Handle)
      → is_address (c ∷ cs) ≡ true
      → ip_set api h (set_ip (c ∷ cs) h) ≡ (k, none)
      → IsBound (c ∷ cs) h k
  address-IsBound c cs h k a e =
      let s = ip_set-some h k (set_ip (c ∷ cs) h) e in
      record {
        named = λ n. cc;
        demanded = api.set_ip-expected (c ∷ cs) h k s;
        announced = rw a (api.set_ip-server_name (c ∷ cs) h k s);
      }

  name-IsBound :
      (c : ℕ) (cs : Bytes) (g h k : Handle) (o : Option Handle)
      → is_address (c ∷ cs) ≡ false
      → set_server_name (c ∷ cs) h ≡ o
      → name_set api (c ∷ cs) h o ≡ (k, none)
      → IsBound (c ∷ cs) g k
  unfolding name_set
  name-IsBound c cs g h k none a s e = ground arith
  name-IsBound c cs g h k (some j) a s e =
      let t = ip_set-some j k (set_host (c ∷ cs) j) e in
      record {
        named = λ n. cc;
        demanded = api.set_host-expected (c ∷ cs) j k t;
        announced = rw a (
            api.set_host-server_name (c ∷ cs) j k t
            ∙ api.set_server_name-server_name (c ∷ cs) h j s);
      }

  -- Where set_tls_peer_host returns no error, the host is not empty, the handshake demands a certificate for this
  -- very host, and the SNI is the host, unless that is an IP literal: then the SNI is as it was.
  pub set_tls_peer_host-IsBound :
      (host : Bytes) (h k : Handle) → set_tls_peer_host api host h ≡ (k, none) → IsBound host h k
  unfolding set_tls_peer_host
  set_tls_peer_host-IsBound [] h k e = ground arith
  set_tls_peer_host-IsBound (c ∷ cs) h k e = elim (Bool-cases (is_address (c ∷ cs))) [
    | inl a ↦ address-IsBound c cs h k a (rw a at e)
    | inr n ↦
        name-IsBound c cs h (forbid_partial h) k (set_server_name (c ∷ cs) (forbid_partial h)) n
          refl (rw n at e)
  ]
