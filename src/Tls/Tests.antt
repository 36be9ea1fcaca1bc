-- ===== src/Tls/Tests.antt =====
-- A host name, the last bundle, and two callers that create a context each.
use slick_net.Prelude.{◌≡◌, refl, false, [], ◌∷◌, none, some, Bytes, codes, arith}
use slick_net.Tls.{
  set_tls_peer_host, ip_set, name_set, default_paths, bundle, load_first, load_platform_trust_roots,
  make_tls_context,
}
use slick_net.Tls.PeerHost.{IsBound, set_tls_peer_host-IsBound}
use slick_net.Tls.Shared.{
  Shared, at_load, load, load_from, create, exchange, exchange_from, Reach, start, next, loads,
  creates, exchanges,
}
use slick_net.Tls.Windows.{StoreApi, windows_roots, windows_roots-readable}
use slick_net.Examples.{peer_api, roots_api}

set_tls_peer_host-IsBound_example :
    IsBound peer_api (codes "h") (none, none) (some (codes "h"), some (codes "h"))
unfolding set_tls_peer_host ip_set name_set
set_tls_peer_host-IsBound_example =
    set_tls_peer_host-IsBound peer_api (codes "h") (none, none) (some (codes "h"), some (codes "h"))
      refl

test_empty_host : (set_tls_peer_host peer_api [] (none, none)).0 ≡ (none, none)
unfolding set_tls_peer_host
test_empty_host = refl

test_roots :
    (make_tls_context roots_api).roots ≡ default_paths ∷ bundle (codes "/etc/ssl/cert.pem") ∷ []
unfolding make_tls_context load_platform_trust_roots load_first
test_roots = refl

abbrev raced : Shared
raced = exchange 1 [] (exchange 0 (1 ∷ []) (create (create (load (load at_load)))))

raced-reached : Reach raced
unfolding load load_from create exchange exchange_from
raced-reached =
    next
      (next
        (next (next (next (next start loads) loads) (creates (omega arith)))
          (creates (omega arith)))
        (exchanges 0 (1 ∷ []) [] refl))
      (exchanges 1 [] [] refl)

test_raced : raced.returned ≡ 0 ∷ 0 ∷ []
unfolding load load_from create exchange exchange_from
test_raced = refl

-- A ROOT store with one certificate that cannot be read.
abbrev store_api : StoreApi
store_api = record {
  Certificate = Bytes;
  file_env = false;
  dir_env = false;
  root_store = some (codes "a" ∷ [] ∷ codes "b" ∷ []);
  d2i_x509 = λ der. elim der [ [] ↦ none | c ∷ cs ↦ some (c ∷ cs) ];
}

test_windows : windows_roots store_api ≡ codes "a" ∷ codes "b" ∷ []
test_windows = windows_roots-readable store_api
