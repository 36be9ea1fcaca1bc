-- ===== src/Tls/Trust.antt =====
-- Which roots a context trusts.
use slick_net.Prelude.{
  ◌≡◌, refl, sym, ap, append-nil, Bool, true, not, ◌&&◌, List, [], ◌∷◌, ◌++◌, Bytes, if◌then◌else◌,
  Bool-cases, inl, inr,
}
use slick_net.Tls.{
  RootsApi, Roots, default_paths, bundle, Context, ca_bundles, load_first,
  load_platform_trust_roots, make_tls_context,
}

-- The first path that can be loaded.
abbrev pub first_loaded : (Bytes → Bool) → List Bytes → List Roots
first_loaded loads [] = []
first_loaded loads (path ∷ paths) =
    if loads path then bundle path ∷ [] else first_loaded loads paths

load_first-roots :
    (loads : Bytes → Bool) (paths : List Bytes) (ctx : Context)
    → load_first loads paths ctx ≡ record ctx { roots = ctx.roots ++ first_loaded loads paths }
unfolding load_first
load_first-roots loads [] ctx =
    ap (λ (r : List Roots). record ctx { roots = r }) (sym (append-nil ctx.roots))
load_first-roots loads (path ∷ paths) ctx = elim (Bool-cases (loads path)) [
  | inl e ↦ rw e refl
  | inr e ↦ rw e (load_first-roots loads paths ctx)
]

-- Every context verifies its peer. An SSL_CERT_FILE or SSL_CERT_DIR, or a certificate file of OpenSSL's own, leaves
-- the trust to OpenSSL's paths; otherwise the first system bundle that loads is trusted too, and no other.
pub make_tls_context-roots :
    (api : RootsApi)
    → make_tls_context api ≡ record {
      verifies_peer = true;
      roots =
          if (not api.file_env && not api.dir_env) && not api.has_default_file
          then default_paths ∷ first_loaded api.loads ca_bundles
          else default_paths ∷ [];
    }
unfolding make_tls_context load_platform_trust_roots
make_tls_context-roots api = elim (Bool-cases (not api.file_env && not api.dir_env)) [
  | inl e ↦ rw e (elim (Bool-cases api.has_default_file) [
    | inl d ↦ rw d refl
    | inr d ↦ rw d (
        load_first-roots api.loads ca_bundles
          (record { verifies_peer = true; roots = default_paths ∷ [] }))
  ])
  | inr e ↦ rw e refl
]
