-- ===== src/Paths/Tests.antt =====
-- Runs of the normal forms, and instances of the theorems about them.
use geruest.Prelude.{◌≡◌, refl, codes}
use geruest.Paths.{canonical_request_path, default_page_gate_redirect, pop_slashes, drop_extension}

path_tests :
    (canonical_request_path (codes "/a/index.html") ≡ codes "/a/index")
    × (canonical_request_path (codes "/a//") ≡ codes "/a")
    × (canonical_request_path (codes "/") ≡ codes "/")
    × (canonical_request_path (codes "/a/.html") ≡ codes "/a/")
    × (default_page_gate_redirect (codes "/de/x") ≡ codes "/de/")
    × (default_page_gate_redirect (codes "/dex") ≡ codes "/")
unfolding canonical_request_path pop_slashes drop_extension default_page_gate_redirect
path_tests = (refl, refl, refl, refl, refl, refl)
